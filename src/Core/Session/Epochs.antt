-- ===== src/Core/Session/Epochs.antt =====
-- The epochs: which commands advance them, and what an unchanged epoch promises.
use penguin_redis.Prelude.{
  ℕ, suc, ◌+◌, ◌^◌, ◌≤◌, ◌<◌, ◌≡◌, refl, ◌∙◌, inl, inr, List, [], ◌∷◌, arith, length,
  to_ascii_uppercase, u64, Bool-cases, Option-cases, if◌then◌else◌,
}
use penguin_redis.Core.Session.{
  SessionState, verb, observe_command, note_queue_error, arm, Verb, reset_connection, client, hello,
  auth, select, parse_u32, has_auth,
}
use penguin_redis.Core.Session.Runs.{Event, command, queue_error, step, run, changes_identity}

-- How often the events change the identity.
abbrev pub identity_changes : List Event → ℕ
identity_changes [] = 0
identity_changes (command argv ∷ es) =
    let rest = identity_changes es in if changes_identity argv then suc rest else rest
identity_changes (queue_error ∷ es) = identity_changes es

arm-identity :
    (v : Verb) (name : List ℕ) (args : List (List ℕ)) (s : SessionState)
    → verb (to_ascii_uppercase name) ≡ v
    → (arm v (name ∷ args) args s).identity_epoch
      ≡ (if changes_identity (name ∷ args) then u64 (s.identity_epoch + 1) else s.identity_epoch)
unfolding arm changes_identity
arm-identity hello name args s e = ground arith
arm-identity select name [] s e = ground arith
arm-identity select name (a ∷ args) s e = ground arith
arm-identity client name [] s e = ground arith
arm-identity client name (a ∷ []) s e = ground arith
arm-identity client name (a ∷ b ∷ args) s e = ground arith
arm-identity _ name args s e = ground arith

step-identity :
    (argv : List (List ℕ)) (s : SessionState)
    → (observe_command s argv).identity_epoch
      ≡ (if changes_identity argv then u64 (s.identity_epoch + 1) else s.identity_epoch)
unfolding observe_command
step-identity [] s = unfold changes_identity in refl
step-identity (name ∷ args) s = arm-identity (verb (to_ascii_uppercase name)) name args s refl

error-identity : (s : SessionState) → (note_queue_error s).identity_epoch ≡ s.identity_epoch
unfolding note_queue_error
error-identity s = refl

-- The identity epoch counts the changes of identity, exactly: `AUTH`, `RESET`, and a `HELLO`
-- that carries `AUTH` advance it, and no other event does.
pub run-identity_epoch :
    (es : List Event) (s : SessionState)
    → s.identity_epoch + identity_changes es < 2 ^ 64
    → (run s es).identity_epoch ≡ s.identity_epoch + identity_changes es
unfolding run step
run-identity_epoch [] s h = omega arith
run-identity_epoch (command argv ∷ es) s h =
    run-identity_epoch es (observe_command s argv) (ground (arith, step-identity argv s))
    ∙ ground (arith, step-identity argv s)
run-identity_epoch (queue_error ∷ es) s h =
    run-identity_epoch es (note_queue_error s) (omega (arith, error-identity s))
    ∙ omega (arith, error-identity s)

-- The scope epoch advanced, or the database and the identity are the same.
record Moved (n : ℕ) (s t : SessionState) : Type 0 where
  advanced : t.scope_epoch ≡ u64 (s.scope_epoch + n)
  same : n ≡ 0 → (t.db ≡ s.db) × (t.identity_epoch ≡ s.identity_epoch)

Moved-zero :
    (s t : SessionState)
    → s.scope_epoch < 2 ^ 64
    → t.scope_epoch ≡ s.scope_epoch
    → t.db ≡ s.db
    → t.identity_epoch ≡ s.identity_epoch
    → (n : ℕ) × (n ≤ 1) × Moved n s t
Moved-zero s t l e d i = (0, omega arith, record { advanced = omega arith; same = λ z. (d, i) })

Moved-one :
    (s t : SessionState) → t.scope_epoch ≡ u64 (s.scope_epoch + 1) → (n : ℕ) × (n ≤ 1) × Moved n s t
Moved-one s t e = (1, omega arith, record { advanced = e; same = λ z. absurd (omega arith) })

arm-Moved :
    (v : Verb) (argv args : List (List ℕ)) (s : SessionState)
    → s.scope_epoch < 2 ^ 64
    → (n : ℕ) × (n ≤ 1) × Moved n s (arm v argv args s)
unfolding arm
arm-Moved hello argv args s l = elim (Bool-cases (has_auth argv)) [
  | inl a ↦ Moved-one s _ (ground arith)
  | inr a ↦ Moved-zero s _ l (ground arith) (ground arith) (ground arith)
]
arm-Moved select argv [] s l = Moved-zero s s l refl refl refl
arm-Moved select argv (a ∷ args) s l = elim (Option-cases (parse_u32 a)) [
  | inl bad ↦ Moved-zero s _ l (ground arith) (ground arith) (ground arith)
  | inr (k, good) ↦ Moved-one s _ (ground arith)
]
arm-Moved client argv [] s l = Moved-zero s s l refl refl refl
arm-Moved client argv (a ∷ []) s l = Moved-zero s s l refl refl refl
arm-Moved client argv (a ∷ b ∷ args) s l =
    Moved-zero s _ l (ground arith) (ground arith) (ground arith)
arm-Moved auth argv args s l = Moved-one s _ refl
arm-Moved reset_connection argv args s l = Moved-one s _ refl
arm-Moved _ argv args s l = Moved-zero s _ l refl refl refl

step-Moved :
    (e : Event) (s : SessionState)
    → s.scope_epoch < 2 ^ 64
    → (n : ℕ) × (n ≤ 1) × Moved n s (step s e)
unfolding step observe_command note_queue_error
step-Moved (command []) s l = Moved-zero s s l refl refl refl
step-Moved (command (name ∷ args)) s l =
    arm-Moved (verb (to_ascii_uppercase name)) (name ∷ args) args s l
step-Moved queue_error s l = Moved-zero s _ l refl refl refl

run-Moved :
    (es : List Event) (s : SessionState)
    → s.scope_epoch < 2 ^ 64
    → (n : ℕ) × (n ≤ length es) × Moved n s (run s es)
unfolding run
run-Moved [] s l = (0, omega arith, record { advanced = omega arith; same = λ z. (refl, refl) })
run-Moved (e ∷ es) s l =
    let (n, b, p) = step-Moved e s l in
    let (m, c, q) = run-Moved es (step s e) (omega (arith, p.advanced)) in
    (
      n + m,
      omega arith,
      record {
        advanced = omega (arith, p.advanced, q.advanced);
        same = λ z. ground (arith, p.same (omega arith), q.same (omega arith));
      },
    )

-- An unchanged scope epoch means an unchanged scope: over fewer than 2 ^ 64 events, a session
-- whose scope epoch is what it was is on the same database and under the same identity epoch, so
-- the names observed in it are still those of its scope.
pub run-same_scope :
    (es : List Event) (s : SessionState)
    → s.scope_epoch < 2 ^ 64
    → length es < 2 ^ 64
    → (run s es).scope_epoch ≡ s.scope_epoch
    → ((run s es).db ≡ s.db) × ((run s es).identity_epoch ≡ s.identity_epoch)
run-same_scope es s l k e = let (n, b, p) = run-Moved es s l in p.same (omega (arith, p.advanced))
