-- ===== src/Core/Session/Transactions.antt =====
-- Between `MULTI` and the end of the transaction nothing may be injected, and queueing is counted.
use penguin_redis.Prelude.{
  ℕ, suc, ◌+◌, ◌^◌, ◌<◌, ◌≡◌, refl, Bool, true, false, ◌||◌, List, [], ◌∷◌, arith, err, All,
  to_ascii_uppercase, u64, ap, ◌∙◌,
}
use penguin_redis.Core.Session.{
  SessionState, ReplyMode, on, off, skip_next, expect_reply, expect_reply_for_next, on_disconnect,
  queuing, verb, observe_command, note_queue_error, may_probe, probe_inside_transaction, arm,
  is_queuing, Verb, client, hello, select,
}
use penguin_redis.Core.Session.Runs.{
  Event, command, queue_error, step, run, verb_is, ends_tx, begins_tx, is_other,
}

-- One event that does not end the transaction keeps it open.
arm-queuing :
    (v : Verb) (argv args : List (List ℕ)) (s : SessionState)
    → is_queuing s.tx ≡ true
    → ends_tx v ≡ false
    → is_queuing (arm v argv args s).tx ≡ true
unfolding arm is_queuing
arm-queuing hello argv args s q e = ground arith
arm-queuing select argv [] s q e = ground arith
arm-queuing select argv (a ∷ args) s q e = ground arith
arm-queuing client argv [] s q e = ground arith
arm-queuing client argv (a ∷ []) s q e = ground arith
arm-queuing client argv (a ∷ b ∷ args) s q e = ground arith
arm-queuing _ argv args s q e = ground arith

note_queue_error-queuing :
    (s : SessionState) → is_queuing s.tx ≡ true → is_queuing (note_queue_error s).tx ≡ true
unfolding note_queue_error is_queuing
note_queue_error-queuing s q = ground arith

step-queuing :
    (e : Event) (s : SessionState)
    → is_queuing s.tx ≡ true
    → verb_is ends_tx e ≡ false
    → is_queuing (step s e).tx ≡ true
unfolding step observe_command
step-queuing (command []) s q h = q
step-queuing (command (name ∷ args)) s q h =
    arm-queuing (verb (to_ascii_uppercase name)) (name ∷ args) args s q h
step-queuing queue_error s q h = note_queue_error-queuing s q

may_probe-queuing :
    (s : SessionState) → is_queuing s.tx ≡ true → may_probe s ≡ err probe_inside_transaction
unfolding may_probe
may_probe-queuing s q = ground arith

step-multi :
    (s : SessionState) (argv : List (List ℕ))
    → verb_is begins_tx (command argv) ≡ true
    → (step s (command argv)).tx ≡ queuing 0 false
unfolding step observe_command arm
step-multi s [] h = cc
step-multi s (name ∷ args) h = ground arith

-- What happens on a connection, a reply awaited and the loss of the connection included.
pub data Happening : Type 0 where
  event : Event → Happening
  reply_awaited connection_lost : Happening

unfoldable pub react : SessionState → Happening → SessionState
unfolding expect_reply_for_next on_disconnect step
react s (event e) = step s e
react s reply_awaited = (expect_reply_for_next s).0
react s connection_lost = (on_disconnect s).0

unfoldable pub live : SessionState → List Happening → SessionState
live s [] = s
live s (h ∷ hs) = live (react s h) hs

-- What ends a transaction: `EXEC`, `DISCARD`, `RESET`, and the loss of the connection.
abbrev pub closes : Happening → Bool
closes (event e) = verb_is ends_tx e
closes reply_awaited = false
closes connection_lost = true

expect_reply-tx : (s : SessionState) → (expect_reply_for_next s).0.tx ≡ s.tx
unfolding expect_reply_for_next
expect_reply-tx s = by_mode s.reply_mode
  where
    by_mode : (m : ReplyMode) → (expect_reply m s).0.tx ≡ s.tx
    by_mode on = refl
    by_mode off = refl
    by_mode skip_next = refl

react-queuing :
    (h : Happening) (s : SessionState)
    → is_queuing s.tx ≡ true
    → closes h ≡ false
    → is_queuing (react s h).tx ≡ true
unfolding react
react-queuing (event e) s q n = step-queuing e s q n
react-queuing reply_awaited s q n = ap is_queuing (expect_reply-tx s) ∙ q
react-queuing connection_lost s q n = absurd cc

live-queuing :
    (hs : List Happening) (s : SessionState)
    → is_queuing s.tx ≡ true
    → All (λ h. closes h ≡ false) hs
    → is_queuing (live s hs).tx ≡ true
unfolding live
live-queuing [] s q n = q
live-queuing (h ∷ hs) s q n = live-queuing hs (react s h) (react-queuing h s q n.0) n.1

-- From a `MULTI` on, over commands, queue errors and awaited replies, no background request may be
-- injected: every probe is refused as inside a transaction, until an `EXEC`, a `DISCARD`, a `RESET`
-- or the loss of the connection.
pub multi-may_probe :
    (s : SessionState) (argv : List (List ℕ)) (hs : List Happening)
    → verb_is begins_tx (command argv) ≡ true
    → All (λ h. closes h ≡ false) hs
    → may_probe (live (step s (command argv)) hs) ≡ err probe_inside_transaction
multi-may_probe s argv hs m n =
    may_probe-queuing _
      (live-queuing hs _ (ap is_queuing (step-multi s argv m) ∙ unfold is_queuing in refl) n)

-- The events that only fill the queue: commands with no arm of their own, and queue errors.
abbrev pub fills_queue : Event → Bool
fills_queue (command argv) = verb_is is_other (command argv)
fills_queue queue_error = true

abbrev pub commands : List Event → ℕ
commands [] = 0
commands (command argv ∷ es) = suc (commands es)
commands (queue_error ∷ es) = commands es

abbrev pub has_queue_error : List Event → Bool
has_queue_error [] = false
has_queue_error (command argv ∷ es) = has_queue_error es
has_queue_error (queue_error ∷ es) = true

step-command_queued :
    (argv : List (List ℕ)) (s : SessionState) (n : ℕ) (b : Bool)
    → s.tx ≡ queuing n b
    → fills_queue (command argv) ≡ true
    → (step s (command argv)).tx ≡ queuing (u64 (n + 1)) b
unfolding step observe_command arm
step-command_queued [] s n b q h = cc
step-command_queued (name ∷ args) s n b q h = ground arith

step-error_queued :
    (s : SessionState) (n : ℕ) (b : Bool)
    → s.tx ≡ queuing n b
    → (step s queue_error).tx ≡ queuing n true
unfolding step note_queue_error
step-error_queued s n b q = ground arith

run-tx :
    (es : List Event) (s : SessionState) (n : ℕ) (b : Bool)
    → s.tx ≡ queuing n b
    → n + commands es < 2 ^ 64
    → All (λ e. fills_queue e ≡ true) es
    → (run s es).tx ≡ queuing (n + commands es) (b || has_queue_error es)
unfolding run
run-tx [] s n b q l h = ground arith
run-tx (command argv ∷ es) s n b q l h =
    run-tx es (step s (command argv)) (n + 1) b
      (step-command_queued argv s n b q h.0 ∙ ap (λ k. queuing k b) (omega arith)) (omega arith) h.1
    ∙ ap (λ k. queuing k (b || has_queue_error es)) (omega arith)
run-tx (queue_error ∷ es) s n b q l h =
    run-tx es (step s queue_error) n true (step-error_queued s n b q) l h.1 ∙ ground arith

-- Behind a `MULTI`, commands that the session has no rule for are counted, each once and none as
-- applied, and a queue error, once noted, stays noted.
pub multi-run-tx :
    (s : SessionState) (argv : List (List ℕ)) (es : List Event)
    → verb_is begins_tx (command argv) ≡ true
    → commands es < 2 ^ 64
    → All (λ e. fills_queue e ≡ true) es
    → (run (step s (command argv)) es).tx ≡ queuing (commands es) (has_queue_error es)
multi-run-tx s argv es m l h =
    run-tx es (step s (command argv)) 0 false (step-multi s argv m) (omega arith) h
    ∙ ap (λ k. queuing k (has_queue_error es)) (omega arith)
