-- ===== src/Core/Outcome/Doubt.antt =====
-- The exit code read against what is in doubt: a description of the outcome tree that does not
-- go through the code's order of tests.
use penguin_redis.Prelude.{◌≡◌, refl, ◌↔◌, ◌⊎◌, inl, inr, true, false, if◌then◌else◌, arith}
use penguin_redis.Core.Outcome.{
  Delivery, Reply, EffectsCertainty, RenderStatus, ExecutionOutcome, Outcomes, ExitCode, delivery,
  reply, effects, is_unknown_after_send, is_cancelled, may_have_effects, is_unacknowledged,
  is_error, is_result_unknown, is_uncertain, single_code, exit_code, any_unknown,
}
use penguin_redis.Core.Outcome.Delivery.{
  not_sent, cancelled_before_send, denied_by_policy, sent, unknown_after_send,
}
use penguin_redis.Core.Outcome.Reply.{none, queued, suppressed_by_reply_mode, ok, error, partial}
use penguin_redis.Core.Outcome.EffectsCertainty.{
  no_command_sent, reply_observed, condition_not_applied, effects_possible, known_partial,
  unacknowledged_by_mode,
}
use penguin_redis.Core.Outcome.Outcomes.{nil, cons}
use penguin_redis.Core.Outcome.ExecutionOutcome.{outcome}
use penguin_redis.Core.Outcome.ExitCode.{result_unknown, cancelled}

-- The effects are not settled.
pub data PartlyDone : EffectsCertainty → Type 0 where
  possible : PartlyDone effects_possible
  in_part : PartlyDone known_partial

-- What `exit_code` looks at: the delivery, the effects of a single command, and the children of a
-- composite.
unfoldable mutual
  pub InDoubt : ExecutionOutcome → Type 0
  InDoubt (outcome d (partial cs) e v) = (d ≡ unknown_after_send) ⊎ SomeInDoubt cs
  InDoubt (outcome d r e v) = (d ≡ unknown_after_send) ⊎ (may_have_effects e ≡ true)

  pub SomeInDoubt : Outcomes → Type 0
  SomeInDoubt nil = ⊥
  SomeInDoubt (cons o os) = InDoubt o ⊎ SomeInDoubt os

pub is_unknown_after_send_iff :
    (d : Delivery) → (is_unknown_after_send d ≡ true) ↔ (d ≡ unknown_after_send)
unfolding is_unknown_after_send
is_unknown_after_send_iff not_sent = grind arith
is_unknown_after_send_iff cancelled_before_send = grind arith
is_unknown_after_send_iff denied_by_policy = grind arith
is_unknown_after_send_iff sent = grind arith
is_unknown_after_send_iff unknown_after_send = grind arith

pub is_result_unknown_iff : (c : ExitCode) → (is_result_unknown c ≡ true) ↔ (c ≡ result_unknown)
unfolding is_result_unknown
is_result_unknown_iff c = ground arith

single_code-unknown :
    (d : Delivery) (r : Reply) (e : EffectsCertainty) (v : RenderStatus)
    → (single_code d r e v ≡ result_unknown) ↔ (may_have_effects e ≡ true)
unfolding single_code
single_code-unknown d r e v = ground arith

mutual
  unfolding exit_code InDoubt is_result_unknown is_unknown_after_send

  unknown_iff : (o : ExecutionOutcome) → (exit_code o ≡ result_unknown) ↔ InDoubt o
  unknown_iff (outcome d (partial cs) e v) =
      ground (arith, some_unknown_iff cs, is_unknown_after_send_iff d)
  unknown_iff (outcome d none e v) =
      ground (arith, single_code-unknown d none e v, is_unknown_after_send_iff d)
  unknown_iff (outcome d queued e v) =
      ground (arith, single_code-unknown d queued e v, is_unknown_after_send_iff d)
  unknown_iff (outcome d suppressed_by_reply_mode e v) =
      ground
        (arith, single_code-unknown d suppressed_by_reply_mode e v, is_unknown_after_send_iff d)
  unknown_iff (outcome d (ok h) e v) =
      ground (arith, single_code-unknown d (ok h) e v, is_unknown_after_send_iff d)
  unknown_iff (outcome d (error t) e v) =
      ground (arith, single_code-unknown d (error t) e v, is_unknown_after_send_iff d)

  some_unknown_iff : (cs : Outcomes) → (any_unknown cs ≡ true) ↔ SomeInDoubt cs
  some_unknown_iff nil = ground arith
  some_unknown_iff (cons o os) =
      ground (arith, unknown_iff o, some_unknown_iff os, is_result_unknown_iff (exit_code o))

-- An outcome is uncertain: it may have been lost behind the send, it may have had effects or had
-- some of them, or, at any depth, a child is uncertain.
unfoldable mutual
  pub Uncertain : ExecutionOutcome → Type 0
  Uncertain (outcome d (partial cs) e v) =
      (d ≡ unknown_after_send) ⊎ PartlyDone e ⊎ SomeUncertain cs
  Uncertain (outcome d r e v) = (d ≡ unknown_after_send) ⊎ PartlyDone e

  pub SomeUncertain : Outcomes → Type 0
  SomeUncertain nil = ⊥
  SomeUncertain (cons o os) = Uncertain o ⊎ SomeUncertain os

-- No composite, at any depth, has effects of its own that are uncertain.
unfoldable mutual
  pub Settled : ExecutionOutcome → Type 0
  Settled (outcome d (partial cs) e v) = (¬ PartlyDone e) × AllSettled cs
  Settled (outcome d r e v) = Unit

  pub AllSettled : Outcomes → Type 0
  AllSettled nil = Unit
  AllSettled (cons o os) = Settled o × AllSettled os

PartlyDone-iff : (e : EffectsCertainty) → (may_have_effects e ≡ true) ↔ PartlyDone e
unfolding may_have_effects
PartlyDone-iff no_command_sent = (λ h. absurd cc, λ p. elim p [ ])
PartlyDone-iff reply_observed = (λ h. absurd cc, λ p. elim p [ ])
PartlyDone-iff condition_not_applied = (λ h. absurd cc, λ p. elim p [ ])
PartlyDone-iff unacknowledged_by_mode = (λ h. absurd cc, λ p. elim p [ ])
PartlyDone-iff effects_possible = (λ h. possible, λ p. refl)
PartlyDone-iff known_partial = (λ h. in_part, λ p. refl)

mutual
  unfolding InDoubt Uncertain Settled

  InDoubt-Uncertain : (o : ExecutionOutcome) → Settled o → InDoubt o ↔ Uncertain o
  InDoubt-Uncertain (outcome d (partial cs) e v) s =
      ground (arith, SomeInDoubt-Uncertain cs s.1, s.0)
  InDoubt-Uncertain (outcome d none e v) s = ground (arith, PartlyDone-iff e)
  InDoubt-Uncertain (outcome d queued e v) s = ground (arith, PartlyDone-iff e)
  InDoubt-Uncertain (outcome d suppressed_by_reply_mode e v) s = ground (arith, PartlyDone-iff e)
  InDoubt-Uncertain (outcome d (ok h) e v) s = ground (arith, PartlyDone-iff e)
  InDoubt-Uncertain (outcome d (error t) e v) s = ground (arith, PartlyDone-iff e)

  SomeInDoubt-Uncertain : (cs : Outcomes) → AllSettled cs → SomeInDoubt cs ↔ SomeUncertain cs
  SomeInDoubt-Uncertain nil s = ground arith
  SomeInDoubt-Uncertain (cons o os) s =
      ground (arith, InDoubt-Uncertain o s.0, SomeInDoubt-Uncertain os s.1)

-- The exit code is "result unknown" exactly when something in the tree is uncertain: the delivery
-- or the effects of an outcome, at any depth. No composite, at any depth, has uncertain effects of
-- its own: `exit_code` does not look at those.
pub exit_code-unknown_iff :
    (o : ExecutionOutcome) → Settled o → (exit_code o ≡ result_unknown) ↔ Uncertain o
exit_code-unknown_iff o s = ground (arith, unknown_iff o, InDoubt-Uncertain o s)

-- What the code 130 promises.
pub record Harmless (o : ExecutionOutcome) : Type 0 where
  pub unsent : delivery o ≡ cancelled_before_send
  pub certain : is_uncertain o ≡ false
  pub no_error : is_error (reply o) ≡ false
  pub acknowledged : is_unacknowledged (effects o) ≡ false

single_code-cancelled :
    (d : Delivery) (r : Reply) (e : EffectsCertainty) (v : RenderStatus)
    → single_code d r e v ≡ cancelled
    → (d ≡ cancelled_before_send)
      × (may_have_effects e ≡ false)
      × (is_error r ≡ false)
      × (is_unacknowledged e ≡ false)
unfolding single_code is_cancelled is_unknown_after_send
single_code-cancelled cancelled_before_send r e v h = ground arith
single_code-cancelled not_sent r e v h = ground arith
single_code-cancelled denied_by_policy r e v h = ground arith
single_code-cancelled sent r e v h = ground arith
single_code-cancelled unknown_after_send r e v h = ground arith

harmless :
    (d : Delivery) (r : Reply) (e : EffectsCertainty) (v : RenderStatus)
    → (if is_unknown_after_send d then result_unknown else single_code d r e v) ≡ cancelled
    → Harmless (outcome d r e v)
unfolding is_uncertain delivery effects reply is_unknown_after_send
harmless d r e v h =
    let found : single_code d r e v ≡ cancelled = ground arith in
    let q = single_code-cancelled d r e v found in
    record { unsent = q.0; certain = ground arith; no_error = q.2; acknowledged = q.3 }

-- 130 is only used when the command was cancelled before any byte left, nothing about it is
-- uncertain or unacknowledged, and no error came back.
pub exit_code-cancelled : (o : ExecutionOutcome) → exit_code o ≡ cancelled → Harmless o
unfolding exit_code
exit_code-cancelled (outcome d (partial cs) e v) h = absurd (ground arith)
exit_code-cancelled (outcome d none e v) h = harmless d none e v h
exit_code-cancelled (outcome d queued e v) h = harmless d queued e v h
exit_code-cancelled (outcome d suppressed_by_reply_mode e v) h =
    harmless d suppressed_by_reply_mode e v h
exit_code-cancelled (outcome d (ok k) e v) h = harmless d (ok k) e v h
exit_code-cancelled (outcome d (error t) e v) h = harmless d (error t) e v h

unfoldable pub IsComposite : Reply → Type 0
IsComposite (partial cs) = Unit
IsComposite _ = ⊥

-- An uncertain command that is not composite always exits with "result unknown". (A composite
-- is judged by its children.)
pub exit_code-uncertain :
    (o : ExecutionOutcome)
    → is_uncertain o ≡ true
    → (exit_code o ≡ result_unknown) ⊎ IsComposite (reply o)
unfolding is_uncertain IsComposite exit_code single_code delivery effects reply
exit_code-uncertain (outcome d (partial cs) e v) h = inr tt
exit_code-uncertain (outcome d none e v) h = inl (ground arith)
exit_code-uncertain (outcome d queued e v) h = inl (ground arith)
exit_code-uncertain (outcome d suppressed_by_reply_mode e v) h = inl (ground arith)
exit_code-uncertain (outcome d (ok k) e v) h = inl (ground arith)
exit_code-uncertain (outcome d (error t) e v) h = inl (ground arith)
