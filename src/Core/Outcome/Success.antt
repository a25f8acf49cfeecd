-- ===== src/Core/Outcome/Success.antt =====
-- The exit code for success (crates/pr-core/src/outcome.rs), read against what went wrong.
use penguin_redis.Prelude.{◌≡◌, ◌≢◌, ◌↔◌, true, false, ◌||◌, if◌then◌else◌, arith}
use penguin_redis.Core.Outcome.{
  Delivery, Reply, EffectsCertainty, RenderStatus, ExecutionOutcome, Outcomes, ExitCode,
  is_unknown_after_send, is_denied, is_cancelled, may_have_effects, is_unacknowledged, is_error,
  is_suppressed, is_render_failed, is_result_unknown, is_success, single_code, exit_code,
  any_unknown, any_failed,
}
use penguin_redis.Core.Outcome.Delivery.{unknown_after_send}
use penguin_redis.Core.Outcome.Reply.{none, queued, suppressed_by_reply_mode, ok, error, partial}
use penguin_redis.Core.Outcome.Outcomes.{nil, cons}
use penguin_redis.Core.Outcome.ExecutionOutcome.{outcome}
use penguin_redis.Core.Outcome.ExitCode.{success, result_unknown}
use penguin_redis.Core.Outcome.Doubt.{is_unknown_after_send_iff, is_result_unknown_iff}

-- What an outcome has to be for the process to report success: for a composite, all its
-- children and the delivery; for a single command, every dimension.
unfoldable mutual
  pub Clear : ExecutionOutcome → Type 0
  Clear (outcome d (partial cs) e v) = (d ≢ unknown_after_send) × AllClear cs
  Clear (outcome d r e v) =
      ((is_unknown_after_send d || is_denied d || is_cancelled d) ≡ false)
      × ((may_have_effects e || is_unacknowledged e) ≡ false)
      × ((is_error r || is_suppressed r || is_render_failed v) ≡ false)

  pub AllClear : Outcomes → Type 0
  AllClear nil = Unit
  AllClear (cons o os) = Clear o × AllClear os

is_success_iff : (c : ExitCode) → (is_success c ≡ true) ↔ (c ≡ success)
unfolding is_success
is_success_iff c = ground arith

single_code-success :
    (d : Delivery) (r : Reply) (e : EffectsCertainty) (v : RenderStatus)
    → ((if is_unknown_after_send d then result_unknown else single_code d r e v) ≡ success) ↔ (
        ((is_unknown_after_send d || is_denied d || is_cancelled d) ≡ false)
        × ((may_have_effects e || is_unacknowledged e) ≡ false)
        × ((is_error r || is_suppressed r || is_render_failed v) ≡ false))
unfolding single_code
single_code-success d r e v = ground arith

mutual
  unfolding exit_code Clear is_success is_unknown_after_send is_result_unknown

  success_iff : (o : ExecutionOutcome) → (exit_code o ≡ success) ↔ Clear o
  success_iff (outcome d (partial cs) e v) =
      ground (arith, some_failed_iff cs, is_unknown_after_send_iff d)
  success_iff (outcome d none e v) = single_code-success d none e v
  success_iff (outcome d queued e v) = single_code-success d queued e v
  success_iff (outcome d suppressed_by_reply_mode e v) =
      single_code-success d suppressed_by_reply_mode e v
  success_iff (outcome d (ok h) e v) = single_code-success d (ok h) e v
  success_iff (outcome d (error t) e v) = single_code-success d (error t) e v

  some_failed_iff : (cs : Outcomes) → ((any_unknown cs || any_failed cs) ≡ false) ↔ AllClear cs
  some_failed_iff nil = ground arith
  some_failed_iff (cons o os) = ground (
    arith,
    success_iff o,
    some_failed_iff os,
    is_success_iff (exit_code o),
    is_result_unknown_iff (exit_code o),
  )

-- Success is reported exactly when nothing went wrong: for a single command, it was neither lost
-- nor denied nor cancelled, its effects are settled and acknowledged, the reply is no error and
-- is not suppressed, and rendering did not fail; for a composite, it was not lost, and the same
-- holds of every child, at every depth.
pub exit_code-success_iff : (o : ExecutionOutcome) → (exit_code o ≡ success) ↔ Clear o
exit_code-success_iff o = success_iff o
