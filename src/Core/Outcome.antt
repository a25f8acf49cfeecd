-- ===== src/Core/Outcome.antt =====
-- crates/pr-core/src/outcome.rs: the four dimensions of a result, and the exit code.
--
-- A `String` and a `SafeText` are their bytes. `ServerError::parse` (lossy UTF-8 decoding) and
-- `Display` are not modelled. The vector inside `Partial` is the type `Outcomes`, and
-- `any_unknown`, `any_failed` are the two `any` over it.
pub mod Doubt
pub mod Success
mod Examples
use penguin_redis.Prelude.{ℕ, Bool, true, false, not, ◌||◌, List, if◌then◌else◌}

pub data Delivery : Type 0 where
  not_sent cancelled_before_send denied_by_policy sent unknown_after_send : Delivery

pub data EffectsCertainty : Type 0 where
  no_command_sent reply_observed condition_not_applied effects_possible : EffectsCertainty
  known_partial unacknowledged_by_mode : EffectsCertainty

pub data RenderStatus : Type 0 where
  not_rendered rendered : RenderStatus
  render_failed : List ℕ → RenderStatus
  truncated : ℕ → ℕ → RenderStatus

pub record ServerError : Type 0 where
  pub code : List ℕ
  pub message : List ℕ

mutual
  pub data Reply : Type 0 where
    none queued suppressed_by_reply_mode : Reply
    ok : ℕ → Reply
    error : ServerError → Reply
    partial : Outcomes → Reply

  -- `delivery`, `reply`, `effects`, `render`.
  pub data ExecutionOutcome : Type 0 where
    outcome : Delivery → Reply → EffectsCertainty → RenderStatus → ExecutionOutcome

  pub data Outcomes : Type 0 where
    nil : Outcomes
    cons : ExecutionOutcome → Outcomes → Outcomes

pub data ExitCode : Type 0 where
  success usage connection command_error policy_denied result_unknown : ExitCode
  partial_batch local_failure sent_unacknowledged cancelled : ExitCode

-- The discriminants of the `repr(u8)`.
unfoldable pub number : ExitCode → ℕ
number success = 0
number usage = 2
number connection = 3
number command_error = 4
number policy_denied = 5
number result_unknown = 6
number partial_batch = 7
number local_failure = 8
number sent_unacknowledged = 9
number cancelled = 130

abbrev pub nothing_sent : ExecutionOutcome
nothing_sent = outcome not_sent none no_command_sent not_rendered

unfoldable pub confirmed : ℕ → ExecutionOutcome
confirmed handle = outcome sent (ok handle) reply_observed rendered

-- `SessionState::queued_outcome` of crates/pr-core/src/session.rs.
abbrev pub queued_outcome : ExecutionOutcome
queued_outcome = outcome sent queued effects_possible rendered

unfoldable pub delivery : ExecutionOutcome → Delivery
delivery (outcome d r e v) = d

unfoldable pub reply : ExecutionOutcome → Reply
reply (outcome d r e v) = r

unfoldable pub effects : ExecutionOutcome → EffectsCertainty
effects (outcome d r e v) = e

unfoldable pub render : ExecutionOutcome → RenderStatus
render (outcome d r e v) = v

-- The `matches!` tests.
unfoldable pub is_unknown_after_send : Delivery → Bool
is_unknown_after_send unknown_after_send = true
is_unknown_after_send _ = false

unfoldable pub is_denied : Delivery → Bool
is_denied denied_by_policy = true
is_denied _ = false

unfoldable pub is_cancelled : Delivery → Bool
is_cancelled cancelled_before_send = true
is_cancelled _ = false

unfoldable pub may_have_effects : EffectsCertainty → Bool
may_have_effects effects_possible = true
may_have_effects known_partial = true
may_have_effects _ = false

unfoldable pub is_unacknowledged : EffectsCertainty → Bool
is_unacknowledged unacknowledged_by_mode = true
is_unacknowledged _ = false

unfoldable pub is_error : Reply → Bool
is_error (error e) = true
is_error _ = false

unfoldable pub is_suppressed : Reply → Bool
is_suppressed suppressed_by_reply_mode = true
is_suppressed _ = false

unfoldable pub is_render_failed : RenderStatus → Bool
is_render_failed (render_failed d) = true
is_render_failed _ = false

unfoldable pub is_result_unknown : ExitCode → Bool
is_result_unknown result_unknown = true
is_result_unknown _ = false

unfoldable pub is_success : ExitCode → Bool
is_success success = true
is_success _ = false

unfoldable pub is_uncertain : ExecutionOutcome → Bool
unfolding delivery effects is_unknown_after_send may_have_effects
is_uncertain o = is_unknown_after_send (delivery o) || may_have_effects (effects o)

-- The tests of `exit_code` behind the one for a composite reply.
unfoldable pub single_code : Delivery → Reply → EffectsCertainty → RenderStatus → ExitCode
unfolding may_have_effects is_denied is_error is_suppressed is_unacknowledged is_render_failed
    is_cancelled
single_code d r e v =
    if may_have_effects e
    then result_unknown
    else if is_denied d
    then policy_denied
    else if is_error r
    then command_error
    else if is_suppressed r || is_unacknowledged e
    then sent_unacknowledged
    else if is_render_failed v
    then local_failure
    else if is_cancelled d
    then cancelled
    else success

unfoldable mutual
  pub exit_code : ExecutionOutcome → ExitCode
  exit_code (outcome d (partial children) e v) =
      if is_unknown_after_send d
      then result_unknown
      else if any_unknown children
      then result_unknown
      else if any_failed children
      then partial_batch
      else success
  exit_code (outcome d r e v) =
      if is_unknown_after_send d then result_unknown else single_code d r e v

  pub any_unknown : Outcomes → Bool
  any_unknown nil = false
  any_unknown (cons o rest) = is_result_unknown (exit_code o) || any_unknown rest

  pub any_failed : Outcomes → Bool
  any_failed nil = false
  any_failed (cons o rest) = not (is_success (exit_code o)) || any_failed rest
