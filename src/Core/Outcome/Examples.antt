-- ===== src/Core/Outcome/Examples.antt =====
-- Outcomes, and the witnesses of the results on them.
use penguin_redis.Prelude.{◌≡◌, refl, ◌↔◌, true}
use penguin_redis.Core.Outcome.{
  ExecutionOutcome, exit_code, is_uncertain, confirmed, single_code, is_unknown_after_send,
  is_result_unknown, is_success,
}
use penguin_redis.Core.Outcome.Delivery.{cancelled_before_send, sent, unknown_after_send}
use penguin_redis.Core.Outcome.Reply.{none, partial}
use penguin_redis.Core.Outcome.EffectsCertainty.{no_command_sent, reply_observed, known_partial}
use penguin_redis.Core.Outcome.RenderStatus.{not_rendered, rendered}
use penguin_redis.Core.Outcome.ExecutionOutcome.{outcome}
use penguin_redis.Core.Outcome.Outcomes.{nil, cons}
use penguin_redis.Core.Outcome.ExitCode.{success, result_unknown}
use penguin_redis.Core.Outcome.Doubt.{Uncertain, Settled, exit_code-unknown_iff}

-- A batch whose second command was lost.
abbrev batch : ExecutionOutcome
batch =
    outcome sent
      (partial (
        cons (confirmed 1) (cons (outcome unknown_after_send none known_partial not_rendered) nil)))
      reply_observed rendered

batch_code : exit_code batch ≡ result_unknown
unfolding exit_code confirmed single_code is_unknown_after_send is_result_unknown is_success
batch_code = refl

-- A composite is judged by its children alone: its own effects do not count.
settled_children :
    exit_code (outcome sent (partial (cons (confirmed 1) nil)) known_partial rendered) ≡ success
unfolding exit_code confirmed single_code is_unknown_after_send is_result_unknown is_success
settled_children = refl

settled_children_uncertain :
    is_uncertain (outcome sent (partial (cons (confirmed 1) nil)) known_partial rendered) ≡ true
unfolding is_uncertain
settled_children_uncertain = refl

exit_code-unknown_iff_example : (exit_code batch ≡ result_unknown) ↔ Uncertain batch
unfolding Settled confirmed
exit_code-unknown_iff_example = exit_code-unknown_iff batch (λ p. elim p [ ], (tt, (tt, tt)))

abbrev dropped : ExecutionOutcome
dropped = outcome cancelled_before_send none no_command_sent not_rendered
