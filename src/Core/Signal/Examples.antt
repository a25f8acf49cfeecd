-- ===== src/Core/Signal/Examples.antt =====
-- Two presses, and the witnesses of the results on interrupts.
use penguin_redis.Prelude.{◌≡◌, refl, ◌↔◌, true, false, arith}
use penguin_redis.Core.Signal.{on, new, leaves_effects_unknown}
use penguin_redis.Core.Signal.Activity.{idle, awaiting_reply, editing}
use penguin_redis.Core.Signal.Signal.{interrupt, ctrl_break}
use penguin_redis.Core.Signal.Response.{exit, clear_input}
use penguin_redis.Core.Signal.Presses.{press, after, ends_idle, exit_iff, break_in_flight}

two_presses : (on (after new (press interrupt idle)) interrupt idle).0 ≡ exit
unfolding on after
two_presses = refl

break_leaves : (on new ctrl_break idle).0 ≡ exit
unfolding on
break_leaves = refl

exit_iff_example :
    ((on (after new (press ctrl_break editing)) interrupt idle).0 ≡ exit)
    ↔ ((idle ≡ idle) × (ends_idle (press ctrl_break editing) ≡ true))
exit_iff_example = exit_iff new (press ctrl_break editing) idle (omega arith)

break_in_flight_example :
    ((on new ctrl_break awaiting_reply).0 ≡ clear_input)
    × (leaves_effects_unknown (on new ctrl_break awaiting_reply).0 ≡ false)
unfolding on leaves_effects_unknown
break_in_flight_example = break_in_flight new awaiting_reply refl
