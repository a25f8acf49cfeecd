-- ===== src/Core/Signal.antt =====
-- crates/pr-core/src/signal.rs: what an interrupt means.
pub mod Presses
mod Examples
use penguin_redis.Prelude.{ℕ, ◌+◌, Bool, true, false, leb, if◌then◌else◌, u64}

pub data Activity : Type 0 where
  editing idle unsent awaiting_reply blocked streaming batch : Activity

pub data Signal : Type 0 where
  interrupt ctrl_break : Signal

pub data Response : Type 0 where
  clear_input cancel_unsent stop_waiting close_request_session end_stream stop_issuing exit :
      Response

unfoldable pub leaves_effects_unknown : Response → Bool
leaves_effects_unknown stop_waiting = true
leaves_effects_unknown close_request_session = true
leaves_effects_unknown stop_issuing = true
leaves_effects_unknown _ = false

pub record Interrupts : Type 0 where
  pub consecutive_idle : ℕ

abbrev pub new : Interrupts
new = record { consecutive_idle = 0 }

unfoldable pub activity : Interrupts → Interrupts
activity s = record s { consecutive_idle = 0 }

-- `on` for `Signal::Interrupt`, with the counter it leaves behind.
unfoldable pub on_interrupt : Interrupts → Activity → Response × Interrupts
on_interrupt s idle =
    let n = u64 (s.consecutive_idle + 1) in
    (if leb 2 n then exit else clear_input, record s { consecutive_idle = n })
on_interrupt s editing = (clear_input, record s { consecutive_idle = 0 })
on_interrupt s unsent = (cancel_unsent, record s { consecutive_idle = 0 })
on_interrupt s awaiting_reply = (stop_waiting, record s { consecutive_idle = 0 })
on_interrupt s blocked = (close_request_session, record s { consecutive_idle = 0 })
on_interrupt s streaming = (end_stream, record s { consecutive_idle = 0 })
on_interrupt s batch = (stop_issuing, record s { consecutive_idle = 0 })

-- The second half of `Signal::Break`: whether the first half already left.
unfoldable pub again : Response × Interrupts → Response × Interrupts
again (exit, s) = (exit, s)
again (r, s) = on_interrupt s idle

unfoldable pub on : Interrupts → Signal → Activity → Response × Interrupts
unfolding on_interrupt again
on s interrupt a = on_interrupt s a
on s ctrl_break a = again (on_interrupt s a)
