-- ===== src/Core/Signal/Presses.antt =====
-- Runs of interrupts.
use penguin_redis.Prelude.{
  ℕ, ◌+◌, ◌<◌, ◌≤◌, ◌^◌, ◌≡◌, refl, ◌↔◌, Bool, true, false, List, [], ◌∷◌, arith, leb,
  if◌then◌else◌, u64,
}
use penguin_redis.Core.Signal.{
  Activity, Signal, Interrupts, activity, on_interrupt, again, on, leaves_effects_unknown,
}
use penguin_redis.Core.Signal.Activity.{
  editing, idle, unsent, awaiting_reply, blocked, streaming, batch,
}
use penguin_redis.Core.Signal.Signal.{interrupt, ctrl_break}
use penguin_redis.Core.Signal.Response.{exit, clear_input}

-- What happens to the counter: an interrupt, or something else the user does.
pub data Event : Type 0 where
  press : Signal → Activity → Event
  other : Event

unfoldable pub after : Interrupts → Event → Interrupts
after s (press g a) = (on s g a).1
after s other = activity s

unfoldable pub after_all : Interrupts → List Event → Interrupts
unfolding after
after_all s [] = s
after_all s (e ∷ es) = after_all (after s e) es

-- The events end with an interrupt at an idle prompt, or with Ctrl+Break anywhere.
unfoldable pub ends_idle : Event → Bool
ends_idle (press interrupt idle) = true
ends_idle (press ctrl_break a) = true
ends_idle _ = false

unfoldable pub is_fresh : Interrupts → Bool
is_fresh s = leb s.consecutive_idle 0

-- The counter after one event: at least one after an interrupt at an idle prompt, else nothing.
break_idle :
    (s : Interrupts) (b : Bool) (n : ℕ)
    → leb 2 n ≡ b
    → n ≡ s.consecutive_idle + 1
    → n + 1 < 2 ^ 64
    → ((1
          ≤ (again (
            if b then exit else clear_input,
            record s { consecutive_idle = n },
          )).1.consecutive_idle)
        ↔ (true ≡ true))
      × ((again
            (if b then exit else clear_input, record s { consecutive_idle = n })).1.consecutive_idle
          ≤ s.consecutive_idle + 2)
unfolding again on_interrupt
break_idle s true n e h l = ground arith
break_idle s false n e h l = ground arith

after-count :
    (s : Interrupts) (e : Event)
    → s.consecutive_idle + 2 < 2 ^ 64
    → ((1 ≤ (after s e).consecutive_idle) ↔ (ends_idle e ≡ true))
      × ((after s e).consecutive_idle ≤ s.consecutive_idle + 2)
unfolding on on_interrupt again after ends_idle activity
after-count s other h = ground arith
after-count s (press interrupt editing) h = ground arith
after-count s (press interrupt idle) h = ground arith
after-count s (press interrupt unsent) h = ground arith
after-count s (press interrupt awaiting_reply) h = ground arith
after-count s (press interrupt blocked) h = ground arith
after-count s (press interrupt streaming) h = ground arith
after-count s (press interrupt batch) h = ground arith
after-count s (press ctrl_break editing) h = ground arith
after-count s (press ctrl_break idle) h =
    break_idle s (leb 2 (u64 (s.consecutive_idle + 1))) (u64 (s.consecutive_idle + 1)) refl
      (omega arith) (omega arith)
after-count s (press ctrl_break unsent) h = ground arith
after-count s (press ctrl_break awaiting_reply) h = ground arith
after-count s (press ctrl_break blocked) h = ground arith
after-count s (press ctrl_break streaming) h = ground arith
after-count s (press ctrl_break batch) h = ground arith

exit_interrupt :
    (s : Interrupts) (a : Activity)
    → s.consecutive_idle + 1 < 2 ^ 64
    → ((on_interrupt s a).0 ≡ exit) ↔ ((a ≡ idle) × (1 ≤ s.consecutive_idle))
unfolding on_interrupt
exit_interrupt s editing h = ground arith
exit_interrupt s idle h = ground arith
exit_interrupt s unsent h = ground arith
exit_interrupt s awaiting_reply h = ground arith
exit_interrupt s blocked h = ground arith
exit_interrupt s streaming h = ground arith
exit_interrupt s batch h = ground arith

-- One interrupt leaves exactly when it arrives at an idle prompt straight after another one that
-- did (or after Ctrl+Break), while the counter stays below the word's limit. An event that is
-- neither starts the count again.
pub exit_iff :
    (s : Interrupts) (before : Event) (a : Activity)
    → s.consecutive_idle + 3 < 2 ^ 64
    → ((on (after s before) interrupt a).0 ≡ exit) ↔ ((a ≡ idle) × (ends_idle before ≡ true))
unfolding on on_interrupt again after ends_idle activity
exit_iff s before a h =
    let count = after-count s before (omega arith) in
    ground (arith, count, exit_interrupt (after s before) a (omega (arith, count.1)))

-- Ctrl+Break while a request is on the wire, blocked or part of a batch answers "clear the
-- input", which says that no effects are unknown, where one Ctrl+C says that they are.
pub break_in_flight :
    (s : Interrupts) (a : Activity)
    → leaves_effects_unknown (on s interrupt a).0 ≡ true
    → ((on s ctrl_break a).0 ≡ clear_input) × (leaves_effects_unknown (on s ctrl_break a).0 ≡ false)
unfolding on on_interrupt again leaves_effects_unknown
break_in_flight s editing h = absurd (ground arith)
break_in_flight s idle h = absurd (ground arith)
break_in_flight s unsent h = absurd (ground arith)
break_in_flight s awaiting_reply h = ground arith
break_in_flight s blocked h = ground arith
break_in_flight s streaming h = absurd (ground arith)
break_in_flight s batch h = ground arith
