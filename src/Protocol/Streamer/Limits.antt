-- ===== src/Protocol/Streamer/Limits.antt =====
-- The limits of the streamer (crates/pr-protocol/src/stream.rs), kept by each of its moves.
use penguin_redis.Prelude.{
  ℕ, zero, suc, ◌+◌, ◌-◌, ◌^◌, min, ◌≤◌, ◌≡◌, refl, Bool, true, false, not, ◌&&◌, Option, none,
  some, List, [], ◌∷◌, ltb, ◌==◌, if◌then◌else◌, length, arith,
}
use penguin_redis.Protocol.Decoder.{Parsed, DecodeError, done, need_more, out_of_fuel, failed}
use penguin_redis.Protocol.Reassembler.{Event, scalar_end}
use penguin_redis.Protocol.Streamer.{
  Streamer, State, at_value, chunk_header, payload_left, chunk_left, Pending, emitted, starved,
  exhausted, broken, Move, again, stop, close_top, close_completed, finish_value, taken,
  close_payload, left_over, emit_chunk, continue_payload, open_chunk,
}

-- How much of a payload is to come.
unfoldable pub to_come : State → ℕ
to_come at_value = 0
to_come chunk_header = 0
to_come (payload_left n) = n
to_come (chunk_left n) = n

-- No more aggregates open than the budget has levels, and no more bytes promised or counted than
-- the stream budget has.
abbrev pub Held : Streamer → Type 0
Held s =
    (length s.stack ≤ s.limits.max_depth)
    × (to_come s.state ≤ s.stream.max_streamed_bytes)
    × (s.streamed_so_far ≤ s.stream.max_streamed_bytes)

-- The same budgets, and their limits kept.
abbrev pub Holds : Streamer → Streamer → Type 0
Holds s s' = (s'.limits ≡ s.limits) × (s'.stream ≡ s.stream) × Held s'

-- A move, or the event or the wait behind one, to a streamer within the limits.
pub data Keeps (s : Streamer) : Move → Type 0 where
  on : {s' : Streamer} → Holds s s' → Keeps s (again s')
  out : {e : Event} {s' : Streamer} → Holds s s' → Keeps s (stop (emitted e s'))
  waits : {s' : Streamer} → Holds s s' → Keeps s (stop (starved s'))
  tires : Keeps s (stop exhausted)
  breaks : {d : DecodeError} → Keeps s (stop (broken d))

pub Keeps-if :
    {s : Streamer} (c : Bool) {x y : Move}
    → (c ≡ true → Keeps s x)
    → (c ≡ false → Keeps s y)
    → Keeps s (if c then x else y)
Keeps-if true h k = h refl
Keeps-if false h k = k refl

pub Keeps-taken :
    {A : Type 0} {s : Streamer} (s' : Streamer) (x : Parsed A) (k : A → List ℕ → Move)
    → Holds s s'
    → ((a : A) (r : List ℕ) → Keeps s (k a r))
    → Keeps s (taken s' x k)
unfolding taken
Keeps-taken s' (done a r) k w h = h a r
Keeps-taken s' need_more k w h = waits w
Keeps-taken s' out_of_fuel k w h = tires
Keeps-taken s' (failed d) k w h = breaks

pub close_completed-shorter : (st : List Pending) → length (close_completed st).1 ≤ length st
unfolding close_completed close_top
close_completed-shorter [] = omega arith
close_completed-shorter (p ∷ st) = by_remaining p.remaining (close_completed-shorter st)
  where
    by_remaining :
        (n : Option ℕ)
        → length (close_completed st).1 ≤ length st
        → length (close_top p n st (close_completed st)).1 ≤ suc (length st)
    by_remaining none h = omega arith
    by_remaining (some zero) h = omega arith
    by_remaining (some (suc zero)) h = omega arith
    by_remaining (some (suc (suc n))) h = omega arith

-- A value that is finished, and the state between values or in the one that was being read.
pub finish_value-Holds : (s : Streamer) (e : Event) → Held s → Holds s (finish_value s e)
unfolding finish_value
finish_value-Holds s e h =
    (refl, refl, (let shorter = close_completed-shorter s.stack in omega arith, h.1, h.2))

Keeps-close_payload :
    (streamed : Bool) (s : Streamer) (b : List ℕ) → Held s → Keeps s (close_payload streamed s b)
unfolding close_payload to_come
Keeps-close_payload streamed s [] h = waits (refl, refl, h)
Keeps-close_payload streamed s (c ∷ []) h = waits (refl, refl, h)
Keeps-close_payload streamed s (c ∷ d ∷ r) h =
    Keeps-if (not (c == 13 && d == 10)) (λ t. breaks)
      λ t.
        Keeps-if streamed (λ u. on (refl, refl, (h.0, omega arith, h.2)))
          (λ u. on (
            finish_value-Holds (record s { buf = r; state = at_value }) scalar_end
              (h.0, omega arith, h.2)))

to_come-left_over : (streamed : Bool) (n : ℕ) → to_come (left_over streamed n) ≡ n
unfolding to_come left_over
to_come-left_over true n = refl
to_come-left_over false n = refl

Keeps-emit_chunk :
    (streamed : Bool) (s : Streamer) (n : ℕ) (b : List ℕ)
    → n ≤ s.stream.max_streamed_bytes
    → Held s
    → Keeps s (emit_chunk streamed s n b)
unfolding emit_chunk
Keeps-emit_chunk streamed s n [] l h = waits (refl, refl, h)
Keeps-emit_chunk streamed s n (c ∷ b) l h = out (
  refl,
  refl,
  (h.0, (let same = to_come-left_over streamed (n - min n (length (c ∷ b))) in omega arith), h.2),
)

pub Keeps-continue_payload :
    (streamed : Bool) (n : ℕ) (s : Streamer)
    → n ≤ s.stream.max_streamed_bytes
    → Held s
    → Keeps s (continue_payload streamed n s)
unfolding continue_payload
Keeps-continue_payload streamed n s l h =
    Keeps-if (n == 0) (λ t. Keeps-close_payload streamed s s.buf h)
      (λ t. Keeps-emit_chunk streamed s n s.buf l h)

pub Keeps-open_chunk :
    (s : Streamer) (n : ℕ) (r : List ℕ) → n ≤ 2 ^ 64 - 1 → Held s → Keeps s (open_chunk s n r)
unfolding open_chunk to_come
Keeps-open_chunk s n r w h =
    Keeps-if (ltb s.stream.max_streamed_bytes total) (λ t. breaks)
      λ t.
        Keeps-if (n == 0)
          (λ u. on (
            finish_value-Holds (record s { buf = r; state = at_value; streamed_so_far = total })
              scalar_end (h.0, omega arith, ground arith)))
          (λ u. on (refl, refl, (h.0, ground arith, ground arith)))
  where
    total : ℕ
    total = min (s.streamed_so_far + n) (2 ^ 64 - 1)
