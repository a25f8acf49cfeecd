-- ===== src/Protocol/Streamer/Work.antt =====
-- The moves of the streamer (crates/pr-protocol/src/stream.rs), and the work that is left behind one.
use penguin_redis.Prelude.{
  ℕ, zero, suc, ◌+◌, ◌-◌, ◌*◌, ◌^◌, ◌≤◌, ◌<◌, ◌≡◌, inl, inr, Bool, true, false, not, ◌&&◌, Option,
  none, some, List, [], ◌∷◌, Result, ok, err, ltb, ◌==◌, if◌then◌else◌, length, min, drop, arith,
  length-append, Bool-cases,
}
use penguin_redis.Protocol.Value.{ℤ, pos, negsuc}
use penguin_redis.Protocol.Decoder.{Parsed, DecodeError, protocol, parse_i64}
use penguin_redis.Protocol.Decoder.Parsers.{Ext, same, refused, open_ended}
use penguin_redis.Protocol.Decoder.Stable.{Good-line}
use penguin_redis.Protocol.Reassembler.{Event}
use penguin_redis.Protocol.Streamer.{
  Streamer, at_value, Pending, emitted, starved, broken, Move, again, stop, close_top,
  close_completed, finish_value, taken, close_payload, emit_chunk, continue_payload, open_chunk,
  next_chunk, work,
}

-- A move that has fuel enough, and leaves less work than `w`.
pub data Less (w : ℕ) : Move → Type 0 where
  on : {s : Streamer} → work s < w → Less w (again s)
  out : {e : Event} {s : Streamer} → work s < w → Less w (stop (emitted e s))
  waits : {s : Streamer} → Less w (stop (starved s))
  breaks : {d : DecodeError} → Less w (stop (broken d))

pub Less-if : {w : ℕ} (c : Bool) {x y : Move} → Less w x → Less w y → Less w (if c then x else y)
Less-if true h k = h
Less-if false h k = k

pub Less-taken :
    {A : Type 0} {w n : ℕ} {m : List ℕ} {x y : Parsed A} (s : Streamer) (k : A → List ℕ → Move)
    → Ext n m x y
    → ((a : A) (r : List ℕ) → length r ≤ n → Less w (k a r))
    → Less w (taken s x k)
unfolding taken
Less-taken s k (same {a} {r} l) h = h a r l
Less-taken s k refused h = breaks
Less-taken s k open_ended h = waits

-- Closing what is complete queues an event for each level it takes, and one for the frame.
pub close_completed-length :
    (st : List Pending)
    → length (close_completed st).0 + length (close_completed st).1 ≤ suc (length st)
unfolding close_completed close_top
close_completed-length [] = omega arith
close_completed-length (p ∷ st) = by_remaining p.remaining (close_completed-length st)
  where
    by_remaining :
        (n : Option ℕ)
        → length (close_completed st).0 + length (close_completed st).1 ≤ suc (length st)
        → length (close_top p n st (close_completed st)).0
            + length (close_top p n st (close_completed st)).1
          ≤ suc (suc (length st))
    by_remaining none h = omega arith
    by_remaining (some zero) h = omega arith
    by_remaining (some (suc zero)) h = omega arith
    by_remaining (some (suc (suc n))) h = omega arith

pub Less-finish_value :
    (s : Streamer) (e : Event) (w : ℕ)
    → (4 * length s.buf + length s.queued) + length s.stack + 2 < w
    → Less w (again (finish_value s e))
unfolding finish_value
Less-finish_value s e w h = on (
    omega (
      arith,
      close_completed-length s.stack,
      length-append s.queued (e ∷ (close_completed s.stack).0),
    ))

Less-close_payload :
    (streamed : Bool) (s : Streamer) (b : List ℕ)
    → Less ((4 * length b + length s.queued) + length s.stack) (close_payload streamed s b)
unfolding close_payload
Less-close_payload streamed s [] = waits
Less-close_payload streamed s (c ∷ []) = waits
Less-close_payload streamed s (c ∷ d ∷ r) = Less-if (not (c == 13 && d == 10)) breaks (
    Less-if streamed (on (omega arith))
      (Less-finish_value (record s { buf = r; state = at_value }) _ _ (omega arith)))

drop-shorter : (n : ℕ) (b : List ℕ) → length (drop n b) + min n (length b) ≤ length b
drop-shorter zero b = omega arith
drop-shorter (suc n) [] = omega arith
drop-shorter (suc n) (c ∷ b) = omega (arith, drop-shorter n b)

Less-emit_chunk :
    (streamed : Bool) (s : Streamer) (n : ℕ) (b : List ℕ)
    → (n == 0) ≡ false
    → Less ((4 * length b + length s.queued) + length s.stack) (emit_chunk streamed s n b)
unfolding emit_chunk
Less-emit_chunk streamed s n [] h = waits
Less-emit_chunk streamed s zero (c ∷ b) h = absurd (ground arith)
Less-emit_chunk streamed s (suc n) (c ∷ b) h =
    out (omega (arith, drop-shorter (min (suc n) (length (c ∷ b))) (c ∷ b)))

pub Less-continue_payload :
    (streamed : Bool) (n : ℕ) (s : Streamer) → Less (work s) (continue_payload streamed n s)
unfolding continue_payload
Less-continue_payload streamed n s = elim (Bool-cases (n == 0)) [
  | inl at_end ↦ rw at_end (Less-close_payload streamed s s.buf)
  | inr within ↦ rw within (Less-emit_chunk streamed s n s.buf within)
]

Less-open_chunk :
    (s : Streamer) (n : ℕ) (r : List ℕ) (w : ℕ)
    → (4 * length r + length s.queued) + length s.stack + 2 < w
    → Less w (open_chunk s n r)
unfolding open_chunk
Less-open_chunk s n r w h =
    Less-if (ltb s.stream.max_streamed_bytes (min (s.streamed_so_far + n) (2 ^ 64 - 1))) breaks (
      Less-if (n == 0)
        (Less-finish_value
          (record s {
            buf = r;
            state = at_value;
            streamed_so_far = min (s.streamed_so_far + n) (2 ^ 64 - 1);
          })
          _ _ (omega arith))
        (on (omega arith)))

pub Less-next_chunk :
    (s : Streamer) (b : List ℕ)
    → Less ((4 * length b + length s.queued) + length s.stack) (next_chunk s b)
unfolding next_chunk
Less-next_chunk s [] = waits
Less-next_chunk s (c ∷ b) =
    Less-if (not (c == b';')) breaks
      (Less-taken s _ (Good-line b []) λ hdr r l. by_length (parse_i64 hdr) r l)
  where
    by_length :
        (x : Result {0, 0} DecodeError ℤ) (r : List ℕ)
        → length r ≤ length b
        → Less ((4 * length (c ∷ b) + length s.queued) + length s.stack) (elim x [
          | err e ↦ stop (broken e)
          | ok (negsuc n) ↦ stop (broken protocol)
          | ok (pos n) ↦ open_chunk s n r
        ])
    by_length (err e) r l = breaks
    by_length (ok (negsuc n)) r l = breaks
    by_length (ok (pos n)) r l = Less-open_chunk s n r _ (omega arith)
