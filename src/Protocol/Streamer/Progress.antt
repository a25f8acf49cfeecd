-- ===== src/Protocol/Streamer/Progress.antt =====
-- The work that is left behind a value that the streamer (crates/pr-protocol/src/stream.rs) begins,
-- and behind any of its moves.
use penguin_redis.Prelude.{
  ℕ, zero, suc, ◌+◌, ◌-◌, ◌*◌, ◌≤◌, ◌<◌, ◌≡◌, refl, true, false, not, ◌&&◌, ◌||◌, Option, none,
  some, List, [], ◌∷◌, Result, ok, err, ltb, leb, ◌==◌, length, arith, length-append,
}
use penguin_redis.Protocol.Value.{ℤ, pos, negsuc, null, null_bulk}
use penguin_redis.Protocol.Decoder.{
  DecodeError, protocol, budget, is_question, parse_len, parse_i64,
}
use penguin_redis.Protocol.Decoder.Stable.{Good-line, Hungry-parse_value}
use penguin_redis.Protocol.Reassembler.{AggKind, Event, ScalarKind}
use penguin_redis.Protocol.Streamer.{
  Streamer, State, at_value, chunk_header, payload_left, chunk_left, Pending, emitted, broken,
  again, stop, close_completed, finish_value, kind_of, is_attribute, children_of, open_children,
  open_counted, open_aggregate, take_whole, begin_scalar, begin_verbatim, open_sized, open_scalar,
  in_streamed, pop_pending, close_streamed, next_value, by_state, advance, work,
}
use penguin_redis.Protocol.Streamer.Work.{
  Less, on, out, waits, breaks, Less-if, Less-taken, close_completed-length, Less-finish_value,
  Less-continue_payload, Less-next_chunk,
}

-- What bounds the work behind the first byte of a value.
abbrev behind : Streamer → List ℕ → ℕ
behind s b = (4 * suc (length b) + length s.queued) + length s.stack

Less-open_children :
    (s : Streamer) (k : AggKind) (n c w : ℕ)
    → (4 * length s.buf + length s.queued) + length s.stack + 3 < w
    → Less w (again (open_children s k n c))
unfolding open_children
Less-open_children s k n zero w h = on (
    omega (
      arith,
      close_completed-length s.stack,
      length-append s.queued
          (Event.aggregate_begin k (some n) ∷ Event.aggregate_end ∷ (close_completed s.stack).0),
    ))
Less-open_children s k n (suc c) w h =
    on (omega (arith, length-append s.queued (Event.aggregate_begin k (some n) ∷ [])))

Less-open_counted :
    (s : Streamer) (k : AggKind) (x : Result {0, 0} DecodeError (Option ℕ)) (w : ℕ)
    → (4 * length s.buf + length s.queued) + length s.stack + 3 < w
    → Less w (open_counted s k x)
unfolding open_counted
Less-open_counted s k (err e) w h = breaks
Less-open_counted s k (ok none) w h =
    Less-if (is_attribute k) breaks (Less-finish_value s _ _ (omega arith))
Less-open_counted s k (ok (some n)) w h = by_children (children_of k n)
  where
    by_children :
        (x : Option ℕ)
        → Less w (elim x [ none ↦ stop (broken budget) | some c ↦ again (open_children s k n c) ])
    by_children none = breaks
    by_children (some c) = Less-open_children s k n c w h

Less-open_aggregate :
    (s : Streamer) (k : AggKind) (b : List ℕ) → Less (behind s b) (open_aggregate s k b)
unfolding open_aggregate
Less-open_aggregate s k b = Less-if (leb s.limits.max_depth (length s.stack)) breaks (
    Less-taken s _ (Good-line b []) λ hdr r l.
      Less-if (is_question hdr) (Less-if (is_attribute k) breaks (out (omega arith))) (
        Less-open_counted (record s { buf = r }) k (parse_len s.limits.max_elements hdr) _
          (omega arith)))

Less-take_whole :
    (s : Streamer) (tag : ℕ) (b : List ℕ) → s.buf ≡ tag ∷ b → Less (behind s b) (take_whole s)
unfolding take_whole
Less-take_whole s tag b e = rw e (
    Less-taken (record s { buf = tag ∷ b }) _
      (Hungry-parse_value s.limits (s.limits.max_depth - length s.stack) tag b [])
      λ v r l. Less-finish_value (record s { buf = r }) _ _ (omega arith))

Less-begin_scalar :
    (s : Streamer) (k : ScalarKind) (n : ℕ) (r : List ℕ) (w : ℕ)
    → (4 * length r + length s.queued) + length s.stack < w
    → Less w (begin_scalar s k n r)
unfolding begin_scalar
Less-begin_scalar s k n r w h = out h

Less-begin_verbatim :
    (s : Streamer) (n : ℕ) (r : List ℕ) (w : ℕ)
    → (4 * length r + length s.queued) + length s.stack < w
    → Less w (begin_verbatim s n r)
unfolding begin_verbatim
Less-begin_verbatim s n [] w h = waits
Less-begin_verbatim s n (x ∷ []) w h = waits
Less-begin_verbatim s n (x ∷ y ∷ []) w h = waits
Less-begin_verbatim s n (x ∷ y ∷ z ∷ []) w h = waits
Less-begin_verbatim s n (x ∷ y ∷ z ∷ c ∷ r) w h =
    Less-if (not (c == b':')) breaks (Less-begin_scalar s _ (n - 4) r w (omega arith))

Less-open_sized :
    (s : Streamer) (tag n : ℕ) (b r : List ℕ)
    → s.buf ≡ tag ∷ b
    → length r ≤ length b
    → Less (behind s b) (open_sized s tag n r)
unfolding open_sized
Less-open_sized s tag n b r e l = Less-if (ltb s.stream.max_streamed_bytes n) breaks (
    Less-if (ltb n s.stream.stream_above) (Less-take_whole s tag b e) (
      Less-if (tag == b'$') (Less-begin_scalar s _ n r _ (omega arith)) (
        Less-if (tag == b'!') (Less-begin_scalar s _ n r _ (omega arith))
          (Less-if (ltb n 4) breaks (Less-begin_verbatim s n r _ (omega arith))))))

Less-open_scalar :
    (s : Streamer) (tag : ℕ) (b : List ℕ)
    → s.buf ≡ tag ∷ b
    → Less (behind s b) (open_scalar s tag b)
unfolding open_scalar
Less-open_scalar s tag b e = Less-taken s _ (Good-line b []) λ hdr r l.
    Less-if (tag == b'$' && is_question hdr) (out (omega arith)) (by_length (parse_i64 hdr) r l)
  where
    by_length :
        (x : Result {0, 0} DecodeError ℤ) (r : List ℕ)
        → length r ≤ length b
        → Less (behind s b) (elim x [
          | err e ↦ stop (broken e)
          | ok (negsuc zero) ↦
              again (finish_value (record s { buf = r }) (Event.whole (null null_bulk)))
          | ok (negsuc (suc n)) ↦ stop (broken protocol)
          | ok (pos n) ↦ open_sized s tag n r
        ])
    by_length (err e) r l = breaks
    by_length (ok (negsuc zero)) r l = Less-finish_value (record s { buf = r }) _ _ (omega arith)
    by_length (ok (negsuc (suc n))) r l = breaks
    by_length (ok (pos n)) r l = Less-open_sized s tag n b r e l

pub pop_pending-shorter : (st : List Pending) → length (pop_pending st) ≤ length st
unfolding pop_pending
pop_pending-shorter [] = omega arith
pop_pending-shorter (p ∷ st) = omega arith

Less-close_streamed : (s : Streamer) (b : List ℕ) → Less (behind s b) (close_streamed s b)
unfolding close_streamed
Less-close_streamed s b = Less-taken s _ (Good-line b []) λ rest r l.
    Less-if (not (leb (length rest) 0)) breaks (
      on (
        omega (
          arith,
          close_completed-length (pop_pending s.stack),
          pop_pending-shorter s.stack,
          length-append s.queued (Event.aggregate_end ∷ (close_completed (pop_pending s.stack)).0),
        )))

Less-next_value :
    (s : Streamer) (b : List ℕ)
    → s.buf ≡ b
    → Less ((4 * length b + length s.queued) + length s.stack) (next_value s b)
unfolding next_value
Less-next_value s [] e = waits
Less-next_value s (tag ∷ b) e =
    Less-if (tag == b'.' && in_streamed s.stack) (Less-close_streamed s b) (
      Less-if (tag == b'*' || tag == b'~' || tag == b'>' || tag == b'%' || tag == b'|')
        (Less-open_aggregate s (kind_of tag) b)
        (Less-if (tag == b'$' || tag == b'!' || tag == b'=') (Less-open_scalar s tag b e)
          (Less-take_whole s tag b e)))

Less-by_state : (st : State) (s : Streamer) → Less (work s) (by_state st s)
unfolding by_state
Less-by_state at_value s = Less-next_value s s.buf refl
Less-by_state chunk_header s = Less-next_chunk s s.buf
Less-by_state (payload_left n) s = Less-continue_payload false n s
Less-by_state (chunk_left n) s = Less-continue_payload true n s

-- Every move of the streamer leaves less work than there was, or ends the call with an answer.
pub advance-Less : (s : Streamer) → Less (work s) (advance s)
unfolding advance
advance-Less s = by_queued s.queued refl
  where
    by_queued :
        (q : List Event)
        → s.queued ≡ q
        → Less (work s) (elim q [
          | e ∷ q' ↦ stop (emitted e (record s { queued = q' }))
          | [] ↦ by_state s.state s
        ])
    by_queued [] e = Less-by_state s.state s
    by_queued (e' ∷ q) e = out (rw e (omega arith))
