-- ===== src/Protocol/Streamer/Kept.antt =====
-- Every move of the streamer (crates/pr-protocol/src/stream.rs), and its limits.
use penguin_redis.Prelude.{
  ℕ, zero, suc, ◌-◌, ◌^◌, ◌≤◌, ◌≡◌, refl, true, false, not, ◌&&◌, ◌||◌, Option, none, some, List,
  [], ◌∷◌, Result, ok, err, ltb, leb, ◌==◌, length, arith, digits,
}
use penguin_redis.Protocol.Value.{ℤ, pos, negsuc, null, null_bulk, null_array}
use penguin_redis.Protocol.Decoder.{
  DecodeError, protocol, budget, line, is_question, parse_len, parse_i64, parse_value,
}
use penguin_redis.Protocol.Scalars.{in_range, negate}
use penguin_redis.Protocol.Streamer.Inversions.{Chose, yes, no, if-Chose}
use penguin_redis.Protocol.Reassembler.{AggKind, Event, whole, ScalarKind}
use penguin_redis.Protocol.Streamer.{
  Streamer, State, at_value, chunk_header, payload_left, chunk_left, emitted, broken, again, stop,
  finish_value, open_chunk, next_chunk, kind_of, is_attribute, children_of, open_children,
  open_counted, open_aggregate, take_whole, begin_scalar, begin_verbatim, open_sized, open_scalar,
  in_streamed, pop_pending, close_streamed, next_value, by_state, advance,
}
use penguin_redis.Protocol.Streamer.Progress.{pop_pending-shorter}
use penguin_redis.Protocol.Streamer.Limits.{
  to_come, Held, Holds, Keeps, on, out, waits, breaks, Keeps-if, Keeps-taken,
  close_completed-shorter, finish_value-Holds, Keeps-continue_payload, Keeps-open_chunk,
}

-- A number that `parse_i64` reads fits into 64 bits.
in_range-fits :
    (bound : ℕ) (x : Option ℕ) (n : ℕ)
    → bound ≤ 2 ^ 63 - 1
    → in_range bound pos x ≡ ok (pos n)
    → n ≤ 2 ^ 64 - 1
unfolding in_range
in_range-fits bound none n h e = absurd cc
in_range-fits bound (some k) n h e = ground arith

negate-fits : (x : Option ℕ) (n : ℕ) → in_range (2 ^ 63) negate x ≡ ok (pos n) → n ≤ 2 ^ 64 - 1
unfolding in_range negate
negate-fits none n e = absurd cc
negate-fits (some zero) n e = ground arith
negate-fits (some (suc k)) n e = ground arith

parse_i64-fits : (hdr : List ℕ) (n : ℕ) → parse_i64 hdr ≡ ok (pos n) → n ≤ 2 ^ 64 - 1
unfolding parse_i64
parse_i64-fits [] n e = absurd cc
parse_i64-fits (c ∷ []) n e = by_sign (if-Chose (c == b'-') e)
  where
    by_sign :
        Chose
          (c == b'-')
          (err protocol)
          (in_range (2 ^ 63 - 1) pos (digits 0 (c ∷ [])))
          (ok (pos n))
        → n ≤ 2 ^ 64 - 1
    by_sign (yes t g) = absurd cc
    by_sign (no t g) = in_range-fits (2 ^ 63 - 1) (digits 0 (c ∷ [])) n (omega arith) g
parse_i64-fits (c ∷ d ∷ ds) n e = by_sign (if-Chose (c == b'-') e)
  where
    by_sign :
        Chose
          (c == b'-')
          (in_range (2 ^ 63) negate (digits 0 (d ∷ ds)))
          (in_range (2 ^ 63 - 1) pos (digits 0 (c ∷ d ∷ ds)))
          (ok (pos n))
        → n ≤ 2 ^ 64 - 1
    by_sign (yes t g) = negate-fits (digits 0 (d ∷ ds)) n g
    by_sign (no t g) = in_range-fits (2 ^ 63 - 1) (digits 0 (c ∷ d ∷ ds)) n (omega arith) g

Keeps-next_chunk : (s : Streamer) (b : List ℕ) → Held s → Keeps s (next_chunk s b)
unfolding next_chunk
Keeps-next_chunk s [] h = waits (refl, refl, h)
Keeps-next_chunk s (c ∷ b) h =
    Keeps-if (not (c == b';')) (λ t. breaks)
      λ t.
        Keeps-taken s (line b) _ (refl, refl, h)
          λ hdr r. by_length r (parse_i64 hdr) (λ n. parse_i64-fits hdr n)
  where
    by_length :
        (r : List ℕ) (x : Result {0, 0} DecodeError ℤ)
        → ((n : ℕ) → x ≡ ok (pos n) → n ≤ 2 ^ 64 - 1)
        → Keeps s (elim x [
          | err e ↦ stop (broken e)
          | ok (negsuc n) ↦ stop (broken protocol)
          | ok (pos n) ↦ open_chunk s n r
        ])
    by_length r (err e) k = breaks
    by_length r (ok (negsuc n)) k = breaks
    by_length r (ok (pos n)) k = Keeps-open_chunk s n r (k n refl) h

Keeps-open_counted :
    (s : Streamer) (k : AggKind) (r : List ℕ) (x : Result {0, 0} DecodeError (Option ℕ))
    → leb s.limits.max_depth (length s.stack) ≡ false
    → Held s
    → Keeps s (open_counted (record s { buf = r }) k x)
unfolding open_counted open_children
Keeps-open_counted s k r (err e) l h = breaks
Keeps-open_counted s k r (ok none) l h =
    Keeps-if (is_attribute k) (λ t. breaks)
      (λ t. on (finish_value-Holds (record s { buf = r }) (whole (null null_array)) h))
Keeps-open_counted s k r (ok (some n)) l h = by_children (children_of k n)
  where
    opened : (c : ℕ) → Holds s (open_children (record s { buf = r }) k n c)
    opened zero =
        (refl, refl, ((let shorter = close_completed-shorter s.stack in omega arith), h.1, h.2))
    opened (suc c) = (refl, refl, (ground arith, h.1, h.2))

    by_children :
        (x : Option ℕ)
        → Keeps s (elim x [
          | none ↦ stop (broken budget)
          | some c ↦ again (open_children (record s { buf = r }) k n c)
        ])
    by_children none = breaks
    by_children (some c) = on (opened c)

Keeps-open_aggregate :
    (s : Streamer) (k : AggKind) (b : List ℕ) → Held s → Keeps s (open_aggregate s k b)
unfolding open_aggregate
Keeps-open_aggregate s k b h =
    Keeps-if (leb s.limits.max_depth (length s.stack)) (λ t. breaks)
      λ t.
        Keeps-taken s (line b) _ (refl, refl, h)
          λ hdr r.
            Keeps-if (is_question hdr)
              (λ q.
                Keeps-if (is_attribute k) (λ a. breaks)
                  (λ a. out (refl, refl, (ground arith, h.1, h.2))))
              (λ q. Keeps-open_counted s k r (parse_len s.limits.max_elements hdr) t h)

Keeps-take_whole : (s : Streamer) → Held s → Keeps s (take_whole s)
unfolding take_whole
Keeps-take_whole s h =
    Keeps-taken s (parse_value s.limits (s.limits.max_depth - length s.stack) s.buf) _
      (refl, refl, h) λ v r. on (finish_value-Holds (record s { buf = r }) (whole v) h)

Keeps-begin_scalar :
    (s : Streamer) (k : ScalarKind) (n : ℕ) (r : List ℕ)
    → n ≤ s.stream.max_streamed_bytes
    → Held s
    → Keeps s (begin_scalar s k n r)
unfolding begin_scalar to_come
Keeps-begin_scalar s k n r l h = out (refl, refl, (h.0, l, h.2))

Keeps-begin_verbatim :
    (s : Streamer) (n : ℕ) (r : List ℕ)
    → n ≤ s.stream.max_streamed_bytes
    → Held s
    → Keeps s (begin_verbatim s n r)
unfolding begin_verbatim
Keeps-begin_verbatim s n (x ∷ y ∷ z ∷ c ∷ r) l h =
    Keeps-if (not (c == b':')) (λ t. breaks) (λ t. Keeps-begin_scalar s _ (n - 4) r (omega arith) h)
Keeps-begin_verbatim s n [] l h = waits (refl, refl, h)
Keeps-begin_verbatim s n (x ∷ []) l h = waits (refl, refl, h)
Keeps-begin_verbatim s n (x ∷ y ∷ []) l h = waits (refl, refl, h)
Keeps-begin_verbatim s n (x ∷ y ∷ z ∷ []) l h = waits (refl, refl, h)

Keeps-open_sized : (s : Streamer) (tag n : ℕ) (r : List ℕ) → Held s → Keeps s (open_sized s tag n r)
unfolding open_sized
Keeps-open_sized s tag n r h =
    Keeps-if (ltb s.stream.max_streamed_bytes n) (λ t. breaks)
      λ t.
        let fits : n ≤ s.stream.max_streamed_bytes = ground arith in
        Keeps-if (ltb n s.stream.stream_above) (λ u. Keeps-take_whole s h)
          λ u.
            Keeps-if (tag == b'$') (λ v. Keeps-begin_scalar s _ n r fits h)
              λ v.
                Keeps-if (tag == b'!') (λ w. Keeps-begin_scalar s _ n r fits h)
                  λ w. Keeps-if (ltb n 4) (λ x. breaks) (λ x. Keeps-begin_verbatim s n r fits h)

Keeps-open_scalar : (s : Streamer) (tag : ℕ) (b : List ℕ) → Held s → Keeps s (open_scalar s tag b)
unfolding open_scalar to_come
Keeps-open_scalar s tag b h =
    Keeps-taken s (line b) _ (refl, refl, h)
      λ hdr r.
        Keeps-if (tag == b'$' && is_question hdr)
          (λ t. out (refl, refl, (h.0, omega arith, omega arith))) λ t. by_length r (parse_i64 hdr)
  where
    by_length :
        (r : List ℕ) (x : Result {0, 0} DecodeError ℤ)
        → Keeps s (elim x [
          | err e ↦ stop (broken e)
          | ok (negsuc zero) ↦ again (finish_value (record s { buf = r }) (whole (null null_bulk)))
          | ok (negsuc (suc n)) ↦ stop (broken protocol)
          | ok (pos n) ↦ open_sized s tag n r
        ])
    by_length r (err e) = breaks
    by_length r (ok (negsuc zero)) =
        on (finish_value-Holds (record s { buf = r }) (whole (null null_bulk)) h)
    by_length r (ok (negsuc (suc n))) = breaks
    by_length r (ok (pos n)) = Keeps-open_sized s tag n r h

Keeps-close_streamed : (s : Streamer) (b : List ℕ) → Held s → Keeps s (close_streamed s b)
unfolding close_streamed
Keeps-close_streamed s b h =
    Keeps-taken s (line b) _ (refl, refl, h)
      λ rest r.
        Keeps-if (not (leb (length rest) 0)) (λ t. breaks)
          λ t.
            let shorter = close_completed-shorter (pop_pending s.stack) in
            let popped = pop_pending-shorter s.stack in on (refl, refl, (omega arith, h.1, h.2))

Keeps-next_value : (s : Streamer) (b : List ℕ) → Held s → Keeps s (next_value s b)
unfolding next_value
Keeps-next_value s [] h = waits (refl, refl, h)
Keeps-next_value s (tag ∷ b) h =
    Keeps-if (tag == b'.' && in_streamed s.stack) (λ t. Keeps-close_streamed s b h)
      λ t.
        Keeps-if (tag == b'*' || tag == b'~' || tag == b'>' || tag == b'%' || tag == b'|')
          (λ u. Keeps-open_aggregate s (kind_of tag) b h)
          (λ u.
            Keeps-if (tag == b'$' || tag == b'!' || tag == b'=') (λ v. Keeps-open_scalar s tag b h)
              (λ v. Keeps-take_whole s h))

Keeps-by_state :
    (x : State) (s : Streamer)
    → to_come x ≤ s.stream.max_streamed_bytes
    → Held s
    → Keeps s (by_state x s)
unfolding by_state to_come
Keeps-by_state at_value s l h = Keeps-next_value s s.buf h
Keeps-by_state chunk_header s l h = Keeps-next_chunk s s.buf h
Keeps-by_state (payload_left n) s l h = Keeps-continue_payload false n s l h
Keeps-by_state (chunk_left n) s l h = Keeps-continue_payload true n s l h

-- A streamer within its limits stays within them, and keeps its budgets, with every move: it never
-- has more aggregates open than `max_depth`, and neither the bytes that it is still to pass on of
-- one payload nor those it has counted of a streamed one are more than `max_streamed_bytes`.
pub advance-Keeps : (s : Streamer) → Held s → Keeps s (advance s)
unfolding advance
advance-Keeps s h = by_queued s.queued
  where
    by_queued :
        (q : List Event)
        → Keeps s (elim q [
          | e ∷ q' ↦ stop (emitted e (record s { queued = q' }))
          | [] ↦ by_state s.state s
        ])
    by_queued [] = Keeps-by_state s.state s h.1 h
    by_queued (e ∷ q) = out (refl, refl, h)
