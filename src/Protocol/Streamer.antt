-- ===== src/Protocol/Streamer.antt =====
-- crates/pr-protocol/src/stream.rs: a decoder that walks a frame without holding it.
--
-- `step` is the loop that its calls of itself make; it and the loop of `decode_by_streaming` run on
-- fuel, `work` and one more.
pub mod Work
pub mod Progress
pub mod Runs
pub mod Inversions
pub mod Bulks
pub mod Payloads
pub mod Chunks
pub mod Scalars
pub mod Children
pub mod Terminated
pub mod Pairs
pub mod Listed
pub mod Aggregates
pub mod Tags
pub mod Agrees
pub mod Limits
pub mod Kept
mod Examples
use penguin_redis.Prelude.{
  ℕ, zero, suc, ◌+◌, ◌-◌, ◌*◌, ◌^◌, Bool, true, false, not, ◌&&◌, ◌||◌, Option, none, some, List,
  [], ◌∷◌, ◌++◌, Result, ok, err, ltb, leb, ◌==◌, if◌then◌else◌, length,
}
use penguin_redis.Protocol.Value.{pos, negsuc, Value, null, null_bulk, null_array}
use penguin_redis.Protocol.Decoder.{
  Budget, DecodeError, protocol, budget, done, line, is_question, parse_i64, parse_len, parse_value,
  new, feed, decode, value, incomplete,
}
use penguin_redis.Protocol.Reassembler.{
  AggKind, array_kind, set_kind, push_kind, map_kind, attribute_kind, ScalarKind, bulk_kind,
  bulk_error_kind, verbatim_kind, whole, scalar_begin, aggregate_end, frame_end, aggregate_begin,
  Reassembler, empty, receive, take_value,
}
pub use penguin_redis.Protocol.Streaming.{
  StreamBudget, State, at_value, chunk_header, payload_left, chunk_left, Pending, Streamer, Outcome,
  emitted, starved, exhausted, broken, Move, again, stop, default_stream,
}
unfoldable pub use penguin_redis.Protocol.Streaming.{
  start, with_defaults, feed_stream, close_top, close_completed, finish_value, taken, close_payload,
  left_over, emit_chunk, continue_payload, open_chunk, next_chunk,
}

unfoldable pub kind_of : ℕ → AggKind
kind_of tag =
    if tag == b'*'
    then array_kind
    else if tag == b'~'
    then set_kind
    else if tag == b'>'
    then push_kind
    else if tag == b'%'
    then map_kind
    else attribute_kind

unfoldable pub is_attribute : AggKind → Bool
is_attribute attribute_kind = true
is_attribute _ = false

-- `checked_mul` and `checked_add`.
unfoldable pub checked_u64 : ℕ → Option ℕ
checked_u64 n = if ltb n (2 ^ 64) then some n else none

unfoldable pub children_of : AggKind → ℕ → Option ℕ
unfolding checked_u64
children_of map_kind n = checked_u64 (n * 2)
children_of attribute_kind n = checked_u64 (n * 2 + 1)
children_of _ n = some n

-- An aggregate of `n` elements, with `c` values in it.
unfoldable pub open_children : Streamer → AggKind → ℕ → ℕ → Streamer
unfolding close_completed
open_children s k n zero = record s {
  queued = s.queued ++ (aggregate_begin k (some n) ∷ aggregate_end ∷ (close_completed s.stack).0);
  stack = (close_completed s.stack).1;
}
open_children s k n (suc c) = record s {
  queued = s.queued ++ aggregate_begin k (some n) ∷ [];
  stack = record { kind = k; remaining = some (suc c) } ∷ s.stack;
}

unfoldable pub open_counted : Streamer → AggKind → Result {0, 0} DecodeError (Option ℕ) → Move
unfolding open_children children_of finish_value is_attribute
open_counted s k (err e) = stop (broken e)
open_counted s k (ok none) =
    if is_attribute k
    then stop (broken protocol)
    else again (finish_value s (whole (null null_array)))
open_counted s k (ok (some n)) = elim (children_of k n) [
  | none ↦ stop (broken budget)
  | some c ↦ again (open_children s k n c)
]

unfoldable pub open_aggregate : Streamer → AggKind → List ℕ → Move
unfolding open_counted taken line is_question is_attribute parse_len
open_aggregate s k b =
    if leb s.limits.max_depth (length s.stack)
    then stop (broken budget)
    else taken s (line b) λ hdr r.
      if is_question hdr
      then (if is_attribute k
          then stop (broken protocol)
          else stop (
              emitted (aggregate_begin k none)
                (record s { buf = r; stack = record { kind = k; remaining = none } ∷ s.stack })))
      else open_counted (record s { buf = r }) k (parse_len s.limits.max_elements hdr)

-- The rest of the buffer decoded by the value API.
unfoldable pub take_whole : Streamer → Move
unfolding taken parse_value finish_value
take_whole s =
    taken s (parse_value s.limits (s.limits.max_depth - length s.stack) s.buf)
      λ v r. again (finish_value (record s { buf = r }) (whole v))

unfoldable pub begin_scalar : Streamer → ScalarKind → ℕ → List ℕ → Move
begin_scalar s k n r =
    stop (emitted (scalar_begin k (some n)) (record s { buf = r; state = payload_left n }))

unfoldable pub begin_verbatim : Streamer → ℕ → List ℕ → Move
unfolding begin_scalar
begin_verbatim s n (x ∷ y ∷ z ∷ c ∷ r) =
    if not (c == b':')
    then stop (broken protocol)
    else begin_scalar s (verbatim_kind (x ∷ y ∷ z ∷ [])) (n - 4) r
begin_verbatim s n _ = stop (starved s)

-- A scalar of `n` bytes.
unfoldable pub open_sized : Streamer → ℕ → ℕ → List ℕ → Move
unfolding take_whole begin_scalar begin_verbatim
open_sized s tag n r =
    if ltb s.stream.max_streamed_bytes n
    then stop (broken budget)
    else if ltb n s.stream.stream_above
    then take_whole s
    else if tag == b'$'
    then begin_scalar s bulk_kind n r
    else if tag == b'!'
    then begin_scalar s bulk_error_kind n r
    else if ltb n 4
    then stop (broken protocol)
    else begin_verbatim s n r

unfoldable pub open_scalar : Streamer → ℕ → List ℕ → Move
unfolding open_sized finish_value taken line is_question parse_i64
open_scalar s tag b = taken s (line b) λ hdr r.
    if tag == b'$' && is_question hdr
    then stop (
        emitted (scalar_begin bulk_kind none)
          (record s { buf = r; state = chunk_header; streamed_so_far = 0 }))
    else elim (parse_i64 hdr) [
      | err e ↦ stop (broken e)
      | ok (negsuc zero) ↦ again (finish_value (record s { buf = r }) (whole (null null_bulk)))
      | ok (negsuc (suc n)) ↦ stop (broken protocol)
      | ok (pos n) ↦ open_sized s tag n r
    ]

-- Whether the innermost aggregate is a streamed one.
unfoldable pub in_streamed : List Pending → Bool
in_streamed [] = false
in_streamed (p ∷ st) = elim p.remaining [ none ↦ true | some n ↦ false ]

unfoldable pub pop_pending : List Pending → List Pending
pop_pending [] = []
pop_pending (p ∷ st) = st

-- The `.` that closes a streamed aggregate.
unfoldable pub close_streamed : Streamer → List ℕ → Move
unfolding taken line close_completed pop_pending
close_streamed s b = taken s (line b) λ rest r.
    if not (leb (length rest) 0)
    then stop (broken protocol)
    else again (record s {
      buf = r;
      stack = (close_completed (pop_pending s.stack)).1;
      queued = s.queued ++ (aggregate_end ∷ (close_completed (pop_pending s.stack)).0);
    })

unfoldable pub next_value : Streamer → List ℕ → Move
unfolding close_streamed in_streamed open_aggregate open_scalar take_whole kind_of
next_value s [] = stop (starved s)
next_value s (tag ∷ b) =
    if tag == b'.' && in_streamed s.stack
    then close_streamed s b
    else if tag == b'*' || tag == b'~' || tag == b'>' || tag == b'%' || tag == b'|'
    then open_aggregate s (kind_of tag) b
    else if tag == b'$' || tag == b'!' || tag == b'='
    then open_scalar s tag b
    else take_whole s

unfoldable pub by_state : State → Streamer → Move
unfolding next_value next_chunk continue_payload
by_state at_value s = next_value s s.buf
by_state chunk_header s = next_chunk s s.buf
by_state (payload_left n) s = continue_payload false n s
by_state (chunk_left n) s = continue_payload true n s

-- `step`, up to the next call of itself.
unfoldable pub advance : Streamer → Move
unfolding by_state
advance s = elim s.queued [
  | e ∷ q ↦ stop (emitted e (record s { queued = q }))
  | [] ↦ by_state s.state s
]

-- What bounds the moves to come.
abbrev pub work : Streamer → ℕ
work s = (4 * length s.buf + length s.queued) + length s.stack

unfoldable pub step_loop : ℕ → Streamer → Outcome
unfolding advance
step_loop zero s = exhausted
step_loop (suc f) s = elim (advance s) [ again s' ↦ step_loop f s' | stop o ↦ o ]

unfoldable pub step : Streamer → Outcome
unfolding step_loop
step s = step_loop (suc (work s)) s

-- What is done with an event; `k` goes on.
unfoldable pub consume :
    (Streamer → Reassembler → Option (Result {0, 0} DecodeError (Option Value)))
    → Reassembler
    → Outcome
    → Option (Result {0, 0} DecodeError (Option Value))
unfolding receive take_value
consume k q (starved s) = some (ok none)
consume k q exhausted = none
consume k q (broken e) = some (err e)
consume k q (emitted frame_end s) = elim (receive frame_end q) [
  | ok q' ↦ some (ok (take_value q').0)
  | err d ↦ some (err d)
]
consume k q (emitted e s) = elim (receive e q) [ ok q' ↦ k s q' | err d ↦ some (err d) ]

-- The loop of `decode_by_streaming`.
unfoldable pub stream_loop :
    ℕ → Streamer → Reassembler → Option (Result {0, 0} DecodeError (Option Value))
unfolding consume step
stream_loop zero s q = none
stream_loop (suc f) s q = consume (stream_loop f) q (step s)

unfoldable pub decode_by_streaming :
    List ℕ → Budget → StreamBudget → Option (Result {0, 0} DecodeError (Option Value))
unfolding stream_loop start feed_stream
decode_by_streaming bytes bd st =
    stream_loop (suc (work (feed_stream (start bd st) bytes))) (feed_stream (start bd st) bytes)
      empty

unfoldable pub decode_by_value : List ℕ → Budget → Option (Result {0, 0} DecodeError (Option Value))
unfolding decode feed new
decode_by_value bytes bd = elim (decode (feed (new bd) bytes)) [
  | none ↦ none
  | some (ok (value v), d) ↦ some (ok (some v))
  | some (ok incomplete, d) ↦ some (ok none)
  | some (err e, d) ↦ some (err e)
]
