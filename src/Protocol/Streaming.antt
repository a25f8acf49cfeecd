-- ===== src/Protocol/Streaming.antt =====
-- crates/pr-protocol/src/stream.rs: the state of the streamer, the values it completes, and the
-- payloads it passes on.
--
-- A call of `self.step()` in the place of a return is `again`. The vector `stack` is a list with its
-- last element first. An error ends the stream, so the streamer behind it is not kept.
use penguin_redis.Prelude.{
  ℕ, zero, suc, ◌+◌, ◌-◌, ◌*◌, ◌^◌, min, Bool, true, false, not, ◌&&◌, Option, none, some, List, [],
  ◌∷◌, ◌++◌, ok, err, ltb, ◌==◌, if◌then◌else◌, length, take, drop,
}
use penguin_redis.Protocol.Value.{pos, negsuc}
use penguin_redis.Protocol.Decoder.{
  Budget, default_budget, DecodeError, protocol, budget, Parsed, done, need_more, out_of_fuel,
  failed, line, parse_i64,
}
use penguin_redis.Protocol.Reassembler.{
  AggKind, Event, scalar_chunk, scalar_end, aggregate_end, frame_end,
}

pub record StreamBudget : Type 0 where
  pub stream_above : ℕ
  pub max_streamed_bytes : ℕ

abbrev pub default_stream : StreamBudget
default_stream = record { stream_above = 1024 * 1024; max_streamed_bytes = 2 * 1024 * 1024 * 1024 }

pub data State : Type 0 where
  at_value chunk_header : State
  payload_left chunk_left : ℕ → State

pub record Pending : Type 0 where
  pub kind : AggKind
  pub remaining : Option ℕ

pub record Streamer : Type 0 where
  pub buf : List ℕ
  pub limits : Budget
  pub stream : StreamBudget
  pub stack : List Pending
  pub state : State
  pub queued : List Event
  pub streamed_so_far : ℕ

-- What a call of `step` comes to: an event, or that the bytes are too few (`Step::Incomplete`), and
-- the streamer behind it, or an error. `exhausted` is the model's: out of fuel.
pub data Outcome : Type 0 where
  emitted : Event → Streamer → Outcome
  starved : Streamer → Outcome
  exhausted : Outcome
  broken : DecodeError → Outcome

pub data Move : Type 0 where
  again : Streamer → Move
  stop : Outcome → Move

unfoldable pub start : Budget → StreamBudget → Streamer
start bd st = record {
  buf = [];
  limits = bd;
  stream = st;
  stack = [];
  state = at_value;
  queued = [];
  streamed_so_far = 0;
}

unfoldable pub with_defaults : Streamer
unfolding start
with_defaults = start default_budget default_stream

unfoldable pub feed_stream : Streamer → List ℕ → Streamer
feed_stream s bytes = record s { buf = s.buf ++ bytes }

-- The top of the stack, one value further.
unfoldable pub close_top :
    Pending → Option ℕ → List Pending → List Event × List Pending → List Event × List Pending
close_top p none st rest = ([], p ∷ st)
close_top p (some zero) st rest = ([], record p { remaining = some (2 ^ 64 - 1) } ∷ st)
close_top p (some (suc zero)) st rest = (aggregate_end ∷ rest.0, rest.1)
close_top p (some (suc (suc n))) st rest = ([], record p { remaining = some (suc n) } ∷ st)

-- `close_completed`: the events it queues, and the stack it leaves.
unfoldable pub close_completed : List Pending → List Event × List Pending
unfolding close_top
close_completed [] = (frame_end ∷ [], [])
close_completed (p ∷ st) = close_top p p.remaining st (close_completed st)

unfoldable pub finish_value : Streamer → Event → Streamer
unfolding close_completed
finish_value s e = record s {
  queued = s.queued ++ (e ∷ (close_completed s.stack).0);
  stack = (close_completed s.stack).1;
}

-- What is made of a part that is parsed in place, in the streamer `s`.
unfoldable pub taken {ℓ} : {A : Type ℓ} → Streamer → Parsed A → (A → List ℕ → Move) → Move
taken s (done a r) k = k a r
taken s need_more k = stop (starved s)
taken s out_of_fuel k = stop exhausted
taken s (failed e) k = stop (broken e)

-- The CRLF that closes a payload.
unfoldable pub close_payload : Bool → Streamer → List ℕ → Move
unfolding finish_value
close_payload streamed s (c ∷ d ∷ r) =
    if not (c == 13 && d == 10)
    then stop (broken protocol)
    else if streamed
    then again (record s { buf = r; state = chunk_header })
    else again (finish_value (record s { buf = r; state = at_value }) scalar_end)
close_payload streamed s _ = stop (starved s)

unfoldable pub left_over : Bool → ℕ → State
left_over true n = chunk_left n
left_over false n = payload_left n

unfoldable pub emit_chunk : Bool → Streamer → ℕ → List ℕ → Move
unfolding left_over
emit_chunk streamed s n [] = stop (starved s)
emit_chunk streamed s n (c ∷ b) =
    let some_bytes = min n (length (c ∷ b)) in
    stop (
      emitted (scalar_chunk (take some_bytes (c ∷ b)))
        (record s { buf = drop some_bytes (c ∷ b); state = left_over streamed (n - some_bytes) }))

unfoldable pub continue_payload : Bool → ℕ → Streamer → Move
unfolding close_payload emit_chunk
continue_payload streamed n s =
    if n == 0 then close_payload streamed s s.buf else emit_chunk streamed s n s.buf

-- Behind the header of a chunk of `n` bytes.
unfoldable pub open_chunk : Streamer → ℕ → List ℕ → Move
unfolding finish_value
open_chunk s n r =
    let total = min (s.streamed_so_far + n) (2 ^ 64 - 1) in
    if ltb s.stream.max_streamed_bytes total
    then stop (broken budget)
    else if n == 0
    then again
        (finish_value (record s { buf = r; state = at_value; streamed_so_far = total }) scalar_end)
    else again (record s { buf = r; state = chunk_left n; streamed_so_far = total })

unfoldable pub next_chunk : Streamer → List ℕ → Move
unfolding open_chunk taken line parse_i64
next_chunk s [] = stop (starved s)
next_chunk s (c ∷ b) =
    if not (c == b';')
    then stop (broken protocol)
    else taken s (line b) λ hdr r. elim (parse_i64 hdr) [
      | err e ↦ stop (broken e)
      | ok (negsuc n) ↦ stop (broken protocol)
      | ok (pos n) ↦ open_chunk s n r
    ]
