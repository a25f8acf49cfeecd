-- ===== src/Protocol/Reassembler.antt =====
-- crates/pr-protocol/src/stream.rs: the events of a streamed frame, and a value put together of them.
--
-- The vector `stack` is a list with its last element first.
use penguin_redis.Prelude.{ℕ, Option, none, some, List, [], ◌∷◌, ◌++◌, Result, ok, err}
use penguin_redis.Protocol.Value.{
  Value, bulk, bulk_error, verbatim, array, set, push, map_of, attribute, to_values, to_pairs,
}
use penguin_redis.Protocol.Scalars.{DecodeError, protocol}

pub data AggKind : Type 0 where
  array_kind set_kind push_kind map_kind attribute_kind : AggKind

pub data ScalarKind : Type 0 where
  bulk_kind bulk_error_kind : ScalarKind
  verbatim_kind : List ℕ → ScalarKind

pub data Event : Type 0 where
  whole : Value → Event
  scalar_begin : ScalarKind → Option ℕ → Event
  scalar_chunk : List ℕ → Event
  scalar_end aggregate_end frame_end : Event
  aggregate_begin : AggKind → Option ℕ → Event

pub record Reassembler : Type 0 where
  pub stack : List (AggKind × List Value)
  pub scalar : Option (ScalarKind × List ℕ)
  pub finished : Option Value

abbrev pub empty : Reassembler
empty = record { stack = []; scalar = none; finished = none }

-- `value`.
unfoldable pub deliver : Value → Reassembler → Reassembler
deliver v q = elim q.stack [
  | [] ↦ record q { finished = some v }
  | top ∷ rest ↦ record q { stack = (top.0, top.1 ++ v ∷ []) ∷ rest }
]

unfoldable pub pairs : List Value → Result {0, 0} DecodeError (List (Value × Value))
pairs [] = ok []
pairs (k ∷ []) = err protocol
pairs (k ∷ v ∷ items) =
    let rest = pairs items in elim rest [ ok kvs ↦ ok ((k, v) ∷ kvs) | err e ↦ err e ]

-- `items.pop()`: the last item and those before it.
unfoldable pub pop : List Value → Option (Value × List Value)
pop [] = none
pop (v ∷ items) = elim (pop items) [ none ↦ some (v, []) | some p ↦ some (p.0, v ∷ p.1) ]

unfoldable pub finish_aggregate : AggKind → List Value → Result {0, 0} DecodeError Value
unfolding pairs pop
finish_aggregate array_kind items = ok (array (to_values items))
finish_aggregate set_kind items = ok (set (to_values items))
finish_aggregate push_kind items = ok (push (to_values items))
finish_aggregate map_kind items = elim (pairs items) [
  | ok kvs ↦ ok (map_of (to_pairs kvs))
  | err e ↦ err e
]
finish_aggregate attribute_kind items = elim (pop items) [
  | none ↦ err protocol
  | some p ↦ elim (pairs p.1) [ ok kvs ↦ ok (attribute (to_pairs kvs) p.0) | err e ↦ err e ]
]

unfoldable pub scalar_value : ScalarKind → List ℕ → Value
scalar_value bulk_kind s = bulk s
scalar_value bulk_error_kind s = bulk_error s
scalar_value (verbatim_kind f) s = verbatim f s

-- `push`.
unfoldable pub receive : Event → Reassembler → Result {0, 0} DecodeError Reassembler
unfolding deliver finish_aggregate scalar_value
receive (whole v) q = ok (deliver v q)
receive (scalar_begin k n) q = ok (record q { scalar = some (k, []) })
receive (scalar_chunk s) q = elim q.scalar [
  | none ↦ err protocol
  | some held ↦ ok (record q { scalar = some (held.0, held.1 ++ s) })
]
receive scalar_end q = elim q.scalar [
  | none ↦ err protocol
  | some held ↦ ok (deliver (scalar_value held.0 held.1) (record q { scalar = none }))
]
receive (aggregate_begin k n) q = ok (record q { stack = (k, []) ∷ q.stack })
receive aggregate_end q = elim q.stack [
  | [] ↦ err protocol
  | top ∷ rest ↦ elim (finish_aggregate top.0 top.1) [
    | ok v ↦ ok (deliver v (record q { stack = rest }))
    | err e ↦ err e
  ]
]
receive frame_end q = ok q

-- `take`.
unfoldable pub take_value : Reassembler → Option Value × Reassembler
take_value q = (q.finished, record q { finished = none })
