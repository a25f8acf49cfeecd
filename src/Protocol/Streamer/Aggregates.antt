-- ===== src/Protocol/Streamer/Aggregates.antt =====
-- Aggregates: the streamer (crates/pr-protocol/src/stream.rs) where `counted` or `parse_attribute`
-- is done.
use penguin_redis.Prelude.{
  ℕ, suc, ◌+◌, ◌*◌, ◌^◌, ◌≤◌, ◌≡◌, refl, sym, ap, ◌∙◌, true, false, Option, none, some, List, [],
  ◌∷◌, ◌++◌, Result, ok, ltb, leb, length, arith,
}
use penguin_redis.Protocol.Value.{Value, null, null_array}
use penguin_redis.Protocol.Decoder.{
  Budget, DecodeError, Parser, done, line, repeat, counted, parse_attribute, parse_len, is_question,
  parse_value,
}
use penguin_redis.Protocol.Reassembler.{
  AggKind, map_kind, attribute_kind, whole, aggregate_begin, finish_aggregate, receive,
}
use penguin_redis.Protocol.Streamer.{
  StreamBudget, at_value, Pending, Streamer, again, stop, emitted, taken, is_attribute, checked_u64,
  children_of, open_children, open_counted, open_aggregate, finish_value, advance,
}
use penguin_redis.Protocol.Streamer.Runs.{moving, taking, inner_aggregate}
use penguin_redis.Protocol.Streamer.Listed.{
  CountedRead, terminated, absent, listed, counted-CountedRead, AttributeRead, attributed,
  parse_attribute-AttributeRead,
}
use penguin_redis.Protocol.Streamer.Payloads.{at, Frames, built}
use penguin_redis.Protocol.Streamer.Chunks.{Roomy, Delivers, delivers, again-Delivers}
use penguin_redis.Protocol.Streamer.Children.{
  Child, Fills, fills, pend, end-Delivers, children-Delivers,
}
use penguin_redis.Protocol.Streamer.Inversions.{parse_len-le}
use penguin_redis.Protocol.Streamer.Terminated.{flatten, inside, so_far, Elements, until-Fills}
use penguin_redis.Protocol.Streamer.Pairs.{both, finish-attribute, repeat-flatten, repeat-snoc}

-- The header of an aggregate, where there are levels left.
module _ (s : Streamer) (k : AggKind) (b hdr r : List ℕ)
    (levels : leb s.limits.max_depth (length s.stack) ≡ false) (header : line b ≡ done hdr r) where
  open_aggregate-counted :
      (x : Result {0, 0} DecodeError (Option ℕ))
      → is_question hdr ≡ false
      → parse_len s.limits.max_elements hdr ≡ x
      → open_aggregate s k b ≡ open_counted (record s { buf = r }) k x
  unfolding open_aggregate
  open_aggregate-counted x q e = rw (levels, header) (rw (taken, q, e) refl)

  open_aggregate-terminated :
      is_question hdr ≡ true
      → is_attribute k ≡ false
      → open_aggregate s k b
        ≡ stop
            (emitted (aggregate_begin k none) (record s { buf = r; stack = pend k none ∷ s.stack }))
  unfolding open_aggregate
  open_aggregate-terminated q a = rw (levels, header) (rw (taken, q, a) refl)

open_counted-null :
    (s : Streamer) (k : AggKind)
    → is_attribute k ≡ false
    → open_counted s k (ok none) ≡ again (finish_value s (whole (null null_array)))
unfolding open_counted
open_counted-null s k h = rw h refl

open_counted-children :
    (s : Streamer) (k : AggKind) (n c : ℕ)
    → children_of k n ≡ some c
    → open_counted s k (ok (some n)) ≡ again (open_children s k n c)
unfolding open_counted
open_counted-children s k n c h = rw (open_counted, h) refl

pub children-map :
    (bd : Budget) (sb : StreamBudget) (n : ℕ)
    → Roomy bd sb
    → n ≤ bd.max_elements
    → children_of map_kind n ≡ some (n * 2)
unfolding children_of checked_u64
children-map bd sb n room h = let fits : ltb (n * 2) (2 ^ 64) ≡ true = ground arith in rw fits refl

children-attribute :
    (bd : Budget) (sb : StreamBudget) (n : ℕ)
    → Roomy bd sb
    → n ≤ bd.max_elements
    → children_of attribute_kind n ≡ some (suc (n * 2))
unfolding children_of checked_u64
children-attribute bd sb n room h =
    let fits : ltb (n * 2 + 1) (2 ^ 64) ≡ true = ground arith in
    let more : n * 2 + 1 ≡ suc (n * 2) = omega arith in rw fits (ap some more)

module _ (bd : Budget) (sb : StreamBudget) (st : List Pending) (stk : Frames) (fin : Option Value)
    (room : Roomy bd sb) where
  abbrev s_at : ℕ → List ℕ → Streamer
  s_at m b = at bd sb st m at_value b

  -- What the streamer does with elements of one kind.
  pub record Kind {A : Type 0} (k : AggKind) (p : Parser A) (left : ℕ) (flat : A → List Value)
      (build : List A → Value) : Type 0 where
    pub plain : is_attribute k ≡ false
    pub grow : Elements bd sb st k stk fin p flat
    pub count : ℕ → ℕ
    pub children : (n : ℕ) → n ≤ bd.max_elements → children_of k n ≡ some (count n)
    pub in_row :
        (n : ℕ) (xs : List A) (b r : List ℕ)
        → repeat p n b ≡ done xs r
        → repeat (parse_value bd left) (count n) b ≡ done (flatten flat xs) r
    pub finish : (xs : List A) → finish_aggregate k (flatten flat xs) ≡ ok (build xs)

  -- An aggregate of `n` elements, behind its header.
  listed-Delivers :
      (k : AggKind) (left m n c : ℕ) (b b' r : List ℕ) (vs : List Value) (v : Value)
      → Child bd sb left
      → suc (length st) + left ≡ bd.max_depth
      → advance (s_at m b) ≡ open_counted (s_at m b') k (ok (some n))
      → children_of k n ≡ some c
      → repeat (parse_value bd left) c b' ≡ done vs r
      → finish_aggregate k vs ≡ ok v
      → Delivers bd sb st stk fin (s_at m b) (built stk fin) v r
  listed-Delivers k left m n c b b' r vs v child depth a h e f =
      by_children (children-Delivers bd sb st k stk fin left n c m vs v b' r child depth e f)
    where
      by_children :
          Delivers bd sb st stk fin (open_children (s_at m b') k n c) (built stk fin) v r
          → Delivers bd sb st stk fin (s_at m b) (built stk fin) v r
      by_children (delivers m' w) =
          delivers m' (moving (a ∙ open_counted-children (s_at m b') k n c h) w)

  -- What `counted` reads, the streamer reads.
  pub counted-Delivers :
      {A : Type 0} (k : AggKind) (p : Parser A) (left m : ℕ) (flat : A → List Value)
      (build : List A → Value) (tag : ℕ) (b r : List ℕ) (v : Value)
      → Kind k p left flat build
      → Child bd sb left
      → suc (length st) + left ≡ bd.max_depth
      → advance (s_at m (tag ∷ b)) ≡ open_aggregate (s_at m (tag ∷ b)) k b
      → counted bd p build b ≡ done v r
      → Delivers bd sb st stk fin (s_at m (tag ∷ b)) (built stk fin) v r
  unfolding receive
  counted-Delivers {A} k p left m flat build tag b r v kind child depth a e =
      by_read (counted-CountedRead bd p build b e)
    where
      s : Streamer
      s = s_at m (tag ∷ b)

      Goal : Type 0
      Goal = Delivers bd sb st stk fin s (built stk fin) v r

      levels : leb bd.max_depth (length st) ≡ false
      levels = ground arith

      by_until :
          (r' : List ℕ) (xs : List A)
          → advance s ≡ stop (emitted (aggregate_begin k none) (inside bd sb st k stk fin m r'))
          → build xs ≡ v
          → Fills bd sb st k stk fin
              (inside bd sb st k stk fin m r')
              (so_far bd sb st k stk fin [])
              (flatten flat xs)
              r
          → Goal
      by_until r' xs h g (fills m' w) =
          end-Delivers bd sb st k stk fin s (built stk fin) (flatten flat xs) v r
            (kind.finish xs ∙ ap ok g) (fills m' (taking h inner_aggregate refl w))

      by_read : CountedRead bd p build b v r → Goal
      by_read (terminated hdr r' xs l q u g) =
          by_until r' xs (a ∙ open_aggregate-terminated s k b hdr r' levels l q kind.plain) g
            (until-Fills bd sb st k stk fin p flat (suc (length r')) m [] xs r' r kind.grow u)
      by_read (absent hdr r' l q n g w) =
          rw (sym g, sym w)
            (again-Delivers bd sb st stk fin room m (tag ∷ b) (null null_array) r' (
              a
              ∙ open_aggregate-counted s k b hdr r' levels l (ok none) q n
              ∙ open_counted-null (s_at m r') k kind.plain))
      by_read (listed hdr r' n xs l q z u g) =
          listed-Delivers k left m n (kind.count n) (tag ∷ b) r' r (flatten flat xs) v child depth
            (a ∙ open_aggregate-counted s k b hdr r' levels l (ok (some n)) q z)
            (kind.children n (parse_len-le bd.max_elements n hdr z)) (kind.in_row n xs r' r u)
            (kind.finish xs ∙ ap ok g)

  -- What `parse_attribute` reads, the streamer reads.
  pub attribute-Delivers :
      (left m tag : ℕ) (b r : List ℕ) (v : Value)
      → Child bd sb left
      → suc (length st) + left ≡ bd.max_depth
      → advance (s_at m (tag ∷ b)) ≡ open_aggregate (s_at m (tag ∷ b)) attribute_kind b
      → parse_attribute bd (parse_value bd left) b ≡ done v r
      → Delivers bd sb st stk fin (s_at m (tag ∷ b)) (built stk fin) v r
  attribute-Delivers left m tag b r v child depth a e =
      by_read (parse_attribute-AttributeRead bd (parse_value bd left) b e)
    where
      s : Streamer
      s = s_at m (tag ∷ b)

      by_read :
          AttributeRead bd (parse_value bd left) b v r
          → Delivers bd sb st stk fin s (built stk fin) v r
      by_read (attributed hdr r' r'' n kvs w l q z u h g) =
          listed-Delivers attribute_kind left m n (suc (n * 2)) (tag ∷ b) r' r
            (flatten both kvs ++ w ∷ []) v child depth
            (a
              ∙ open_aggregate-counted s attribute_kind b hdr r' (ground arith) l (ok (some n)) q z)
            (children-attribute bd sb n room (parse_len-le bd.max_elements n hdr z))
            (repeat-snoc (parse_value bd left) (n * 2) (flatten both kvs) w r' r'' r
              (repeat-flatten (parse_value bd left) n kvs r' r'' u) h)
            (finish-attribute kvs w ∙ ap ok g)
