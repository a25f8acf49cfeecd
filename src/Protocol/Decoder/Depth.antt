-- ===== src/Protocol/Decoder/Depth.antt =====
-- `parse_value` (crates/pr-protocol/src/decoder.rs): depth, payloads and aggregates of its values.
use penguin_redis.Prelude.{
  ℕ, zero, suc, ◌+◌, ◌≤◌, ◌≡◌, refl, ap, ◌&&◌, ◌||◌, List, [], ◌∷◌, Result, ok, err, leb, ◌==◌,
  if◌then◌else◌, length, arith, bytes_eq, All,
}
use penguin_redis.Protocol.Value.{
  ℤ, Value, Values, Pairs, nil, cons, nil_pair, cons_pair, bulk, bulk_error, integer, verbatim,
  array, set, push, map_of, attribute, to_values, to_pairs, depth, max_depth, max_depth_pairs,
}
use penguin_redis.Protocol.Decoder.{
  Budget, DecodeError, Parsed, Parser, done, failed, pair, line, payload, parse_bulk, parse_i64,
  is_question, parse_attribute, parse_boolean, parse_integer, parse_tagged, parse_value, is_float,
  is_bignum,
}
use penguin_redis.Protocol.Decoder.Yields.{
  Yields, yields, waits, fails, Any, any, Elements, ◌$◌, Yields-bind, Yields-if, Yields-cond,
  Yields-with_len, Yields-take_payload, Yields-chunks, Yields-repeat, Yields-counted, Yields-pair,
  Yields-checked,
}

unfoldable pub count : Values → ℕ
count nil = 0
count (cons v vs) = suc (count vs)

unfoldable pub count_pairs : Pairs → ℕ
count_pairs nil_pair = 0
count_pairs (cons_pair k v kvs) = suc (count_pairs kvs)

-- Every payload and every aggregate of a value within the limits.
unfoldable mutual
  pub Sized : Budget → Value → Type 0
  Sized bd (bulk s) = length s ≤ bd.max_bulk_bytes
  Sized bd (bulk_error s) = length s ≤ bd.max_bulk_bytes
  Sized bd (verbatim f s) = length s ≤ bd.max_bulk_bytes
  Sized bd (array vs) = (count vs ≤ bd.max_elements) × AllSized bd vs
  Sized bd (set vs) = (count vs ≤ bd.max_elements) × AllSized bd vs
  Sized bd (push vs) = (count vs ≤ bd.max_elements) × AllSized bd vs
  Sized bd (map_of kvs) = (count_pairs kvs ≤ bd.max_elements) × PairsSized bd kvs
  Sized bd (attribute kvs v) = (count_pairs kvs ≤ bd.max_elements) × PairsSized bd kvs × Sized bd v
  Sized bd _ = Unit

  pub AllSized : Budget → Values → Type 0
  AllSized bd nil = Unit
  AllSized bd (cons v vs) = Sized bd v × AllSized bd vs

  pub PairsSized : Budget → Pairs → Type 0
  PairsSized bd nil_pair = Unit
  PairsSized bd (cons_pair k v kvs) = Sized bd k × Sized bd v × PairsSized bd kvs

-- Within `left` levels, and the limits.
abbrev pub Within : Budget → ℕ → Value → Type 0
Within bd left v = (depth v ≤ left) × Sized bd v

abbrev WithinPair : Budget → ℕ → Value × Value → Type 0
WithinPair bd left kv = Within bd left kv.0 × Within bd left kv.1

-- The values of an aggregate, put together.
values-Within :
    (bd : Budget) (left : ℕ) (vs : List Value)
    → All (Within bd left) vs
    → (max_depth (to_values vs) ≤ left)
      × (count (to_values vs) ≡ length vs)
      × AllSized bd (to_values vs)
unfolding to_values max_depth count AllSized
values-Within bd left [] h = (omega arith, refl, tt)
values-Within bd left (v ∷ vs) h =
    let rest = values-Within bd left vs h.1 in (ground arith, ap suc rest.1, (h.0.1, rest.2))

pairs-Within :
    (bd : Budget) (left : ℕ) (kvs : List (Value × Value))
    → All (WithinPair bd left) kvs
    → (max_depth_pairs (to_pairs kvs) ≤ left)
      × (count_pairs (to_pairs kvs) ≡ length kvs)
      × PairsSized bd (to_pairs kvs)
unfolding to_pairs max_depth_pairs count_pairs PairsSized
pairs-Within bd left [] h = (omega arith, refl, tt)
pairs-Within bd left ((k, v) ∷ kvs) h =
    let rest = pairs-Within bd left kvs h.1 in
    (ground arith, ap suc rest.1, (h.0.0.1, h.0.1.1, rest.2))

Yields-kind :
    (bd : Budget) (left tag : ℕ) (s b : List ℕ) {x : Parsed Value}
    → length s ≤ bd.max_bulk_bytes
    → Yields (Within bd (suc left)) x
    → Yields
        (Within bd (suc left))
        (if tag == b'$' then done (bulk s) b else if tag == b'!' then done (bulk_error s) b else x)
unfolding depth Sized
Yields-kind bd left tag s b h k =
    Yields-if (tag == b'$') (λ e. yields (omega arith, h))
      λ e. Yields-if (tag == b'!') (λ e'. yields (omega arith, h)) (λ e'. k)

Yields-payload :
    (bd : Budget) (left tag : ℕ) (s b : List ℕ)
    → length s ≤ bd.max_bulk_bytes
    → Yields (Within bd (suc left)) (payload tag s b)
unfolding payload depth Sized
Yields-payload bd left tag [] b h = Yields-kind bd left tag [] b h fails
Yields-payload bd left tag (x ∷ []) b h = Yields-kind bd left tag (x ∷ []) b h fails
Yields-payload bd left tag (x ∷ y ∷ []) b h = Yields-kind bd left tag (x ∷ y ∷ []) b h fails
Yields-payload bd left tag (x ∷ y ∷ z ∷ []) b h = Yields-kind bd left tag (x ∷ y ∷ z ∷ []) b h fails
Yields-payload bd left tag (x ∷ y ∷ z ∷ c ∷ s) b h =
    Yields-kind bd left tag (x ∷ y ∷ z ∷ c ∷ s) b h
      (Yields-if (c == b':') (λ e. yields (omega arith, omega arith)) (λ e. fails))

Yields-parse_bulk :
    (bd : Budget) (left tag : ℕ) (b : List ℕ) → Yields (Within bd (suc left)) (parse_bulk bd tag b)
unfolding parse_bulk depth Sized
Yields-parse_bulk bd left tag b = Yields-bind _ (any (line b)) λ hdr r u.
    Yields-if (tag == b'$' && is_question hdr)
      (λ e.
        Yields-bind _ (Yields-chunks bd (suc (length r)) [] r (omega arith))
          λ out r' h. yields (omega arith, h))
      (λ e. Yields-with_len bd.max_bulk_bytes hdr _ (yields (omega arith, tt)) λ n h.
        Yields-bind _ (Yields-take_payload n bd.max_bulk_bytes r h)
          λ s r'. Yields-payload bd left tag s r')

Yields-attribute :
    (bd : Budget) (left : ℕ) (p : Parser Value) (b : List ℕ)
    → ((b : List ℕ) → Yields (Within bd left) (p b))
    → Yields (Within bd (suc left)) (parse_attribute bd p b)
unfolding parse_attribute depth Sized
Yields-attribute bd left p b h = Yields-bind _ (any (line b)) λ hdr r u.
    Yields-with_len bd.max_elements hdr _ fails λ n l.
      Yields-bind _ (Yields-repeat (pair p) (Yields-pair p h) n r) λ kvs r' q.
        Yields-bind _ (h r') λ v r'' w.
          let inside = pairs-Within bd left kvs q.1 in
          yields (ground arith, (omega arith, inside.2, w.1))

Yields-parse_integer :
    (bd : Budget) (left : ℕ) (l r : List ℕ) → Yields (Within bd (suc left)) (parse_integer l r)
unfolding parse_integer depth Sized
Yields-parse_integer bd left l r = by_number (parse_i64 l)
  where
    by_number :
        (x : Result {0, 0} DecodeError ℤ)
        → Yields (Within bd (suc left)) (elim x [ ok n ↦ done (integer n) r | err e ↦ failed e ])
    by_number (ok n) = yields (omega arith, tt)
    by_number (err e) = fails

Yields-parse_boolean :
    (bd : Budget) (left : ℕ) (l r : List ℕ) → Yields (Within bd (suc left)) (parse_boolean l r)
unfolding parse_boolean depth Sized
Yields-parse_boolean bd left l r =
    Yields-if (bytes_eq l (b't' ∷ [])) (λ e. yields (omega arith, tt))
      λ e. Yields-if (bytes_eq l (b'f' ∷ [])) (λ e'. yields (omega arith, tt)) (λ e'. fails)

Yields-parse_tagged :
    (bd : Budget) (left : ℕ) (p : Parser Value) (tag : ℕ) (b : List ℕ)
    → ((b : List ℕ) → Yields (Within bd left) (p b))
    → Yields (Within bd (suc left)) (parse_tagged bd p tag b)
unfolding parse_tagged depth Sized
Yields-parse_tagged bd left p tag b h =
    Yields-cond (tag == b'+') (Yields-bind _ lines λ l r u. yields (omega arith, tt))
    $ Yields-cond (tag == b'-') (Yields-bind _ lines λ l r u. yields (omega arith, tt))
    $ Yields-cond (tag == b':') (Yields-bind _ lines λ l r u. Yields-parse_integer bd left l r)
    $ Yields-cond (tag == b'#') (Yields-bind _ lines λ l r u. Yields-parse_boolean bd left l r)
    $ Yields-cond (tag == b'_')
        (Yields-bind _ lines λ l r u. Yields-checked (leb (length l) 0) _ r one)
    $ Yields-cond (tag == b',') (Yields-bind _ lines λ l r u. Yields-checked (is_float l) _ r one)
    $ Yields-cond (tag == b'(') (Yields-bind _ lines λ l r u. Yields-checked (is_bignum l) _ r one)
    $ Yields-cond (tag == b'$' || tag == b'!' || tag == b'=') (Yields-parse_bulk bd left tag b)
    $ Yields-cond (tag == b'*') (Yields-counted bd p _ b h one aggregate)
    $ Yields-cond (tag == b'~') (Yields-counted bd p _ b h one aggregate)
    $ Yields-cond (tag == b'>') (Yields-counted bd p _ b h one aggregate)
    $ Yields-cond (tag == b'%') (Yields-counted bd (pair p) _ b (Yields-pair p h) one entries)
    $ Yields-cond (tag == b'|') (Yields-attribute bd left p b h) fails
  where
    lines : Yields Any (line b)
    lines = any (line b)

    one : (1 ≤ suc left) × Unit {0}
    one = (omega arith, tt)

    aggregate :
        (vs : List Value)
        → Elements bd.max_elements (Within bd left) vs
        → (1 + max_depth (to_values vs) ≤ suc left)
          × ((count (to_values vs) ≤ bd.max_elements) × AllSized bd (to_values vs))
    aggregate vs k =
        let inside = values-Within bd left vs k.1 in (omega arith, (omega arith, inside.2))

    entries :
        (kvs : List (Value × Value))
        → Elements bd.max_elements (WithinPair bd left) kvs
        → (1 + max_depth_pairs (to_pairs kvs) ≤ suc left)
          × ((count_pairs (to_pairs kvs) ≤ bd.max_elements) × PairsSized bd (to_pairs kvs))
    entries kvs k =
        let inside = pairs-Within bd left kvs k.1 in (omega arith, (omega arith, inside.2))

-- A value that the decoder returns is at most `left` levels deep, each of its payloads has at most
-- `max_bulk_bytes` bytes, and each of its aggregates at most `max_elements` elements, whatever the
-- lengths that the bytes claim.
pub parse_value-Within :
    (bd : Budget) (left : ℕ) (b : List ℕ) → Yields (Within bd left) (parse_value bd left b)
unfolding parse_value
parse_value-Within bd zero b = fails
parse_value-Within bd (suc left) [] = waits
parse_value-Within bd (suc left) (tag ∷ b) =
    Yields-parse_tagged bd left (parse_value bd left) tag b (parse_value-Within bd left)
