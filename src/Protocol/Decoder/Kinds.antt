-- ===== src/Protocol/Decoder/Kinds.antt =====
-- `parse_value` on the text of each kind of value.
use penguin_redis.Prelude.{
  ℕ, suc, ◌+◌, ◌≤◌, ◌≡◌, refl, ap, ◌∙◌, Bool, true, false, List, [], ◌∷◌, ◌++◌, length, arith,
  length-append,
}
use penguin_redis.Protocol.Value.{
  ℤ, Value, Values, Pairs, nil, cons, nil_pair, cons_pair, simple, error, bulk, double, big_number,
  bulk_error, integer, null, boolean, verbatim, array, set, push, map_of, attribute, NullForm,
  null_bulk, null_array, null_resp3, to_values, to_pairs, depth,
}
use penguin_redis.Protocol.Decoder.{
  Budget, done, ◌>>=◌, with_len, repeat, pair, line, after_cr, parse_bulk, parse_len, counted,
  parse_attribute, parse_boolean, parse_integer, checked, parse_tagged, parse_value, is_float,
  is_bignum,
}
use penguin_redis.Protocol.Decoder.Depth.{count, count_pairs}
use penguin_redis.Protocol.Decoder.Printer.{
  Unbroken, number_text, print, print_all, print_pairs, Printable, Sensible,
}
use penguin_redis.Protocol.Decoder.Pieces.{
  number-Unbroken, line-ended, parse_len-decimal, line-decimal, parse_bulk-sized, payload-verbatim,
  payload-bulk, payload-bulk_error, counted-printed, parse_i64-number,
}

-- The elements of an aggregate, as lists.
abbrev pub list_of : Values → List Value
list_of nil = []
list_of (cons v vs) = v ∷ list_of vs

abbrev pub pairs_of : Pairs → List (Value × Value)
pairs_of nil_pair = []
pairs_of (cons_pair k v kvs) = (k, v) ∷ pairs_of kvs

pub to_values-list_of : (vs : Values) → to_values (list_of vs) ≡ vs
unfolding to_values
to_values-list_of nil = refl
to_values-list_of (cons v vs) = ap (cons v) (to_values-list_of vs)

pub to_pairs-pairs_of : (kvs : Pairs) → to_pairs (pairs_of kvs) ≡ kvs
unfolding to_pairs
to_pairs-pairs_of nil_pair = refl
to_pairs-pairs_of (cons_pair k v kvs) = ap (cons_pair k v) (to_pairs-pairs_of kvs)

pub depth-pos : (v : Value) → 1 ≤ depth v
unfolding depth
depth-pos (simple s) = omega arith
depth-pos (error s) = omega arith
depth-pos (bulk s) = omega arith
depth-pos (double s) = omega arith
depth-pos (big_number s) = omega arith
depth-pos (bulk_error s) = omega arith
depth-pos (integer n) = omega arith
depth-pos (null f) = omega arith
depth-pos (boolean t) = omega arith
depth-pos (verbatim f s) = omega arith
depth-pos (array vs) = omega arith
depth-pos (set vs) = omega arith
depth-pos (push vs) = omega arith
depth-pos (map_of kvs) = omega arith
depth-pos (attribute kvs v) = omega arith

-- What parsing gives back: the value, and what follows it.
abbrev pub Parses : Budget → ℕ → Value → Type 0
Parses bd left v = (r : List ℕ) → parse_value bd left (print v r) ≡ done v r

abbrev pub AllParse : Budget → ℕ → Values → Type 0
AllParse bd left vs =
    (r : List ℕ) → repeat (parse_value bd left) (count vs) (print_all vs r) ≡ done (list_of vs) r

abbrev pub PairsParse : Budget → ℕ → Pairs → Type 0
PairsParse bd left kvs =
    (r : List ℕ)
    → repeat (pair (parse_value bd left)) (count_pairs kvs) (print_pairs kvs r)
      ≡ done (pairs_of kvs) r

pub array-Parses :
    (bd : Budget) (left : ℕ) (vs : Values)
    → Sensible bd
    → count vs ≤ bd.max_elements
    → AllParse bd left vs
    → Parses bd (suc left) (array vs)
unfolding print parse_value parse_tagged
array-Parses bd left vs w h k r =
    counted-printed bd (parse_value bd left) (λ items. array (to_values items)) (count vs)
      (list_of vs) (print_all vs r) r h w (k r)
    ∙ ap (λ items. done (array items) r) (to_values-list_of vs)

pub set-Parses :
    (bd : Budget) (left : ℕ) (vs : Values)
    → Sensible bd
    → count vs ≤ bd.max_elements
    → AllParse bd left vs
    → Parses bd (suc left) (set vs)
unfolding print parse_value parse_tagged
set-Parses bd left vs w h k r =
    counted-printed bd (parse_value bd left) (λ items. set (to_values items)) (count vs)
      (list_of vs) (print_all vs r) r h w (k r)
    ∙ ap (λ items. done (set items) r) (to_values-list_of vs)

pub push-Parses :
    (bd : Budget) (left : ℕ) (vs : Values)
    → Sensible bd
    → count vs ≤ bd.max_elements
    → AllParse bd left vs
    → Parses bd (suc left) (push vs)
unfolding print parse_value parse_tagged
push-Parses bd left vs w h k r =
    counted-printed bd (parse_value bd left) (λ items. push (to_values items)) (count vs)
      (list_of vs) (print_all vs r) r h w (k r)
    ∙ ap (λ items. done (push items) r) (to_values-list_of vs)

pub map_of-Parses :
    (bd : Budget) (left : ℕ) (kvs : Pairs)
    → Sensible bd
    → count_pairs kvs ≤ bd.max_elements
    → PairsParse bd left kvs
    → Parses bd (suc left) (map_of kvs)
unfolding print parse_value parse_tagged
map_of-Parses bd left kvs w h k r =
    counted-printed bd (pair (parse_value bd left)) (λ items. map_of (to_pairs items))
      (count_pairs kvs) (pairs_of kvs) (print_pairs kvs r) r h w (k r)
    ∙ ap (λ items. done (map_of items) r) (to_pairs-pairs_of kvs)

pub attribute-Parses :
    (bd : Budget) (left : ℕ) (kvs : Pairs) (v : Value)
    → Sensible bd
    → count_pairs kvs ≤ bd.max_elements
    → PairsParse bd left kvs
    → Parses bd left v
    → Parses bd (suc left) (attribute kvs v)
unfolding print parse_value parse_tagged parse_attribute with_len ◌>>=◌
attribute-Parses bd left kvs v w h k l r =
    rw
      (
        line-decimal (count_pairs kvs) (print_pairs kvs (print v r)),
        parse_len-decimal bd.max_elements (count_pairs kvs) h (omega arith),
        k (print v r),
        l r,
        to_pairs-pairs_of kvs,
      )
      refl

pub simple-Parses :
    (bd : Budget) (left : ℕ) (s : List ℕ) → Unbroken s → Parses bd (suc left) (simple s)
unfolding print parse_value parse_tagged ◌>>=◌
simple-Parses bd left s h r = rw (line-ended s r h) refl

pub error-Parses :
    (bd : Budget) (left : ℕ) (s : List ℕ) → Unbroken s → Parses bd (suc left) (error s)
unfolding print parse_value parse_tagged ◌>>=◌
error-Parses bd left s h r = rw (line-ended s r h) refl

pub double-Parses :
    (bd : Budget) (left : ℕ) (s : List ℕ)
    → Unbroken s
    → is_float s ≡ true
    → Parses bd (suc left) (double s)
unfolding print parse_value parse_tagged checked ◌>>=◌
double-Parses bd left s h k r = rw (line-ended s r h, k) refl

pub big_number-Parses :
    (bd : Budget) (left : ℕ) (s : List ℕ)
    → Unbroken s
    → is_bignum s ≡ true
    → Parses bd (suc left) (big_number s)
unfolding print parse_value parse_tagged checked ◌>>=◌
big_number-Parses bd left s h k r = rw (line-ended s r h, k) refl

pub parse_integer-number :
    (bd : Budget) (n : ℤ) (r : List ℕ)
    → Printable bd (integer n)
    → parse_integer (number_text n) r ≡ done (integer n) r
unfolding parse_integer
parse_integer-number bd n r h = rw (parse_integer, parse_i64-number bd n h) refl

pub integer-Parses :
    (bd : Budget) (left : ℕ) (n : ℤ) → Printable bd (integer n) → Parses bd (suc left) (integer n)
unfolding print parse_value parse_tagged ◌>>=◌
integer-Parses bd left n h r =
    ap (λ x. x >>= parse_integer) (line-ended (number_text n) r (number-Unbroken n))
    ∙ parse_integer-number bd n r h

pub bulk-Parses :
    (bd : Budget) (left : ℕ) (s : List ℕ)
    → Sensible bd
    → length s ≤ bd.max_bulk_bytes
    → Parses bd (suc left) (bulk s)
unfolding print parse_value parse_tagged ◌>>=◌
bulk-Parses bd left s w h r = parse_bulk-sized bd b'$' s r w h ∙ payload-bulk s r

pub bulk_error-Parses :
    (bd : Budget) (left : ℕ) (s : List ℕ)
    → Sensible bd
    → length s ≤ bd.max_bulk_bytes
    → Parses bd (suc left) (bulk_error s)
unfolding print parse_value parse_tagged ◌>>=◌
bulk_error-Parses bd left s w h r = parse_bulk-sized bd b'!' s r w h ∙ payload-bulk_error s r

pub boolean-Parses : (bd : Budget) (left : ℕ) (t : Bool) → Parses bd (suc left) (boolean t)
unfolding print parse_value parse_tagged parse_boolean line after_cr ◌>>=◌
boolean-Parses bd left true r = refl
boolean-Parses bd left false r = refl

pub null-Parses : (bd : Budget) (left : ℕ) (f : NullForm) → Parses bd (suc left) (null f)
unfolding print parse_value parse_tagged parse_bulk counted checked line after_cr parse_len with_len
    ◌>>=◌
null-Parses bd left null_bulk r = refl
null-Parses bd left null_array r = refl
null-Parses bd left null_resp3 r = refl

pub verbatim-Parses :
    (bd : Budget) (left : ℕ) (f s : List ℕ)
    → Sensible bd
    → length f ≡ 3
    → 4 + length s ≤ bd.max_bulk_bytes
    → Parses bd (suc left) (verbatim f s)
unfolding print parse_value parse_tagged
verbatim-Parses bd left f s w h k r =
    parse_bulk-sized bd b'=' (f ++ (b':' ∷ s)) r w (omega (arith, length-append f (b':' ∷ s)))
    ∙ payload-verbatim f s r h
