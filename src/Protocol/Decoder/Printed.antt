-- ===== src/Protocol/Decoder/Printed.antt =====
-- `parse_value` on what a server prints.
use penguin_redis.Prelude.{ℕ, zero, suc, ◌≤◌, ◌≡◌, refl, List, arith}
use penguin_redis.Protocol.Value.{
  Value, Values, Pairs, nil, cons, nil_pair, cons_pair, simple, error, bulk, double, big_number,
  bulk_error, integer, null, boolean, verbatim, array, set, push, map_of, attribute, depth,
  max_depth, max_depth_pairs,
}
use penguin_redis.Protocol.Decoder.{Budget, done, ◌>>=◌, repeat, pair, parse_value}
use penguin_redis.Protocol.Decoder.Depth.{count, count_pairs, Sized, AllSized, PairsSized}
use penguin_redis.Protocol.Decoder.Printer.{
  print, print_all, print_pairs, Printable, AllPrintable, PairsPrintable, Sensible,
}
use penguin_redis.Protocol.Decoder.Kinds.{
  depth-pos, Parses, AllParse, PairsParse, array-Parses, set-Parses, push-Parses, map_of-Parses,
  attribute-Parses, simple-Parses, error-Parses, double-Parses, big_number-Parses, integer-Parses,
  bulk-Parses, bulk_error-Parses, boolean-Parses, null-Parses, verbatim-Parses,
}

cons-AllParse :
    (bd : Budget) (left : ℕ) (v : Value) (vs : Values)
    → Parses bd left v
    → AllParse bd left vs
    → AllParse bd left (cons v vs)
unfolding print repeat count ◌>>=◌
cons-AllParse bd left v vs h k r = rw (h (print_all vs r), k r) refl

cons_pair-PairsParse :
    (bd : Budget) (left : ℕ) (k v : Value) (kvs : Pairs)
    → Parses bd left k
    → Parses bd left v
    → PairsParse bd left kvs
    → PairsParse bd left (cons_pair k v kvs)
unfolding print repeat pair count_pairs ◌>>=◌
cons_pair-PairsParse bd left k v kvs h i j r =
    rw (h (print v (print_pairs kvs r)), i (print_pairs kvs r), j r) refl

nil-AllParse : (bd : Budget) (left : ℕ) → AllParse bd left nil
unfolding print repeat count
nil-AllParse bd left r = refl

nil_pair-PairsParse : (bd : Budget) (left : ℕ) → PairsParse bd left nil_pair
unfolding print repeat count_pairs
nil_pair-PairsParse bd left r = refl

mutual
  unfolding depth max_depth max_depth_pairs Sized AllSized PairsSized Printable AllPrintable
      PairsPrintable

  value-Parses :
      (bd : Budget) (v : Value)
      → Sensible bd
      → (left : ℕ) → depth v ≤ left
      → Sized bd v
      → Printable bd v
      → Parses bd left v
  value-Parses bd v w zero d z h = absurd (omega (arith, depth-pos v))
  value-Parses bd (simple s) w (suc left) d z h = simple-Parses bd left s h
  value-Parses bd (error s) w (suc left) d z h = error-Parses bd left s h
  value-Parses bd (bulk s) w (suc left) d z h = bulk-Parses bd left s w z
  value-Parses bd (double s) w (suc left) d z h = double-Parses bd left s h.0 h.1
  value-Parses bd (big_number s) w (suc left) d z h = big_number-Parses bd left s h.0 h.1
  value-Parses bd (bulk_error s) w (suc left) d z h = bulk_error-Parses bd left s w z
  value-Parses bd (integer n) w (suc left) d z h = integer-Parses bd left n h
  value-Parses bd (null f) w (suc left) d z h = null-Parses bd left f
  value-Parses bd (boolean t) w (suc left) d z h = boolean-Parses bd left t
  value-Parses bd (verbatim f s) w (suc left) d z h = verbatim-Parses bd left f s w h.0 h.1
  value-Parses bd (array vs) w (suc left) d z h =
      array-Parses bd left vs w z.0 (values-Parse bd vs w left (omega arith) z.1 h)
  value-Parses bd (set vs) w (suc left) d z h =
      set-Parses bd left vs w z.0 (values-Parse bd vs w left (omega arith) z.1 h)
  value-Parses bd (push vs) w (suc left) d z h =
      push-Parses bd left vs w z.0 (values-Parse bd vs w left (omega arith) z.1 h)
  value-Parses bd (map_of kvs) w (suc left) d z h =
      map_of-Parses bd left kvs w z.0 (pairs-Parse bd kvs w left (omega arith) z.1 h)
  value-Parses bd (attribute kvs v) w (suc left) d z h =
      attribute-Parses bd left kvs v w z.0 (pairs-Parse bd kvs w left (omega arith) z.1 h.0)
        (value-Parses bd v w left (omega arith) z.2 h.1)

  values-Parse :
      (bd : Budget) (vs : Values)
      → Sensible bd
      → (left : ℕ) → max_depth vs ≤ left
      → AllSized bd vs
      → AllPrintable bd vs
      → AllParse bd left vs
  values-Parse bd nil w left d z h = nil-AllParse bd left
  values-Parse bd (cons v vs) w left d z h =
      cons-AllParse bd left v vs (value-Parses bd v w left (omega arith) z.0 h.0)
        (values-Parse bd vs w left (omega arith) z.1 h.1)

  pairs-Parse :
      (bd : Budget) (kvs : Pairs)
      → Sensible bd
      → (left : ℕ) → max_depth_pairs kvs ≤ left
      → PairsSized bd kvs
      → PairsPrintable bd kvs
      → PairsParse bd left kvs
  pairs-Parse bd nil_pair w left d z h = nil_pair-PairsParse bd left
  pairs-Parse bd (cons_pair k v kvs) w left d z h =
      cons_pair-PairsParse bd left k v kvs (value-Parses bd k w left (omega arith) z.0 h.0)
        (value-Parses bd v w left (omega arith) z.1 h.1)
        (pairs-Parse bd kvs w left (omega arith) z.2 h.2)

-- A value is read back from what a server prints for it, and what follows is left as it was, when
-- the value is within the levels and the limits, and can be printed.
pub parse_value-print :
    (bd : Budget) (left : ℕ) (v : Value) (r : List ℕ)
    → Sensible bd
    → depth v ≤ left
    → Sized bd v
    → Printable bd v
    → parse_value bd left (print v r) ≡ done v r
parse_value-print bd left v r w d z h = value-Parses bd v w left d z h r
