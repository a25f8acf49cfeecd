-- ===== src/Protocol/Decoder/Printer.antt =====
-- What a server prints for a value: a reference for crates/pr-protocol/src/decoder.rs.
use penguin_redis.Prelude.{
  ℕ, suc, ◌+◌, ◌^◌, ◌≤◌, ◌<◌, ◌≡◌, true, false, List, ◌∷◌, ◌++◌, ◌==◌, length, codes, All, decimal,
}
use penguin_redis.Protocol.Value.{
  ℤ, pos, negsuc, Value, Values, Pairs, nil, cons, nil_pair, cons_pair, simple, error, bulk, double,
  big_number, bulk_error, integer, null, boolean, verbatim, array, set, push, map_of, attribute,
  NullForm, null_bulk, null_array, null_resp3,
}
use penguin_redis.Protocol.Decoder.{Budget, is_float, is_bignum}
use penguin_redis.Protocol.Decoder.Depth.{count, count_pairs}

-- No line break inside.
abbrev pub Unbroken : List ℕ → Type 0
Unbroken = All (λ c. (c == 13 ≡ false) × (c == 10 ≡ false))

-- A line, in front of what follows it.
abbrev pub ended : List ℕ → List ℕ → List ℕ
ended s r = s ++ (13 ∷ 10 ∷ r)

abbrev pub number_text : ℤ → List ℕ
number_text (pos n) = decimal 19 n
number_text (negsuc n) = b'-' ∷ decimal 19 (suc n)

abbrev pub null_text : NullForm → List ℕ
null_text null_bulk = codes "$-1"
null_text null_array = codes "*-1"
null_text null_resp3 = codes "_"

-- The text of a payload, with its length in front.
abbrev pub sized_text : List ℕ → List ℕ → List ℕ
sized_text s r = ended (decimal 19 (length s)) (ended s r)

-- What a server prints for a value, in front of what follows it.
unfoldable mutual
  unfolding count count_pairs

  pub print : Value → List ℕ → List ℕ
  print (simple s) r = b'+' ∷ ended s r
  print (error s) r = b'-' ∷ ended s r
  print (bulk s) r = b'$' ∷ sized_text s r
  print (double s) r = b',' ∷ ended s r
  print (big_number s) r = b'(' ∷ ended s r
  print (bulk_error s) r = b'!' ∷ sized_text s r
  print (integer n) r = b':' ∷ ended (number_text n) r
  print (null form) r = ended (null_text form) r
  print (boolean true) r = b'#' ∷ ended (codes "t") r
  print (boolean false) r = b'#' ∷ ended (codes "f") r
  print (verbatim f s) r = b'=' ∷ sized_text (f ++ (b':' ∷ s)) r
  print (array vs) r = b'*' ∷ ended (decimal 19 (count vs)) (print_all vs r)
  print (set vs) r = b'~' ∷ ended (decimal 19 (count vs)) (print_all vs r)
  print (push vs) r = b'>' ∷ ended (decimal 19 (count vs)) (print_all vs r)
  print (map_of kvs) r = b'%' ∷ ended (decimal 19 (count_pairs kvs)) (print_pairs kvs r)
  print (attribute kvs v) r =
      b'|' ∷ ended (decimal 19 (count_pairs kvs)) (print_pairs kvs (print v r))

  pub print_all : Values → List ℕ → List ℕ
  print_all nil r = r
  print_all (cons v vs) r = print v (print_all vs r)

  pub print_pairs : Pairs → List ℕ → List ℕ
  print_pairs nil_pair r = r
  print_pairs (cons_pair k v kvs) r = print k (print v (print_pairs kvs r))

-- A value that can be printed: its lines have no breaks, its numbers are what they claim to be,
-- and a payload with a format fits the limit.
unfoldable mutual
  pub Printable : Budget → Value → Type 0
  Printable bd (simple s) = Unbroken s
  Printable bd (error s) = Unbroken s
  Printable bd (double s) = Unbroken s × (is_float s ≡ true)
  Printable bd (big_number s) = Unbroken s × (is_bignum s ≡ true)
  Printable bd (integer (pos n)) = n < 2 ^ 63
  Printable bd (integer (negsuc n)) = n < 2 ^ 63
  Printable bd (verbatim f s) = (length f ≡ 3) × (4 + length s ≤ bd.max_bulk_bytes)
  Printable bd (array vs) = AllPrintable bd vs
  Printable bd (set vs) = AllPrintable bd vs
  Printable bd (push vs) = AllPrintable bd vs
  Printable bd (map_of kvs) = PairsPrintable bd kvs
  Printable bd (attribute kvs v) = PairsPrintable bd kvs × Printable bd v
  Printable bd _ = Unit

  pub AllPrintable : Budget → Values → Type 0
  AllPrintable bd nil = Unit
  AllPrintable bd (cons v vs) = Printable bd v × AllPrintable bd vs

  pub PairsPrintable : Budget → Pairs → Type 0
  PairsPrintable bd nil_pair = Unit
  PairsPrintable bd (cons_pair k v kvs) = Printable bd k × Printable bd v × PairsPrintable bd kvs

-- The limits that the numbers of the protocol can express.
abbrev pub Sensible : Budget → Type 0
Sensible bd = (bd.max_bulk_bytes < 2 ^ 63) × (bd.max_elements < 2 ^ 63)
