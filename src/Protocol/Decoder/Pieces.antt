-- ===== src/Protocol/Decoder/Pieces.antt =====
-- The decoder on the pieces of a printed value: its lines, numbers and payloads.
use penguin_redis.Prelude.{
  ℕ, suc, ◌+◌, ◌-◌, ◌^◌, ◌≤◌, ◌<◌, ◌≡◌, refl, Bool, true, false, ◌&&◌, some, List, [], ◌∷◌, ◌++◌,
  ok, ltb, leb, ◌==◌, length, arith, bytes_eq, All, decimal, decimal-digit, digits, digits-decimal,
  length-decimal, length-append, take-length_append, drop-length_append,
}
use penguin_redis.Protocol.Value.{ℤ, pos, negsuc, Value, bulk, bulk_error, integer, verbatim}
use penguin_redis.Protocol.Decoder.{
  Budget, Parser, done, ◌>>=◌, with_len, repeat, line, after_cr, crlf, take_payload, payload,
  parse_bulk, parse_len, len_of, parse_i64, in_range, negate, is_question, counted,
}
use penguin_redis.Protocol.Decoder.Printer.{
  Unbroken, ended, number_text, sized_text, Printable, Sensible,
}

pub line-ended : (s r : List ℕ) → Unbroken s → line (ended s r) ≡ done s r
unfolding line after_cr ◌>>=◌
line-ended [] r h = refl
line-ended (c ∷ s) r h = rw (h.0.0, h.0.1, line-ended s r h.1) refl

digits-Unbroken : (s : List ℕ) → All (λ c. (48 ≤ c) × (c ≤ 57)) s → Unbroken s
digits-Unbroken [] h = tt
digits-Unbroken (c ∷ s) h = ((ground arith, ground arith), digits-Unbroken s h.1)

pub parse_i64-digits :
    (s : List ℕ) (n : ℕ)
    → All (λ c. (48 ≤ c) × (c ≤ 57)) s
    → 0 < length s
    → digits 0 s ≡ some n
    → n < 2 ^ 63
    → parse_i64 s ≡ ok (pos n)
unfolding parse_i64 in_range
parse_i64-digits [] n h l e k = absurd (omega arith)
parse_i64-digits (c ∷ []) n h l e k =
    let minus : c == b'-' ≡ false = ground arith in
    let fits : leb n (2 ^ 63 - 1) ≡ true = ground arith in rw (minus, e, fits) refl
parse_i64-digits (c ∷ d ∷ s) n h l e k =
    let minus : c == b'-' ≡ false = ground arith in
    let fits : leb n (2 ^ 63 - 1) ≡ true = ground arith in rw (minus, e, fits) refl

pub parse_i64-decimal : (n : ℕ) → n < 2 ^ 63 → parse_i64 (decimal 19 n) ≡ ok (pos n)
parse_i64-decimal n h =
    parse_i64-digits (decimal 19 n) n (decimal-digit 19 n) (length-decimal 18 n)
      (digits-decimal 19 n (omega arith)) h

pub parse_len-number :
    (limit n : ℕ) (s : List ℕ)
    → parse_i64 s ≡ ok (pos n)
    → n ≤ limit
    → parse_len limit s ≡ ok (some n)
unfolding parse_len
parse_len-number limit n s e h =
    let within : ltb limit n ≡ false = ground arith in rw (parse_len, e, len_of, within) refl

pub parse_len-decimal :
    (limit n : ℕ) → n ≤ limit → n < 2 ^ 63 → parse_len limit (decimal 19 n) ≡ ok (some n)
parse_len-decimal limit n h k = parse_len-number limit n (decimal 19 n) (parse_i64-decimal n k) h

pub line-decimal : (n : ℕ) (r : List ℕ) → line (ended (decimal 19 n) r) ≡ done (decimal 19 n) r
line-decimal n r = line-ended (decimal 19 n) r (digits-Unbroken (decimal 19 n) (decimal-digit 19 n))

pub is_question-digits : (s : List ℕ) → All (λ c. (48 ≤ c) × (c ≤ 57)) s → is_question s ≡ false
unfolding is_question bytes_eq
is_question-digits [] h = refl
is_question-digits (c ∷ s) h = ground arith

pub take_payload-ended : (s r : List ℕ) → take_payload (length s) (ended s r) ≡ done s r
unfolding take_payload crlf
take_payload-ended s r =
    let long : ltb (length (ended s r)) (length s + 2) ≡ false =
      ground (arith, length-append s (13 ∷ 10 ∷ r)) in
    rw (long, take-length_append s (13 ∷ 10 ∷ r), drop-length_append s (13 ∷ 10 ∷ r)) refl

pub and_false : (a b : Bool) → b ≡ false → (a && b) ≡ false
and_false true b h = h
and_false false b h = refl

pub parse_bulk-sized :
    (bd : Budget) (tag : ℕ) (s r : List ℕ)
    → Sensible bd
    → length s ≤ bd.max_bulk_bytes
    → parse_bulk bd tag (sized_text s r) ≡ payload tag s r
unfolding parse_bulk with_len ◌>>=◌
parse_bulk-sized bd tag s r w h =
    let plain : tag == b'$' && is_question (decimal 19 (length s)) ≡ false =
      and_false (tag == b'$') _
        (is_question-digits (decimal 19 (length s)) (decimal-digit 19 (length s))) in
    rw
      (
        line-decimal (length s) (ended s r),
        plain,
        parse_len-decimal bd.max_bulk_bytes (length s) h (omega arith),
        take_payload-ended s r,
      )
      refl

pub payload-verbatim :
    (f s r : List ℕ) → length f ≡ 3 → payload b'=' (f ++ (b':' ∷ s)) r ≡ done (verbatim f s) r
unfolding payload
payload-verbatim [] s r h = absurd (omega arith)
payload-verbatim (x ∷ []) s r h = absurd (omega arith)
payload-verbatim (x ∷ y ∷ []) s r h = absurd (omega arith)
payload-verbatim (x ∷ y ∷ z ∷ []) s r h = refl
payload-verbatim (x ∷ y ∷ z ∷ c ∷ f) s r h = absurd (omega arith)

pub payload-bulk : (s r : List ℕ) → payload b'$' s r ≡ done (bulk s) r
unfolding payload
payload-bulk [] r = refl
payload-bulk (x ∷ []) r = refl
payload-bulk (x ∷ y ∷ []) r = refl
payload-bulk (x ∷ y ∷ z ∷ []) r = refl
payload-bulk (x ∷ y ∷ z ∷ c ∷ s) r = refl

pub payload-bulk_error : (s r : List ℕ) → payload b'!' s r ≡ done (bulk_error s) r
unfolding payload
payload-bulk_error [] r = refl
payload-bulk_error (x ∷ []) r = refl
payload-bulk_error (x ∷ y ∷ []) r = refl
payload-bulk_error (x ∷ y ∷ z ∷ []) r = refl
payload-bulk_error (x ∷ y ∷ z ∷ c ∷ s) r = refl

pub counted-printed :
    {A : Type 0} (bd : Budget) (p : Parser A) (build : List A → Value) (n : ℕ) (xs : List A)
    (b r : List ℕ)
    → n ≤ bd.max_elements
    → Sensible bd
    → repeat p n b ≡ done xs r
    → counted bd p build (ended (decimal 19 n) b) ≡ done (build xs) r
unfolding counted with_len ◌>>=◌
counted-printed bd p build n xs b r h w e =
    rw
      (
        line-decimal n b,
        is_question-digits (decimal 19 n) (decimal-digit 19 n),
        parse_len-decimal bd.max_elements n h (omega arith),
        e,
      )
      refl

pub parse_i64-negative :
    (s : List ℕ) (n : ℕ)
    → 0 < length s
    → digits 0 s ≡ some (suc n)
    → n < 2 ^ 63
    → parse_i64 (b'-' ∷ s) ≡ ok (negsuc n)
unfolding parse_i64 in_range negate
parse_i64-negative [] n l e k = absurd (omega arith)
parse_i64-negative (c ∷ s) n l e k =
    let fits : leb (suc n) (2 ^ 63) ≡ true = ground arith in rw (e, fits) refl

pub parse_i64-number :
    (bd : Budget) (n : ℤ) → Printable bd (integer n) → parse_i64 (number_text n) ≡ ok n
unfolding Printable
parse_i64-number bd (pos n) h = parse_i64-decimal n h
parse_i64-number bd (negsuc n) h =
    parse_i64-negative (decimal 19 (suc n)) n (length-decimal 18 (suc n))
      (digits-decimal 19 (suc n) (omega arith)) h

pub number-Unbroken : (n : ℤ) → Unbroken (number_text n)
number-Unbroken (pos n) = digits-Unbroken (decimal 19 n) (decimal-digit 19 n)
number-Unbroken (negsuc n) =
    ((refl, refl), digits-Unbroken (decimal 19 (suc n)) (decimal-digit 19 (suc n)))
