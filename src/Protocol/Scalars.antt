-- ===== src/Protocol/Scalars.antt =====
-- crates/pr-protocol/src/decoder.rs: the numbers of the protocol.
--
-- `str::parse::<i64>` and `str::parse::<f64>` are the standard library's: `parse_i64` and
-- `is_float` are their documented grammars, which hold no byte outside ASCII. The texts of the
-- errors are not modelled.
use penguin_redis.Prelude.{
  ℕ, zero, suc, ◌+◌, ◌-◌, ◌^◌, Bool, true, false, ◌&&◌, ◌||◌, Option, none, some, List, [], ◌∷◌,
  Result, ok, err, ltb, leb, ◌==◌, if◌then◌else◌, length, codes, bytes_eq, is_digit, digits,
}
use penguin_redis.Protocol.Value.{ℤ, pos, negsuc}

pub data DecodeError : Type 0 where
  protocol budget : DecodeError

unfoldable pub negate : ℕ → ℤ
negate zero = pos zero
negate (suc n) = negsuc n

-- A magnitude up to `limit`.
unfoldable pub in_range : ℕ → (ℕ → ℤ) → Option ℕ → Result {0, 0} DecodeError ℤ
in_range limit sign none = err protocol
in_range limit sign (some n) = if leb n limit then ok (sign n) else err protocol

unfoldable pub parse_i64 : List ℕ → Result {0, 0} DecodeError ℤ
unfolding in_range negate digits
parse_i64 [] = err protocol
parse_i64 (c ∷ []) =
    if c == b'-' then err protocol else in_range (2 ^ 63 - 1) pos (digits 0 (c ∷ []))
parse_i64 (c ∷ d ∷ ds) =
    if c == b'-'
    then in_range (2 ^ 63) negate (digits 0 (d ∷ ds))
    else in_range (2 ^ 63 - 1) pos (digits 0 (c ∷ d ∷ ds))

-- The length, or the null form, that a number claims.
unfoldable pub len_of : ℕ → ℤ → Result {0, 0} DecodeError (Option ℕ)
len_of cap (negsuc zero) = ok none
len_of cap (negsuc (suc n)) = err protocol
len_of cap (pos n) = if ltb cap n then err budget else ok (some n)

-- `parse_len`, whose `what` chooses the limit `cap`.
unfoldable pub parse_len : ℕ → List ℕ → Result {0, 0} DecodeError (Option ℕ)
unfolding parse_i64 len_of
parse_len cap s = elim (parse_i64 s) [ ok n ↦ len_of cap n | err e ↦ err e ]

-- How many digits a text begins with, and what is behind them.
unfoldable pub skip_digits : List ℕ → ℕ × List ℕ
skip_digits [] = (0, [])
skip_digits (c ∷ s) =
    let rest = skip_digits s in if is_digit c then (suc rest.0, rest.1) else (0, c ∷ s)

unfoldable pub skip_sign : List ℕ → List ℕ
skip_sign [] = []
skip_sign (c ∷ s) = if c == b'+' || c == b'-' then s else c ∷ s

unfoldable pub lower : List ℕ → List ℕ
lower [] = []
lower (c ∷ s) = (if leb b'A' c && leb c b'Z' then c + 32 else c) ∷ lower s

unfoldable pub is_exponent : List ℕ → Bool
is_exponent [] = true
is_exponent (c ∷ s) =
    let e = skip_digits (skip_sign s) in c == b'e' && ltb 0 e.0 && leb (length e.1) 0

-- Behind the digits before the point, `n` of them.
unfoldable pub is_fraction : ℕ → List ℕ → Bool
is_fraction n [] = ltb 0 n
is_fraction n (c ∷ s) =
    let f = skip_digits s in
    if c == b'.' then ltb 0 (n + f.0) && is_exponent f.1 else ltb 0 n && is_exponent (c ∷ s)

unfoldable pub is_float : List ℕ → Bool
unfolding skip_digits skip_sign lower is_exponent is_fraction bytes_eq is_digit
is_float s =
    let t = skip_sign (lower s) in
    let d = skip_digits t in
    bytes_eq t (codes "inf")
    || bytes_eq t (codes "infinity")
    || bytes_eq t (codes "nan")
    || is_fraction d.0 d.1

unfoldable pub all_digits : List ℕ → Bool
all_digits [] = true
all_digits (c ∷ s) = is_digit c && all_digits s

-- `validate_bignum`, behind the sign.
unfoldable pub is_bignum_body : List ℕ → Bool
is_bignum_body [] = false
is_bignum_body (c ∷ s) = all_digits (c ∷ s)

unfoldable pub is_bignum : List ℕ → Bool
unfolding is_bignum_body all_digits is_digit
is_bignum [] = false
is_bignum (c ∷ s) = if c == b'-' then is_bignum_body s else is_bignum_body (c ∷ s)
