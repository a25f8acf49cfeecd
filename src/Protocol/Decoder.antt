-- ===== src/Protocol/Decoder.antt =====
-- crates/pr-protocol/src/decoder.rs: the incremental, bounded RESP decoder.
--
-- `parse_value` moves a position over a buffer; here a parser takes the bytes from that position
-- on and returns the bytes behind what it took. A position that is put back before "not enough
-- bytes" is seen by no caller, so `need_more` carries none. The recursion is on the depth left,
-- `max_depth - depth`. The texts of the errors are not modelled.
--
-- The two loops of the streamed forms run on fuel, one round more than there are bytes, and
-- `out_of_fuel` says that it was too little.
pub mod Parsers
pub mod Stable
pub mod Draining
pub mod Feeding
pub mod Ends
pub mod Yields
pub mod Depth
pub mod Printer
pub mod Pieces
pub mod Kinds
pub mod Printed
mod Examples
use penguin_redis.Prelude.{
  ℕ, zero, suc, ◌+◌, ◌-◌, ◌*◌, ◌^◌, Bool, true, false, not, ◌&&◌, ◌||◌, Option, none, some, List,
  [], ◌∷◌, ◌++◌, Result, ok, err, ltb, leb, ◌==◌, if◌then◌else◌, length, take, drop, codes,
  bytes_eq, is_digit, digits,
}
use penguin_redis.Protocol.Value.{
  ℤ, pos, negsuc, Value, simple, error, integer, bulk, null, array, boolean, double, big_number,
  bulk_error, verbatim, map_of, set, attribute, push, null_bulk, null_array, null_resp3, to_values,
  to_pairs,
}
pub use penguin_redis.Protocol.Scalars.{DecodeError, protocol, budget}
unfoldable pub use penguin_redis.Protocol.Scalars.{
  negate, in_range, parse_i64, len_of, parse_len, skip_digits, skip_sign, lower, is_exponent,
  is_fraction, is_float, all_digits, is_bignum_body, is_bignum,
}

pub record Budget : Type 0 where
  pub max_depth : ℕ
  pub max_elements : ℕ
  pub max_bulk_bytes : ℕ
  pub max_frame_bytes : ℕ

abbrev pub default_budget : Budget
default_budget = record {
  max_depth = 64;
  max_elements = 1024 * 1024;
  max_bulk_bytes = 16 * 1024 * 1024;
  max_frame_bytes = 64 * 1024 * 1024;
}

-- What a parser makes of the bytes it is given.
pub data Parsed {ℓ} (A : Type ℓ) : Type ℓ where
  done : A → List ℕ → Parsed A
  need_more out_of_fuel : Parsed A
  failed : DecodeError → Parsed A

abbrev pub Parser {ℓ} : Type ℓ → Type ℓ
Parser A = List ℕ → Parsed A

infixl 20 ◌>>=◌
unfoldable pub ◌>>=◌ {ℓ κ} : {A : Type ℓ} {B : Type κ} → Parsed A → (A → Parser B) → Parsed B
done a r >>= k = k a r
need_more >>= k = need_more
out_of_fuel >>= k = out_of_fuel
failed e >>= k = failed e

-- Behind a carriage return.
unfoldable pub after_cr : Parser (List ℕ)
after_cr [] = need_more
after_cr (c ∷ b) = if c == 10 then done [] b else failed protocol

-- `line`, with `scan_line`.
unfoldable pub line : Parser (List ℕ)
unfolding after_cr
line [] = need_more
line (c ∷ b) =
    if c == 13
    then after_cr b
    else if c == 10
    then failed protocol
    else line b >>= λ s r. done (c ∷ s) r

-- The CRLF that closes a payload of a declared length.
unfoldable pub crlf : List ℕ → Parser (List ℕ)
crlf data' (c ∷ d ∷ r) = if c == 13 && d == 10 then done data' r else failed protocol
crlf data' _ = failed protocol

unfoldable pub take_payload : ℕ → Parser (List ℕ)
unfolding crlf
take_payload n b = if ltb (length b) (n + 2) then need_more else crlf (take n b) (drop n b)

unfoldable pub is_question : List ℕ → Bool
is_question s = bytes_eq s (b'?' ∷ [])

unfoldable pub with_len {ℓ} :
    {A : Type ℓ} → Result {0, 0} DecodeError (Option ℕ) → Parsed A → (ℕ → Parsed A) → Parsed A
with_len (err e) nothing k = failed e
with_len (ok none) nothing k = nothing
with_len (ok (some n)) nothing k = k n

-- The chunks of a streamed bulk string.
unfoldable pub chunks : Budget → ℕ → List ℕ → Parser (List ℕ)
chunks bd zero out b = out_of_fuel
chunks bd (suc f) out [] = need_more
chunks bd (suc f) out (c ∷ b) =
    if not (c == b';')
    then failed protocol
    else line b >>= λ hdr r. with_len (parse_len bd.max_bulk_bytes hdr) (failed protocol) λ n.
      if n == 0
      then done out r
      else if ltb bd.max_bulk_bytes (length out + n)
      then failed budget
      else take_payload n r >>= λ chunk r'. chunks bd f (out ++ chunk) r'

-- The payload of `$`, `!` or `=`.
unfoldable pub payload : ℕ → List ℕ → Parser Value
payload tag (x ∷ y ∷ z ∷ c ∷ data') b =
    if tag == b'$'
    then done (bulk (x ∷ y ∷ z ∷ c ∷ data')) b
    else if tag == b'!'
    then done (bulk_error (x ∷ y ∷ z ∷ c ∷ data')) b
    else if c == b':'
    then done (verbatim (x ∷ y ∷ z ∷ []) data') b
    else failed protocol
payload tag data' b =
    if tag == b'$'
    then done (bulk data') b
    else if tag == b'!'
    then done (bulk_error data') b
    else failed protocol

unfoldable pub parse_bulk : Budget → ℕ → Parser Value
unfolding chunks payload take_payload line parse_len with_len is_question
parse_bulk bd tag b = line b >>= λ hdr r.
    if tag == b'$' && is_question hdr
    then (chunks bd (suc (length r)) [] r >>= λ out r'. done (bulk out) r')
    else with_len (parse_len bd.max_bulk_bytes hdr) (done (null null_bulk) r)
        λ n. take_payload n r >>= payload tag

-- `n` elements one after the other.
unfoldable pub repeat {ℓ} : {A : Type ℓ} → Parser A → ℕ → Parser (List A)
repeat p zero b = done [] b
repeat p (suc n) b = p b >>= λ x r. repeat p n r >>= λ xs r'. done (x ∷ xs) r'

unfoldable pub pair {ℓ} : {A : Type ℓ} → Parser A → Parser (A × A)
pair p b = p b >>= λ k r. p r >>= λ v r'. done (k, v) r'

-- The elements of a streamed aggregate, up to its terminator.
unfoldable pub until {ℓ} : {A : Type ℓ} → Budget → Parser A → ℕ → List A → Parser (List A)
until bd p zero out b = out_of_fuel
until bd p (suc f) out [] = need_more
until bd p (suc f) out (c ∷ b) =
    if c == b'.'
    then (line b >>= λ l r. if leb (length l) 0 then done out r else failed protocol)
    else p (c ∷ b) >>= λ x r.
        if ltb bd.max_elements (length (out ++ x ∷ []))
        then failed budget
        else until bd p f (out ++ x ∷ []) r

unfoldable pub counted {ℓ} : {A : Type ℓ} → Budget → Parser A → (List A → Value) → Parser Value
unfolding repeat until line is_question with_len parse_len
counted bd p build b = line b >>= λ hdr r.
    if is_question hdr
    then (until bd p (suc (length r)) [] r >>= λ items r'. done (build items) r')
    else with_len (parse_len bd.max_elements hdr) (done (null null_array) r)
        λ n. repeat p n r >>= λ items r'. done (build items) r'

unfoldable pub parse_attribute : Budget → Parser Value → Parser Value
unfolding repeat pair line with_len parse_len
parse_attribute bd p b = line b >>= λ hdr r.
    with_len (parse_len bd.max_elements hdr) (failed protocol) λ n.
      repeat (pair p) n r >>= λ attrs r'. p r' >>= λ v r''. done (attribute (to_pairs attrs) v) r''

unfoldable pub parse_boolean : List ℕ → Parser Value
parse_boolean l r =
    if bytes_eq l (b't' ∷ [])
    then done (boolean true) r
    else if bytes_eq l (b'f' ∷ [])
    then done (boolean false) r
    else failed protocol

unfoldable pub parse_integer : List ℕ → Parser Value
unfolding parse_i64
parse_integer l r = elim (parse_i64 l) [ ok n ↦ done (integer n) r | err e ↦ failed e ]

unfoldable pub checked : Bool → Value → Parser Value
checked true v r = done v r
checked false v r = failed protocol

-- The `match` on the type byte; `p` parses a value one level deeper.
unfoldable pub parse_tagged : Budget → Parser Value → ℕ → Parser Value
unfolding parse_bulk counted parse_attribute parse_boolean parse_integer checked is_bignum is_float
    pair line
parse_tagged bd p tag b =
    if tag == b'+'
    then (line b >>= λ l r. done (simple l) r)
    else if tag == b'-'
    then (line b >>= λ l r. done (error l) r)
    else if tag == b':'
    then (line b >>= parse_integer)
    else if tag == b'#'
    then (line b >>= parse_boolean)
    else if tag == b'_'
    then (line b >>= λ l r. checked (leb (length l) 0) (null null_resp3) r)
    else if tag == b','
    then (line b >>= λ l r. checked (is_float l) (double l) r)
    else if tag == b'('
    then (line b >>= λ l r. checked (is_bignum l) (big_number l) r)
    else if tag == b'$' || tag == b'!' || tag == b'='
    then parse_bulk bd tag b
    else if tag == b'*'
    then counted bd p (λ items. array (to_values items)) b
    else if tag == b'~'
    then counted bd p (λ items. set (to_values items)) b
    else if tag == b'>'
    then counted bd p (λ items. push (to_values items)) b
    else if tag == b'%'
    then counted bd (pair p) (λ items. map_of (to_pairs items)) b
    else if tag == b'|'
    then parse_attribute bd p b
    else failed protocol

-- `parse_value` with `left` levels to go.
unfoldable pub parse_value : Budget → ℕ → Parser Value
unfolding parse_tagged
parse_value bd zero b = failed budget
parse_value bd (suc left) [] = need_more
parse_value bd (suc left) (tag ∷ b) = parse_tagged bd (parse_value bd left) tag b

pub record Decoder : Type 0 where
  pub buf : List ℕ
  pub limits : Budget

pub data Step : Type 0 where
  value : Value → Step
  incomplete : Step

unfoldable pub new : Budget → Decoder
new bd = record { buf = []; limits = bd }

unfoldable pub feed : Decoder → List ℕ → Decoder
feed d bytes = record d { buf = d.buf ++ bytes }

-- What `decode` returns, with the decoder behind it. `none` is the model's: out of fuel.
unfoldable pub stepped : Decoder → Parsed Value → Option (Result {0, 0} DecodeError Step × Decoder)
stepped d (done v r) = some (ok (value v), record d { buf = r })
stepped d need_more = some (ok incomplete, d)
stepped d (failed e) = some (err e, d)
stepped d out_of_fuel = none

unfoldable pub decode : Decoder → Option (Result {0, 0} DecodeError Step × Decoder)
unfolding stepped parse_value
decode d =
    if ltb d.limits.max_frame_bytes (length d.buf)
    then some (err budget, d)
    else stepped d (parse_value d.limits d.limits.max_depth d.buf)
