-- ===== src/Repl/Quoting.antt =====
-- crates/pr-repl/src/quoting.rs: `split_args`, the tokenizer of an input line, and `quote`.
--
-- The source walks the line by an index. Here the loops walk the bytes that are left, and carry
-- the index for the spans. `step` is one round of the inner loop: it leaves the loop (`stop`),
-- returns an error (`fail`), or goes on in a mode (`go`), after so many bytes. The two Booleans
-- `inside_double` and `inside_single` are never both true: they are the three values of `Mode`.
-- The loops run on fuel, and `none` says that it ran out; `split_args` gives both loops one
-- round more than the line has bytes, and every round but the last takes a byte. An index is
-- at most the length of a slice, so no `usize` wraps.
pub mod Step
pub mod Total
pub mod Spans
pub mod Quoted
pub mod RoundTrip
mod Examples
use penguin_redis.Prelude.{
  hex_digit, ℕ, zero, suc, ◌+◌, ◌-◌, ◌*◌, ◌/◌, ◌%◌, Bool, true, false, not, ◌&&◌, ◌||◌, Option,
  none, some, List, [], ◌∷◌, ◌++◌, Result, ok, err, ltb, leb, ◌==◌, if◌then◌else◌, length, drop,
  is_ascii_whitespace,
}

pub data TokenizeError : Type 0 where
  unbalanced_quotes quote_not_followed_by_space : TokenizeError

pub record Token : Type 0 where
  pub bytes : List ℕ
  pub start : ℕ
  pub stop : ℕ

unfoldable pub hex : ℕ → Option ℕ
hex c =
    if leb b'0' c && leb c b'9'
    then some (c - b'0')
    else if leb b'a' c && leb c b'f'
    then some (c - b'a' + 10)
    else if leb b'A' c && leb c b'F'
    then some (c - b'A' + 10)
    else none

pub data Mode : Type 0 where
  plain double single : Mode

pub data Move : Type 0 where
  stop : ℕ → Move
  fail : TokenizeError → Move
  go : Mode → ℕ → List ℕ → Move

-- The two digits of a `\xHH` whose backslash stands before `e`.
pair : Option ℕ → Option ℕ → Option ℕ
pair (some h) (some l) = some (h * 16 + l)
pair _ _ = none

pub hex_pair : ℕ → List ℕ → Option ℕ
unfolding hex pair
hex_pair e (h ∷ l ∷ r) = if e == b'x' then pair (hex h) (hex l) else none
hex_pair e _ = none

pub unescape : ℕ → ℕ
unescape e =
    if e == b'n'
    then 10
    else if e == b'r'
    then 13
    else if e == b't'
    then 9
    else if e == b'b'
    then 8
    else if e == b'a'
    then 7
    else e

-- What follows a backslash inside double quotes.
pub escape : List ℕ → Move
escape [] = fail unbalanced_quotes
escape (e ∷ r) = elim (hex_pair e r) [
  | some b ↦ go double 4 (b ∷ [])
  | none ↦ go double 2 (unescape e ∷ [])
]

-- What follows a closing quote.
pub closes : List ℕ → Move
closes [] = stop 1
closes (n ∷ r) = if is_ascii_whitespace n then stop 1 else fail quote_not_followed_by_space

pub starts_with_quote : List ℕ → Bool
starts_with_quote [] = false
starts_with_quote (c ∷ r) = c == b'\''

unfoldable pub step : Mode → List ℕ → Move
step plain [] = stop 0
step plain (c ∷ r) =
    if is_ascii_whitespace c
    then stop 0
    else if c == b'"'
    then go double 1 []
    else if c == b'\''
    then go single 1 []
    else go plain 1 (c ∷ [])
step double [] = fail unbalanced_quotes
step double (c ∷ r) =
    if c == b'\\' then escape r else if c == b'"' then closes r else go double 1 (c ∷ [])
step single [] = fail unbalanced_quotes
step single (c ∷ r) =
    if c == b'\\' && starts_with_quote r
    then go single 2 (b'\'' ∷ [])
    else if c == b'\''
    then closes r
    else go single 1 (c ∷ [])

-- What the inner loop leaves: the bytes of the token, the index behind it, the bytes left.
pub record Scanned : Type 0 where
  pub bytes : List ℕ
  pub stop : ℕ
  pub rest : List ℕ

unfoldable pub scan : ℕ → Mode → List ℕ → ℕ → List ℕ → Option (Result TokenizeError Scanned)
scan zero m line i cur = none
scan (suc f) m line i cur = elim (step m line) [
  | stop n ↦ some (ok (record { bytes = cur; stop = i + n; rest = drop n line }))
  | fail e ↦ some (err e)
  | go m' n out ↦ scan f m' (drop n line) (i + n) (cur ++ out)
]

-- How many bytes of white space the line begins with.
unfoldable pub blanks : List ℕ → ℕ
blanks [] = 0
blanks (c ∷ r) = if is_ascii_whitespace c then suc (blanks r) else 0

unfoldable pub tokens : ℕ → ℕ → List ℕ → ℕ → List Token → Option (Result TokenizeError (List Token))
unfolding blanks
tokens zero inner line i out = none
tokens (suc f) inner line i out = elim (drop (blanks line) line) [
  | [] ↦ some (ok out)
  | c ∷ r ↦ elim (scan inner plain (c ∷ r) (i + blanks line) []) [
    | none ↦ none
    | some (err e) ↦ some (err e)
    | some (ok s) ↦
        tokens f inner s.rest s.stop
          (out ++ record { bytes = s.bytes; start = i + blanks line; stop = s.stop } ∷ [])
  ]
]

unfoldable pub split_args : List ℕ → Option (Result TokenizeError (List Token))
unfolding tokens scan step escape closes starts_with_quote is_ascii_whitespace hex_pair unescape
split_args line = tokens (suc (length line)) (suc (length line)) line 0 []

unfoldable pub is_incomplete : List ℕ → Bool
unfolding split_args
is_incomplete line = elim (split_args line) [ some (err unbalanced_quotes) ↦ true | _ ↦ false ]

-- A byte as `quote` writes it between double quotes.
unfoldable pub quote_byte : ℕ → List ℕ
unfolding hex_digit
quote_byte c =
    if c == b'\\'
    then b'\\' ∷ b'\\' ∷ []
    else if c == b'"'
    then b'\\' ∷ b'"' ∷ []
    else if c == 10
    then b'\\' ∷ b'n' ∷ []
    else if c == 13
    then b'\\' ∷ b'r' ∷ []
    else if c == 9
    then b'\\' ∷ b't' ∷ []
    else if c == 7
    then b'\\' ∷ b'a' ∷ []
    else if c == 8
    then b'\\' ∷ b'b' ∷ []
    else if leb 0x20 c && leb c 0x7e
    then c ∷ []
    else b'\\' ∷ b'x' ∷ hex_digit (c / 16) ∷ hex_digit (c % 16) ∷ []

unfoldable pub quote_bytes : List ℕ → List ℕ
unfolding quote_byte
quote_bytes [] = []
quote_bytes (c ∷ r) = quote_byte c ++ quote_bytes r

-- Printable, and none of the two quotes and the backslash.
pub is_simple_byte : ℕ → Bool
is_simple_byte c = leb 0x21 c && leb c 0x7e && not (c == b'"' || c == b'\'' || c == b'\\')

pub all_simple : List ℕ → Bool
unfolding is_simple_byte
all_simple [] = true
all_simple (c ∷ r) = is_simple_byte c && all_simple r

pub is_simple : List ℕ → Bool
unfolding all_simple
is_simple [] = false
is_simple (c ∷ r) = all_simple (c ∷ r)

unfoldable pub quote : List ℕ → List ℕ
unfolding is_simple quote_bytes
quote arg = if is_simple arg then arg else b'"' ∷ (quote_bytes arg ++ b'"' ∷ [])
