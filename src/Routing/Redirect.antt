-- ===== src/Routing/Redirect.antt =====
-- crates/pr-routing/src/slot.rs: MOVED and ASK redirects.
--
-- A text is a list of characters. `split_whitespace`, `split_once`, `rsplit_once` and the parsing of
-- a `u16` are the standard library's, as documented: a number may begin with a plus sign.
pub mod Printed
mod Examples
use penguin_redis.Prelude.{
  ℕ, zero, suc, ◌+◌, Bool, true, false, ◌&&◌, ◌||◌, Option, none, some, List, [], ◌∷◌, ◌++◌, ltb,
  leb, ◌==◌, if◌then◌else◌, codes, bytes_eq, digits,
}

infixl 5 ◌>>=◌
abbrev ◌>>=◌ {ℓ κ} : {A : Type ℓ} {B : Type κ} → Option A → (A → Option B) → Option B
none >>= f = none
some a >>= f = f a

pub record Redirect : Type 0 where
  pub ask : Bool
  pub slot : ℕ
  pub host : List ℕ
  pub port : ℕ

-- `char::is_whitespace`.
unfoldable pub is_whitespace : ℕ → Bool
is_whitespace c =
    (leb 9 c && leb c 13)
    || c == 32
    || c == 0x85
    || c == 0xA0
    || c == 0x1680
    || (leb 0x2000 c && leb c 0x200A)
    || c == 0x2028
    || c == 0x2029
    || c == 0x202F
    || c == 0x205F
    || c == 0x3000

unfoldable pub skip_whitespace : List ℕ → List ℕ
unfolding is_whitespace
skip_whitespace [] = []
skip_whitespace (c ∷ s) = let rest = skip_whitespace s in if is_whitespace c then rest else c ∷ s

-- What stands before the first whitespace, and the rest.
unfoldable pub take_word : List ℕ → List ℕ × List ℕ
unfolding is_whitespace
take_word [] = ([], [])
take_word (c ∷ s) =
    let rest = take_word s in if is_whitespace c then ([], c ∷ s) else (c ∷ rest.0, rest.1)

unfoldable pub word : List ℕ → Option (List ℕ × List ℕ)
unfolding take_word
word [] = none
word (c ∷ s) = some (take_word (c ∷ s))

-- `parts.next()`: the next word of a text, and what is behind it.
unfoldable pub next_word : List ℕ → Option (List ℕ × List ℕ)
unfolding skip_whitespace word
next_word s = word (skip_whitespace s)

unfoldable pub in_u16 : Option ℕ → Option ℕ
in_u16 none = none
in_u16 (some n) = if leb n 65_535 then some n else none

unfoldable pub parse_u16 : List ℕ → Option ℕ
unfolding in_u16 digits
parse_u16 [] = none
parse_u16 (c ∷ []) = in_u16 (digits 0 (c ∷ []))
parse_u16 (c ∷ d ∷ s) =
    if c == b'+' then in_u16 (digits 0 (d ∷ s)) else in_u16 (digits 0 (c ∷ d ∷ s))

-- `split_once("]:")`.
unfoldable pub split_bracket : List ℕ → Option (List ℕ × List ℕ)
split_bracket [] = none
split_bracket (c ∷ []) = none
split_bracket (c ∷ d ∷ s) =
    let rest = split_bracket (d ∷ s) in
    if c == b']' && d == b':' then some ([], s) else (rest >>= λ p. some (c ∷ p.0, p.1))

-- `rsplit_once(':')`.
unfoldable pub rsplit_colon : List ℕ → Option (List ℕ × List ℕ)
rsplit_colon [] = none
rsplit_colon (c ∷ s) = elim (rsplit_colon s) [
  | some p ↦ some (c ∷ p.0, p.1)
  | none ↦ if c == b':' then some ([], s) else none
]

-- The host and the port of an address.
unfoldable pub split_address : List ℕ → Option (List ℕ × List ℕ)
unfolding split_bracket rsplit_colon
split_address [] = none
split_address (c ∷ s) = if c == b'[' then split_bracket s else rsplit_colon (c ∷ s)

unfoldable pub is_ask : List ℕ → Option Bool
unfolding bytes_eq
is_ask kind =
    if bytes_eq kind (codes "ASK")
    then some true
    else if bytes_eq kind (codes "MOVED")
    then some false
    else none

unfoldable pub parse_redirect : List ℕ → Option Redirect
unfolding next_word is_ask parse_u16 split_address
parse_redirect text = do
  kind ← next_word text
  asks ← is_ask kind.0
  number ← next_word kind.1
  slot_number ← parse_u16 number.0
  address ← next_word number.1
  parts ← split_address address.0
  port_number ← parse_u16 parts.1
  some (record { ask = asks; slot = slot_number; host = parts.0; port = port_number })
