-- ===== src/Repl/Text.antt =====
-- crates/pr-repl/src/buffer.rs: the text of the line buffer, and its graphemes.
--
-- A `String` is a list of characters, each a number, and an offset into it is a number of bytes, as
-- in the source. A slice at an offset that is no character boundary, or out of range, is a panic:
-- `none`. So is the subtraction of `prev_grapheme` at 0 (without overflow checks it wraps around,
-- and the search then runs down from 2^64).
pub mod Parts
pub mod Graphemes
pub mod Joiners
mod Examples
use penguin_redis.Prelude.{
  ℕ, zero, suc, ◌+◌, ◌-◌, ◌*◌, Bool, true, false, ◌&&◌, ◌||◌, Option, none, some, List, [], ◌∷◌,
  ◌++◌, ltb, leb, ◌==◌, if◌then◌else◌,
}
unfoldable pub use penguin_redis.Prelude.{is_some}

infixl 5 ◌>>=◌
abbrev pub ◌>>=◌ {ℓ κ} : {A : Type ℓ} {B : Type κ} → Option A → (A → Option B) → Option B
none >>= f = none
some a >>= f = f a

-- `char::len_utf8`.
unfoldable pub len_utf8 : ℕ → ℕ
len_utf8 c = if ltb c 128 then 1 else if ltb c 2048 then 2 else if ltb c 65536 then 3 else 4

-- `str::len`.
unfoldable pub byte_len : List ℕ → ℕ
byte_len [] = 0
byte_len (c ∷ s) = len_utf8 c + byte_len s

-- `str::split_at`: what stands before an offset and what from it on.
unfoldable pub cut : ℕ → List ℕ → Option (List ℕ × List ℕ)
unfolding len_utf8
cut zero s = some ([], s)
cut (suc n) [] = none
cut (suc n) (c ∷ s) =
    let rest = cut (suc n - len_utf8 c) s in
    if leb (len_utf8 c) (suc n) then (rest >>= λ p. some (c ∷ p.0, p.1)) else none

-- `&s[from..to]`, and the text with it replaced by `new`: `String::replace_range`.
unfoldable pub splice : ℕ → ℕ → List ℕ → List ℕ → Option (List ℕ × List ℕ)
unfolding cut
splice from to new s = do
  outer ← cut to s
  inner ← cut from outer.0
  some (inner.1, inner.0 ++ (new ++ outer.1))

unfoldable pub is_boundary : List ℕ → ℕ → Bool
unfolding cut is_some
is_boundary s i = i == byte_len s || is_some (cut i s)

-- Combining marks, variation selectors, skin-tone modifiers and joiners.
unfoldable pub is_extending : ℕ → Bool
is_extending c =
    (leb 0x0300 c && leb c 0x036F)
    || (leb 0x1AB0 c && leb c 0x1AFF)
    || (leb 0x1DC0 c && leb c 0x1DFF)
    || (leb 0x20D0 c && leb c 0x20FF)
    || (leb 0xFE00 c && leb c 0xFE0F)
    || (leb 0xFE20 c && leb c 0xFE2F)
    || (leb 0x1F3FB c && leb c 0x1F3FF)
    || (leb 0xE0100 c && leb c 0xE01EF)
    || c == 0x200D

-- The characters that start before an offset, the last one first.
unfoldable pub before : ℕ → List ℕ → List ℕ → List ℕ
unfolding len_utf8
before zero s acc = acc
before (suc n) [] acc = acc
before (suc n) (c ∷ s) acc = before (suc n - len_utf8 c) s (c ∷ acc)

-- The loop of `prev_grapheme`, on the characters before the offset, the last one first.
unfoldable pub back : List ℕ → Option ℕ
unfolding is_extending byte_len
back [] = none
back (c ∷ []) = some 0
back (c ∷ d ∷ s) =
    let over = back (d ∷ s) in
    let joined = back s in
    if is_extending c then over else if d == 0x200D then joined else some (byte_len (d ∷ s))

unfoldable pub prev_grapheme : List ℕ → ℕ → Option ℕ
unfolding back before byte_len
prev_grapheme text from =
    if from == 0
    then some 0
    else if ltb (byte_len text) from
    then some (byte_len text)
    else back (before from text [])

-- The loop of `next_grapheme`: the bytes that belong to the character before.
unfoldable pub extension : List ℕ → ℕ
unfolding is_extending len_utf8
extension [] = 0
extension (c ∷ []) = if is_extending c || c == 0x200D then len_utf8 c else 0
extension (c ∷ d ∷ s) =
    let over = extension (d ∷ s) in
    let joined = extension s in
    if is_extending c
    then len_utf8 c + over
    else if c == 0x200D
    then len_utf8 c + len_utf8 d + joined
    else 0

-- The grapheme at the beginning of a text.
unfoldable pub first_grapheme : List ℕ → ℕ
unfolding extension len_utf8
first_grapheme [] = 0
first_grapheme (c ∷ s) = len_utf8 c + extension s

unfoldable pub next_grapheme : List ℕ → ℕ → Option ℕ
unfolding first_grapheme cut byte_len
next_grapheme s i =
    if leb (byte_len s) i
    then some (byte_len s)
    else cut i s >>= λ parts. some (i + first_grapheme parts.1)
