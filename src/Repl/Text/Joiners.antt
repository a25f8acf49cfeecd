-- ===== src/Repl/Text/Joiners.antt =====
-- The moves by a grapheme (crates/pr-repl/src/buffer.rs) over a joined pair of characters.
use penguin_redis.Prelude.{
  ℕ, ◌+◌, ◌≤◌, ◌≡◌, refl, sym, ap, ◌∙◌, false, some, List, [], ◌∷◌, ltb, leb, ◌==◌, arith,
}
use penguin_redis.Repl.Text.{
  len_utf8, byte_len, is_extending, before, back, prev_grapheme, extension, first_grapheme,
  next_grapheme,
}
use penguin_redis.Repl.Text.Parts.{len_utf8-pos}
use penguin_redis.Repl.Text.Graphemes.{before-append}

-- A character that is no joiner, and belongs to none before it, is not passed over.
extension-single : (d : ℕ) → is_extending d ≡ false → extension (d ∷ []) ≡ 0
unfolding extension is_extending
extension-single d h = ground arith

byte_len-pos : (c : ℕ) (s : List ℕ) → 1 ≤ byte_len (c ∷ s)
unfolding byte_len
byte_len-pos c s = omega (arith, len_utf8-pos c)

prev_grapheme-joined :
    (c d : ℕ) (n : ℕ)
    → is_extending d ≡ false
    → byte_len (c ∷ 0x200D ∷ d ∷ []) ≡ n
    → 1 ≤ n
    → prev_grapheme (c ∷ 0x200D ∷ d ∷ []) n ≡ some 0
unfolding prev_grapheme back
prev_grapheme-joined c d n k e h =
    let later : n == 0 ≡ false = ground arith in
    let fits : ltb (byte_len (c ∷ 0x200D ∷ d ∷ [])) n ≡ false = ground arith in
    let chars : before n (c ∷ 0x200D ∷ d ∷ []) [] ≡ d ∷ 0x200D ∷ c ∷ [] =
      ap (λ i. before i (c ∷ 0x200D ∷ d ∷ []) []) (sym e)
      ∙ before-append (c ∷ 0x200D ∷ d ∷ []) [] [] in
    rw (later, fits, chars, k) refl

next_grapheme-joined :
    (c d : ℕ)
    → is_extending d ≡ false
    → next_grapheme (c ∷ 0x200D ∷ d ∷ []) 0 ≡ some (len_utf8 c + 3)
unfolding next_grapheme first_grapheme
next_grapheme-joined c d k =
    let within : leb (byte_len (c ∷ 0x200D ∷ d ∷ [])) 0 ≡ false =
      ground (arith, byte_len-pos c (0x200D ∷ d ∷ [])) in
    let single : extension (0x200D ∷ d ∷ []) ≡ 3 = ap (λ n. 3 + n) (extension-single d k) in
    rw (within, single) (ap some (omega arith))

-- A joiner ties two characters into one grapheme for the move to the left, and not for the move
-- to the right, which stops between the joiner and the second of them.
pub next_grapheme-joiner :
    (c d : ℕ)
    → is_extending c ≡ false
    → is_extending d ≡ false
    → (prev_grapheme (c ∷ 0x200D ∷ d ∷ []) (byte_len (c ∷ 0x200D ∷ d ∷ [])) ≡ some 0)
      × (next_grapheme (c ∷ 0x200D ∷ d ∷ []) 0 ≡ some (len_utf8 c + 3))
next_grapheme-joiner c d h k = (
  prev_grapheme-joined c d (byte_len (c ∷ 0x200D ∷ d ∷ [])) k refl
      (byte_len-pos c (0x200D ∷ d ∷ [])),
  next_grapheme-joined c d k,
)
