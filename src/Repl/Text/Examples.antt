-- ===== src/Repl/Text/Examples.antt =====
-- Text and graphemes on concrete characters.
use penguin_redis.Prelude.{ℕ, ◌≡◌, refl, none, some, List, [], ◌∷◌}
use penguin_redis.Repl.Text.{cut, splice, prev_grapheme, next_grapheme}

-- A woman, a joiner and a computer: one grapheme of eleven bytes.
abbrev technologist : List ℕ
technologist = 0x1F469 ∷ 0x200D ∷ 0x1F4BB ∷ []

next-technologist : next_grapheme technologist 0 ≡ some 7
unfolding next_grapheme
next-technologist = refl

prev-technologist : prev_grapheme technologist 11 ≡ some 0
unfolding prev_grapheme
prev-technologist = refl

-- A joiner at the beginning of the line, and a letter.
prev-joiner : prev_grapheme (0x200D ∷ b'a' ∷ []) 4 ≡ none
unfolding prev_grapheme
prev-joiner = refl

prev-accent : prev_grapheme (b'a' ∷ b'e' ∷ 0x301 ∷ []) 4 ≡ some 1
unfolding prev_grapheme
prev-accent = refl

cut-inside : cut 1 (0xE9 ∷ []) ≡ none
unfolding cut
cut-inside = refl

splice-middle :
    splice 1 3 (b'x' ∷ []) (b'a' ∷ 0xE9 ∷ b'c' ∷ []) ≡ some (0xE9 ∷ [], b'a' ∷ b'x' ∷ b'c' ∷ [])
unfolding splice
splice-middle = refl
