-- ===== src/Repl/Buffer/Safety.antt =====
-- When the history of a line buffer fits its text.
use penguin_redis.Prelude.{
  ℕ, ◌+◌, ◌≡◌, refl, sym, subst, ap, ap₂, ◌∙◌, true, Option, none, some, List, [], ◌∷◌, ◌++◌, arith,
}
use penguin_redis.Repl.Text.{◌>>=◌, byte_len, splice, is_some, next_grapheme}
use penguin_redis.Repl.Text.Parts.{OnBoundary, on_boundary, splice-append}
use penguin_redis.Repl.Text.Graphemes.{Lands, lands, next_grapheme-Lands}
use penguin_redis.Repl.Buffer.{
  AppliedEdit, Transaction, LineBuffer, bump, move_right, record_edit, replace, insert,
}
use penguin_redis.Repl.Buffer.Edits.{Edited, Runs, stop, step, Runs-append}
use penguin_redis.Repl.Buffer.Reversal.{Replaced, made, out_of_bounds, replace-Replaced}

-- The transactions to undo made the text, the last one first.
pub data Behind : List Transaction → List ℕ → Type 0 where
  bottom : {s : List ℕ} → Behind [] s
  under :
      {t : Transaction} {ts : List Transaction} {s u : List ℕ}
      → Runs t.edits s u
      → Behind ts s
      → Behind (t ∷ ts) u

-- The transactions to redo can be made of the text.
pub data Ahead : List Transaction → List ℕ → Type 0 where
  top : {s : List ℕ} → Ahead [] s
  over :
      {t : Transaction} {ts : List Transaction} {s u : List ℕ}
      → Runs t.edits s u
      → Ahead ts u
      → Ahead (t ∷ ts) s

-- The history fits the text, or the text at the beginning of the group that is open.
pub data Sound (b : LineBuffer) : Type 0 where
  at_rest :
      b.group ≡ none
      → Behind b.undo_stack b.text
      → Ahead b.redo_stack b.text
      → OnBoundary b.cursor b.text
      → Sound b
  in_group :
      {t : Transaction} {s : List ℕ}
      → b.group ≡ some t
      → Runs t.edits s b.text
      → Behind b.undo_stack s
      → Ahead b.redo_stack s
      → OnBoundary b.cursor b.text
      → Sound b

pub Sound-cursor : {b : LineBuffer} → Sound b → OnBoundary b.cursor b.text
Sound-cursor (at_rest g h k c) = c
Sound-cursor (in_group g r h k c) = c

pub Sound-moved :
    (b : LineBuffer) (at : ℕ) → Sound b → OnBoundary at b.text → Sound (record b { cursor = at })
Sound-moved b at (at_rest g h k c) m = at_rest g h k m
Sound-moved b at (in_group g r h k c) m = in_group g r h k m

-- An answer that is no panic, and leaves a sound buffer.
pub data Safe : Option LineBuffer → Type 0 where
  safe : {b : LineBuffer} → Sound b → Safe (some b)

pub recorded-Sound :
    (b : LineBuffer) (e : AppliedEdit) (t : List ℕ) (c : ℕ)
    → Sound b
    → Edited e b.text t
    → OnBoundary c t
    → Sound (bump (record (record_edit (record b { text = t }) e) { cursor = c }))
unfolding record_edit bump
recorded-Sound b e t c (at_rest g h k m) j n = rw g (at_rest refl (under (step j stop) h) top n)
recorded-Sound b e t c (in_group g r h k m) j n = rw g (in_group refl (Runs-append r j) h k n)

pub Replaced-Safe :
    (b : LineBuffer) (from : ℕ) (new_text : List ℕ) {x : Option LineBuffer}
    → Sound b
    → Replaced b from new_text x
    → is_some x ≡ true
    → Safe x
unfolding is_some
Replaced-Safe b from new_text h out_of_bounds k = absurd (ground arith)
Replaced-Safe b from new_text h (made e t j c n eq) k = safe (
    subst Sound (sym eq) (recorded-Sound b e t (from + byte_len new_text) h (j (Sound-cursor h)) c))

pub replace-some :
    (b : LineBuffer) (from to : ℕ) (new_text l m r : List ℕ)
    → b.text ≡ l ++ (m ++ r)
    → from ≡ byte_len l
    → to ≡ byte_len l + byte_len m
    → is_some (replace b from to new_text) ≡ true
unfolding replace is_some
replace-some b from to new_text l m r h k j =
    let answer : splice from to new_text b.text ≡ some (m, l ++ (new_text ++ r)) =
      ap₂ (λ x y. splice x y new_text b.text) k j
      ∙ ap (splice (byte_len l) (byte_len l + byte_len m) new_text) h
      ∙ splice-append l m r new_text in
    rw answer refl

-- A text replaced between two boundaries.
pub replace-Safe :
    (b : LineBuffer) (from to : ℕ) (new_text l m r : List ℕ)
    → Sound b
    → b.text ≡ l ++ (m ++ r)
    → from ≡ byte_len l
    → to ≡ byte_len l + byte_len m
    → Safe (replace b from to new_text)
replace-Safe b from to new_text l m r s h k j =
    Replaced-Safe b from new_text s (replace-Replaced b from to new_text)
      (replace-some b from to new_text l m r h k j)

pub insert-Safe : (b : LineBuffer) (s : List ℕ) → Sound b → Safe (insert b s)
unfolding insert
insert-Safe b s h = by_cursor (Sound-cursor h)
  where
    by_cursor : OnBoundary b.cursor b.text → Safe (replace b b.cursor b.cursor s)
    by_cursor (on_boundary l r e k) =
        replace-Safe b b.cursor b.cursor s l [] r h e k (k ∙ unfold byte_len in omega arith)

pub move_right-Safe : (b : LineBuffer) → Sound b → Safe (move_right b)
unfolding move_right
move_right-Safe b h =
    by_answer (next_grapheme b.text b.cursor) (next_grapheme-Lands b.text b.cursor (Sound-cursor h))
  where
    by_answer : (x : Option ℕ) → Lands b.text x → Safe (x >>= λ at. some (record b { cursor = at }))
    by_answer none x = elim x [ ]
    by_answer (some at) (lands m) = safe (Sound-moved b at h m)
