-- ===== src/Repl/Buffer/Calls.antt =====
-- The calls of the line buffer (crates/pr-repl/src/buffer.rs) on a sound buffer.
use penguin_redis.Prelude.{
  ℕ, ◌+◌, ◌≤◌, ◌≡◌, refl, sym, subst, ap, ap₂, ◌∙◌, inl, inr, Bool, true, false, Option, none, some,
  List, [], ◌∷◌, ◌++◌, err, if◌then◌else◌, ltb, ◌==◌, codes, arith, append_assoc, append-nil,
  Bool-cases,
}
use penguin_redis.Repl.Text.{◌>>=◌, byte_len, splice, is_some, is_boundary, prev_grapheme}
use penguin_redis.Repl.Text.Parts.{
  OnBoundary, on_boundary, byte_len-append, splice-append, is_boundary-OnBoundary, Between, between,
  OnBoundary-Between,
}
use penguin_redis.Repl.Text.Graphemes.{Back, behind, wraps, prev_grapheme-Back}
use penguin_redis.Repl.Buffer.{
  EditError, AppliedEdit, Transaction, TextEdit, LineBuffer, Answer, set_cursor, move_left, begin,
  close, commit, replace, backspace, refusal, has_changed, apply_span, apply, set_text,
}
use penguin_redis.Repl.Buffer.Edits.{edited, Runs, stop}
use penguin_redis.Repl.Buffer.Reversal.{Applied, turned_down, went_in, panicked, apply-Applied}
use penguin_redis.Repl.Buffer.Safety.{
  Behind, under, Ahead, top, Sound, at_rest, in_group, Sound-cursor, Sound-moved, Safe, safe,
  Replaced-Safe, replace-Safe, recorded-Sound,
}

Safe-if : (c : Bool) {x y : Option LineBuffer} → Safe x → Safe y → Safe (if c then x else y)
Safe-if true h k = h
Safe-if false h k = k

some-if :
    (c : Bool) (x y : Option Answer)
    → is_some x ≡ true
    → is_some y ≡ true
    → is_some (if c then x else y) ≡ true
some-if true x y h k = h
some-if false x y h k = k

-- Whether a line begins with a joiner: there the way back has no stop, see `prev_grapheme`.
abbrev pub begins_joined : List ℕ → Bool
begins_joined [] = false
begins_joined (c ∷ s) = c == 0x200D

joined-absurd :
    (b : LineBuffer) (l r m : List ℕ)
    → b.text ≡ l ++ r
    → l ≡ 0x200D ∷ m
    → begins_joined b.text ≡ false
    → ⊥
joined-absurd b l r m e f k =
    let first : b.text ≡ 0x200D ∷ (m ++ r) = e ∙ ap (λ t. t ++ r) f in
    absurd (ground (arith, k, ap begins_joined first))

pub move_left-Safe : (b : LineBuffer) → Sound b → begins_joined b.text ≡ false → Safe (move_left b)
unfolding move_left
move_left-Safe b h k = by_cursor (Sound-cursor h)
  where
    by_answer :
        (l r : List ℕ) (x : Option ℕ)
        → b.text ≡ l ++ r
        → Back l x
        → Safe (x >>= λ at. some (record b { cursor = at }))
    by_answer l r (some at) e (behind a m f j) = safe (
        Sound-moved b at h (on_boundary a (m ++ r) (e ∙ ap (λ u. u ++ r) f ∙ append_assoc a m r) j))
    by_answer l r none e (wraps m f) = absurd (joined-absurd b l r m e f k)

    by_cursor :
        OnBoundary b.cursor b.text
        → Safe (prev_grapheme b.text b.cursor >>= λ at. some (record b { cursor = at }))
    by_cursor (on_boundary l r e j) =
        by_answer l r (prev_grapheme b.text b.cursor) e
          (subst (Back l) (ap₂ prev_grapheme (sym e) (sym j)) (prev_grapheme-Back l r))

pub backspace-Safe : (b : LineBuffer) → Sound b → begins_joined b.text ≡ false → Safe (backspace b)
unfolding backspace
backspace-Safe b h k = Safe-if (b.cursor == 0) (safe h) (by_cursor (Sound-cursor h))
  where
    by_answer :
        (l r : List ℕ) (x : Option ℕ)
        → b.text ≡ l ++ r
        → b.cursor ≡ byte_len l
        → Back l x
        → Safe (x >>= λ start. replace b start b.cursor [])
    by_answer l r (some at) e c (behind a m f j) =
        replace-Safe b at b.cursor [] a m r h (e ∙ ap (λ u. u ++ r) f ∙ append_assoc a m r) j
          (c ∙ ap byte_len f ∙ byte_len-append a m)
    by_answer l r none e c (wraps m f) = absurd (joined-absurd b l r m e f k)

    by_cursor :
        OnBoundary b.cursor b.text
        → Safe (prev_grapheme b.text b.cursor >>= λ start. replace b start b.cursor [])
    by_cursor (on_boundary l r e j) =
        by_answer l r (prev_grapheme b.text b.cursor) e j
          (subst (Back l) (ap₂ prev_grapheme (sym e) (sym j)) (prev_grapheme-Back l r))

pub set_cursor-Sound : (b : LineBuffer) (at : ℕ) → Sound b → Sound (set_cursor b at).1
unfolding set_cursor
set_cursor-Sound b at h = elim (Bool-cases (ltb (byte_len b.text) at)) [
  | inl past ↦ rw past h
  | inr within ↦ elim (Bool-cases (is_boundary b.text at)) [
    | inl on ↦ rw (within, on) (Sound-moved b at h (is_boundary-OnBoundary b.text at on))
    | inr off ↦ rw (within, off) h
  ]
]

-- A span that is not refused lies between two boundaries.
refusal-Between :
    (b : LineBuffer) (edit : TextEdit) → refusal b edit ≡ none → Between edit.start edit.stop b.text
unfolding refusal
refusal-Between b edit h =
    let le : edit.start ≤ edit.stop = ground arith in
    let left : is_boundary b.text edit.start ≡ true = ground arith in
    let right : is_boundary b.text edit.stop ≡ true = ground arith in
    OnBoundary-Between edit.start edit.stop b.text (is_boundary-OnBoundary b.text edit.start left)
      (is_boundary-OnBoundary b.text edit.stop right) le

apply_span-some :
    (b : LineBuffer) (edit : TextEdit) (l m r : List ℕ)
    → b.text ≡ l ++ (m ++ r)
    → edit.start ≡ byte_len l
    → edit.stop ≡ byte_len l + byte_len m
    → is_some (apply_span b edit) ≡ true
unfolding apply_span is_some
apply_span-some b edit l m r h k j =
    let answer : splice edit.start edit.stop edit.text b.text ≡ some (m, l ++ (edit.text ++ r)) =
      ap₂ (λ x y. splice x y edit.text b.text) k j
      ∙ ap (splice (byte_len l) (byte_len l + byte_len m) edit.text) h
      ∙ splice-append l m r edit.text in
    rw answer (some-if (has_changed edit.expected m) _ _ refl refl)

-- `apply` answers, whatever the edit and whatever the buffer: it never panics.
pub apply-answers : (b : LineBuffer) (edit : TextEdit) → is_some (apply b edit) ≡ true
unfolding apply
apply-answers b edit = by_refusal (refusal b edit) refl
  where
    by_parts : Between edit.start edit.stop b.text → is_some (apply_span b edit) ≡ true
    by_parts (between l m r h k j) = apply_span-some b edit l m r h k j

    by_refusal :
        (x : Option EditError)
        → refusal b edit ≡ x
        → is_some (elim x [ some e ↦ some (err e, b) | none ↦ apply_span b edit ]) ≡ true
    by_refusal (some e) h = unfold is_some in refl
    by_refusal none h = by_parts (refusal-Between b edit h)

-- The buffer behind a call, whatever it answered.
abbrev pub rest : Option Answer → Option LineBuffer
rest none = none
rest (some a) = some a.1

pub apply-Safe : (b : LineBuffer) (edit : TextEdit) → Sound b → Safe (rest (apply b edit))
apply-Safe b edit h = by_answer (apply b edit) (apply-Applied b edit) (apply-answers b edit)
  where
    by_answer : (x : Option Answer) → Applied b edit x → is_some x ≡ true → Safe (rest x)
    by_answer none panicked k = unfold is_some in absurd (ground arith)
    by_answer (some a) turned_down k = safe h
    by_answer (some a) (went_in r) k =
        Replaced-Safe b edit.start edit.text h r (unfold is_some in refl)

-- At rest, a group can be opened.
pub begin-Sound : (b : LineBuffer) (name : List ℕ) → Sound b → b.group ≡ none → Sound (begin b name)
unfolding begin
begin-Sound b name (at_rest g h k c) i = in_group refl stop h k c
begin-Sound b name (in_group g r h k c) i = absurd (ground (arith, g, i))

Runs-nil : {s u : List ℕ} → Runs [] s u → s ≡ u
Runs-nil stop = refl

close-Sound :
    (b : LineBuffer) (t : Transaction) (s : List ℕ)
    → b.group ≡ some t
    → Runs t.edits s b.text
    → Behind b.undo_stack s
    → Ahead b.redo_stack s
    → OnBoundary b.cursor b.text
    → Sound (close b t)
unfolding close
close-Sound b t s g r h k c = by_edits t.edits refl r
  where
    by_edits :
        (es : List AppliedEdit)
        → t.edits ≡ es
        → Runs es s b.text
        → Sound (elim es [
          | [] ↦ record b { group = none }
          | e ∷ es ↦ record b { undo_stack = t ∷ b.undo_stack; redo_stack = []; group = none }
        ])
    by_edits [] e r' =
        at_rest refl (subst (Behind b.undo_stack) (Runs-nil r') h)
          (subst (Ahead b.redo_stack) (Runs-nil r') k) c
    by_edits (x ∷ es) e r' = at_rest refl (under r h) top c

abbrev ByGroup : LineBuffer → Option Transaction → Type 0
ByGroup b x = Sound (elim x [ none ↦ b | some t ↦ close b t ])

pub commit-Sound : (b : LineBuffer) → Sound b → Sound (commit b)
unfolding commit
commit-Sound b (at_rest g h k c) = subst (ByGroup b) (sym g) (at_rest g h k c)
commit-Sound b (in_group {t} {s} g r h k c) =
    subst (ByGroup b) (sym g) (close-Sound b t s g r h k c)

pub set_text-Sound : (b : LineBuffer) (s : List ℕ) → Sound b → b.group ≡ none → Sound (set_text b s)
unfolding set_text begin
set_text-Sound b s h g = commit-Sound _ (
    recorded-Sound (begin b (codes "set text"))
      (record { at = 0; removed = b.text; inserted = s; cursor_before = b.cursor }) s (byte_len s)
      (begin-Sound b (codes "set text") h g)
      (edited [] [] (sym (append-nil b.text)) (sym (append-nil s)) (unfold byte_len in refl)
        (Sound-cursor h))
      (on_boundary s [] (sym (append-nil s)) refl))
