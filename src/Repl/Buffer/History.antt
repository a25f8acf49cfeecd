-- ===== src/Repl/Buffer/History.antt =====
-- Sequences of calls of the line buffer (crates/pr-repl/src/buffer.rs), undo and redo among them.
use penguin_redis.Prelude.{
  ℕ, ◌+◌, ◌≡◌, refl, sym, subst, ap, ◌∙◌, true, false, Option, none, some, List, [], ◌∷◌, ◌++◌, ok,
  codes, arith, append_assoc,
}
use penguin_redis.Repl.Text.{◌>>=◌, byte_len, is_some}
use penguin_redis.Repl.Text.Parts.{OnBoundary, on_boundary, byte_len-append}
use penguin_redis.Repl.Buffer.{
  AppliedEdit, Transaction, TextEdit, LineBuffer, Answer, new, bump, set_cursor, move_left,
  move_right, begin, commit, insert, backspace, apply, accept_completion, accepted, reverse,
  forward, undo, redo, set_text,
}
use penguin_redis.Repl.Buffer.Edits.{
  Edited, edited, Runs, stop, step, revert_all-Runs, repeat_all-Runs, first_cursor, last_cursor,
}
use penguin_redis.Repl.Buffer.Reversal.{Applied, turned_down, went_in, panicked, apply-Applied}
use penguin_redis.Repl.Buffer.Safety.{
  Behind, bottom, under, Ahead, top, over, Sound, at_rest, in_group, Safe, safe, Replaced-Safe,
}
use penguin_redis.Repl.Buffer.Calls.{
  rest, begins_joined, move_left-Safe, backspace-Safe, set_cursor-Sound, apply-Safe, apply-answers,
  begin-Sound, commit-Sound, set_text-Sound,
}
use penguin_redis.Repl.Buffer.Safety.{insert-Safe, move_right-Safe}

accepted-Safe :
    (b : LineBuffer) (edit : TextEdit) (x : Option Answer)
    → Sound b
    → b.group ≡ none
    → Applied (begin b (codes "accept completion")) edit x
    → is_some x ≡ true
    → Safe (rest (x >>= λ a. some (accepted a)))
unfolding begin accepted
accepted-Safe b edit none h g panicked k = unfold is_some in absurd (ground arith)
accepted-Safe b edit (some a) (at_rest g h l c) g' turned_down k = safe (at_rest refl h l c)
accepted-Safe b edit (some a) (in_group g r h l c) g' turned_down k = absurd (ground (arith, g, g'))
accepted-Safe b edit (some (q, b')) h g (went_in r) k = by_safe (some b') (
    Replaced-Safe (begin b (codes "accept completion")) edit.start edit.text
      (begin-Sound b (codes "accept completion") h g) r (unfold is_some in refl))
  where
    by_safe : (y : Option LineBuffer) → Safe y → Safe (y >>= λ d. some (commit d))
    by_safe none j = elim j [ ]
    by_safe (some d) (safe j) = safe (commit-Sound d j)

pub accept_completion-Safe :
    (b : LineBuffer) (edit : TextEdit)
    → Sound b
    → b.group ≡ none
    → Safe (rest (accept_completion b edit))
unfolding accept_completion
accept_completion-Safe b edit h g =
    accepted-Safe b edit (apply (begin b (codes "accept completion")) edit) h g
      (apply-Applied (begin b (codes "accept completion")) edit)
      (apply-answers (begin b (codes "accept completion")) edit)

Edited-cursor :
    {e : AppliedEdit} {s t : List ℕ} → Edited e s t → OnBoundary (e.at + byte_len e.inserted) t
Edited-cursor {e} (edited l r h k at c) =
    on_boundary (l ++ e.inserted) r (k ∙ sym (append_assoc l e.inserted r))
      (omega (arith, at, byte_len-append l e.inserted))

first_cursor-OnBoundary :
    {es : List AppliedEdit} {s u : List ℕ} (c : ℕ)
    → Runs es s u
    → OnBoundary c u
    → OnBoundary (first_cursor c es) s
first_cursor-OnBoundary c stop h = h
first_cursor-OnBoundary c (step (edited l r k j at m) run) h = m

last_cursor-OnBoundary :
    {es : List AppliedEdit} {s u : List ℕ} (c : ℕ)
    → Runs es s u
    → OnBoundary c s
    → OnBoundary (last_cursor c es) u
last_cursor-OnBoundary c stop h = h
last_cursor-OnBoundary c (step {e} k run) h =
    last_cursor-OnBoundary (e.at + byte_len e.inserted) run (Edited-cursor k)

abbrev behind_undo : LineBuffer → Transaction → List Transaction → List ℕ → LineBuffer
behind_undo b t ts s = bump (record b {
  text = s;
  cursor = first_cursor b.cursor t.edits;
  undo_stack = ts;
  redo_stack = t ∷ b.redo_stack;
})

-- What `undo` does at rest: the first transaction is taken back, and goes to the other stack.
pub undo-Runs :
    (b : LineBuffer) (t : Transaction) (ts : List Transaction) (s : List ℕ)
    → b.undo_stack ≡ t ∷ ts
    → Runs t.edits s b.text
    → undo b ≡ some (ok tt, behind_undo b t ts s)
unfolding undo reverse bump
undo-Runs b t ts s k r =
    let run = revert_all-Runs (record b { undo_stack = ts }) t.edits s r in rw (k, run) refl

pub redo-Runs :
    (b : LineBuffer) (t : Transaction) (ts : List Transaction) (u : List ℕ)
    → b.redo_stack ≡ t ∷ ts
    → Runs t.edits b.text u
    → redo b
      ≡ some (
        ok tt,
        bump (record b {
          text = u;
          cursor = last_cursor b.cursor t.edits;
          redo_stack = ts;
          undo_stack = t ∷ b.undo_stack;
        }),
      )
unfolding redo forward bump
redo-Runs b t ts u k r =
    let run = repeat_all-Runs (record b { redo_stack = ts }) t.edits u r in rw (k, run) refl

pub undo-Safe : (b : LineBuffer) → Sound b → b.group ≡ none → Safe (rest (undo b))
undo-Safe b (in_group g r h k c) g' = absurd (ground (arith, g, g'))
undo-Safe b (at_rest g h k c) g' = by_stack b.undo_stack refl h
  where
    by_stack : (ts : List Transaction) → b.undo_stack ≡ ts → Behind ts b.text → Safe (rest (undo b))
    by_stack [] e h' = unfold undo in rw e (safe (at_rest g bottom k c))
    by_stack (t ∷ ts) e (under {s = s} r h') =
        subst (λ x. Safe (rest x)) (sym (undo-Runs b t ts s e r))
          (unfold bump in safe (at_rest g h' (over r k) (first_cursor-OnBoundary b.cursor r c)))

pub redo-Safe : (b : LineBuffer) → Sound b → b.group ≡ none → Safe (rest (redo b))
redo-Safe b (in_group g r h k c) g' = absurd (ground (arith, g, g'))
redo-Safe b (at_rest g h k c) g' = by_stack b.redo_stack refl k
  where
    by_stack : (ts : List Transaction) → b.redo_stack ≡ ts → Ahead ts b.text → Safe (rest (redo b))
    by_stack [] e k' = unfold redo in rw e (safe (at_rest g h top c))
    by_stack (t ∷ ts) e (over {u = u} r k') =
        subst (λ x. Safe (rest x)) (sym (redo-Runs b t ts u e r))
          (unfold bump in safe (at_rest g (under r h) k' (last_cursor-OnBoundary b.cursor r c)))

-- The calls that change a buffer.
pub data Call : Type 0 where
  placed : ℕ → Call
  left right erased undone redone committed : Call
  typed recalled begun : List ℕ → Call
  patched completed : TextEdit → Call

-- The buffer behind a call.
unfoldable pub run : LineBuffer → Call → Option LineBuffer
unfolding set_cursor move_left move_right insert backspace apply accept_completion undo redo
    set_text begin commit
run b (placed at) = some (set_cursor b at).1
run b left = move_left b
run b right = move_right b
run b (typed s) = insert b s
run b erased = backspace b
run b (patched edit) = rest (apply b edit)
run b (completed edit) = rest (accept_completion b edit)
run b undone = rest (undo b)
run b redone = rest (redo b)
run b (recalled s) = some (set_text b s)
run b (begun name) = some (begin b name)
run b committed = some (commit b)

-- Where a call belongs: what opens a group, and what uses the history, outside a group; a move to
-- the left and an erasure, in a line that does not begin with a joiner.
abbrev pub Fits : LineBuffer → Call → Type 0
Fits b left = begins_joined b.text ≡ false
Fits b erased = begins_joined b.text ≡ false
Fits b (completed edit) = b.group ≡ none
Fits b undone = b.group ≡ none
Fits b redone = b.group ≡ none
Fits b (recalled s) = b.group ≡ none
Fits b (begun name) = b.group ≡ none
Fits b _ = Unit

-- The buffers that calls lead to, from an empty one.
pub data Reached : LineBuffer → Type 0 where
  start : Reached new
  next :
      {b b' : LineBuffer}
      → Reached b
      → (call : Call) → Fits b call
      → run b call ≡ some b'
      → Reached b'

run-Safe : (b : LineBuffer) (call : Call) → Sound b → Fits b call → Safe (run b call)
unfolding run
run-Safe b (placed at) h f = safe (set_cursor-Sound b at h)
run-Safe b left h f = move_left-Safe b h f
run-Safe b right h f = move_right-Safe b h
run-Safe b (typed s) h f = insert-Safe b s h
run-Safe b erased h f = backspace-Safe b h f
run-Safe b (patched edit) h f = apply-Safe b edit h
run-Safe b (completed edit) h f = accept_completion-Safe b edit h f
run-Safe b undone h f = undo-Safe b h f
run-Safe b redone h f = redo-Safe b h f
run-Safe b (recalled s) h f = safe (set_text-Sound b s h f)
run-Safe b (begun name) h f = safe (begin-Sound b name h f)
run-Safe b committed h f = safe (commit-Sound b h)

Safe-Sound : {x : Option LineBuffer} (b : LineBuffer) → Safe x → x ≡ some b → Sound b
Safe-Sound b (safe {b = c} h) e = let same : c ≡ b = cc in subst Sound same h

Reached-Sound : {b : LineBuffer} → Reached b → Sound b
Reached-Sound start = at_rest refl bottom top (on_boundary [] [] refl (unfold byte_len in refl))
Reached-Sound (next {b = b} {b' = b'} r call f e) =
    Safe-Sound b' (run-Safe b call (Reached-Sound r) f) e

-- The text and the two stacks that a call leaves behind.
abbrev pub history : Option Answer → Option (List ℕ × List Transaction × List Transaction)
history none = none
history (some (r, b)) = some (b.text, b.undo_stack, b.redo_stack)

injected : {a b : LineBuffer} → ◌≡◌ {A = Option Answer} (some (ok tt, a)) (some (ok tt, b)) → a ≡ b
injected h = cc

undone-redo :
    (b : LineBuffer) (ts : List Transaction) (b' : LineBuffer)
    → b.undo_stack ≡ ts
    → Behind ts b.text
    → undo b ≡ some (ok tt, b')
    → history (redo b') ≡ some (b.text, b.undo_stack, b.redo_stack)
unfolding bump
undone-redo b [] b' e bottom h = absurd (unfold undo in ground (arith, e, h))
undone-redo b (t ∷ ts) b' e (under {s = s} r h') h =
    let left : behind_undo b t ts s ≡ b' = injected (sym (undo-Runs b t ts s e r) ∙ h) in
    subst (λ z. history (redo z) ≡ some (b.text, b.undo_stack, b.redo_stack)) left
      (ap history (redo-Runs (behind_undo b t ts s) t b.redo_stack b.text refl r)
        ∙ ap (λ x. some (b.text, x, b.redo_stack)) (sym e))

-- Of a buffer with no open group that was reached from an empty one by calls of which `begin`,
-- `undo`, `redo`, `set_text` and `accept_completion` came outside a group only, and `move_left` and
-- `backspace` only while the line did not begin with a joiner (U+200D): behind an undo that
-- answers ok, a redo gives back the text and both stacks.
pub undo-redo :
    (b b' : LineBuffer)
    → Reached b
    → b.group ≡ none
    → undo b ≡ some (ok tt, b')
    → history (redo b') ≡ some (b.text, b.undo_stack, b.redo_stack)
undo-redo b b' r g h = by_sound (Reached-Sound r)
  where
    by_sound : Sound b → history (redo b') ≡ some (b.text, b.undo_stack, b.redo_stack)
    by_sound (at_rest g' k l c) = undone-redo b b.undo_stack b' refl k h
    by_sound (in_group g' r' k l c) = absurd (ground (arith, g, g'))
