-- ===== src/Repl/Buffer.antt =====
-- crates/pr-repl/src/buffer.rs: the line buffer, with undo by transactions.
--
-- `none` is a panic. The stacks `undo` and `redo` are lists with their last transaction first; the
-- edits of a transaction are in the order they were made. A `u64` wraps around.
pub mod Edits
pub mod Reversal
pub mod Safety
pub mod Calls
pub mod History
mod Examples
use penguin_redis.Prelude.{
  ℕ, zero, suc, ◌+◌, ◌-◌, ◌*◌, ◌%◌, ◌^◌, Bool, true, false, not, ◌&&◌, ◌||◌, Option, none, some,
  List, [], ◌∷◌, ◌++◌, Result, ok, err, ltb, leb, ◌==◌, if◌then◌else◌, codes, bytes_eq,
}
use penguin_redis.Repl.Text.{◌>>=◌, byte_len, splice, is_boundary, prev_grapheme, next_grapheme}

pub data EditError : Type 0 where
  not_a_char_boundary : ℕ → EditError
  out_of_range : ℕ → ℕ → ℕ → EditError
  inverted_range : ℕ → ℕ → EditError
  stale_revision : ℕ → ℕ → EditError
  span_content_changed : EditError
  nothing_to : List ℕ → EditError

pub record AppliedEdit : Type 0 where
  pub at : ℕ
  pub removed : List ℕ
  pub inserted : List ℕ
  pub cursor_before : ℕ

pub record Transaction : Type 0 where
  pub edits : List AppliedEdit
  pub label : List ℕ

pub record TextEdit : Type 0 where
  pub start : ℕ
  pub stop : ℕ
  pub text : List ℕ
  pub revision : Option ℕ
  pub expected : Option (List ℕ)

pub record LineBuffer : Type 0 where
  pub text : List ℕ
  pub cursor : ℕ
  pub revision : ℕ
  pub undo_stack : List Transaction
  pub redo_stack : List Transaction
  pub group : Option Transaction

abbrev pub new : LineBuffer
new = record { text = []; cursor = 0; revision = 0; undo_stack = []; redo_stack = []; group = none }

abbrev pub Answer : Type 0
Answer = Result {0, 0} EditError (Unit {0}) × LineBuffer

-- `revision += 1`.
unfoldable pub bump : LineBuffer → LineBuffer
bump b = record b { revision = (b.revision + 1) % 2 ^ 64 }

unfoldable pub set_cursor : LineBuffer → ℕ → Answer
unfolding is_boundary
set_cursor b at =
    if ltb (byte_len b.text) at
    then (err (out_of_range at at (byte_len b.text)), b)
    else if not (is_boundary b.text at)
    then (err (not_a_char_boundary at), b)
    else (ok tt, record b { cursor = at })

unfoldable pub move_left : LineBuffer → Option LineBuffer
unfolding prev_grapheme
move_left b = prev_grapheme b.text b.cursor >>= λ at. some (record b { cursor = at })

unfoldable pub move_right : LineBuffer → Option LineBuffer
unfolding next_grapheme
move_right b = next_grapheme b.text b.cursor >>= λ at. some (record b { cursor = at })

unfoldable pub begin : LineBuffer → List ℕ → LineBuffer
begin b name = record b { group = some (record { edits = []; label = name }) }

-- The group of `commit`, when there is one.
unfoldable pub close : LineBuffer → Transaction → LineBuffer
close b t = elim t.edits [
  | [] ↦ record b { group = none }
  | e ∷ es ↦ record b { undo_stack = t ∷ b.undo_stack; redo_stack = []; group = none }
]

unfoldable pub commit : LineBuffer → LineBuffer
unfolding close
commit b = elim b.group [ none ↦ b | some t ↦ close b t ]

unfoldable pub record_edit : LineBuffer → AppliedEdit → LineBuffer
record_edit b e = elim b.group [
  | some t ↦ record b { group = some (record t { edits = t.edits ++ e ∷ [] }) }
  | none ↦ record b {
    undo_stack = record { edits = e ∷ []; label = codes "edit" } ∷ b.undo_stack;
    redo_stack = [];
  }
]

-- The text from `from` to `to` replaced, recorded, and the cursor behind what was put in: what
-- `insert`, `backspace` and `apply` share.
unfoldable pub replace : LineBuffer → ℕ → ℕ → List ℕ → Option LineBuffer
unfolding splice record_edit bump byte_len
replace b from to new_text = splice from to new_text b.text >>= λ (removed_text, after). some (
    bump
      (record (record_edit (record b { text = after })
        (record {
          at = from;
          removed = removed_text;
          inserted = new_text;
          cursor_before = b.cursor;
        })) { cursor = from + byte_len new_text }))

unfoldable pub insert : LineBuffer → List ℕ → Option LineBuffer
unfolding replace
insert b s = replace b b.cursor b.cursor s

unfoldable pub backspace : LineBuffer → Option LineBuffer
unfolding replace prev_grapheme
backspace b =
    if b.cursor == 0
    then some b
    else prev_grapheme b.text b.cursor >>= λ start. replace b start b.cursor []

unfoldable pub is_stale : Option ℕ → ℕ → Option EditError
is_stale none actual = none
is_stale (some r) actual = if r == actual then none else some (stale_revision r actual)

-- The conditions of `apply` on the span, in their order.
unfoldable pub refusal : LineBuffer → TextEdit → Option EditError
unfolding is_stale is_boundary byte_len
refusal b edit = elim (is_stale edit.revision b.revision) [
  | some e ↦ some e
  | none ↦
      if ltb edit.stop edit.start
      then some (inverted_range edit.start edit.stop)
      else if ltb (byte_len b.text) edit.stop
      then some (out_of_range edit.start edit.stop (byte_len b.text))
      else if not (is_boundary b.text edit.start)
      then some (not_a_char_boundary edit.start)
      else if not (is_boundary b.text edit.stop)
      then some (not_a_char_boundary edit.stop)
      else none
]

unfoldable pub has_changed : Option (List ℕ) → List ℕ → Bool
has_changed none removed_text = false
has_changed (some s) removed_text = not (bytes_eq s removed_text)

-- `apply` on a span that is in order.
unfoldable pub apply_span : LineBuffer → TextEdit → Option Answer
unfolding splice replace has_changed
apply_span b edit = splice edit.start edit.stop edit.text b.text >>= λ (removed_text, after).
    if has_changed edit.expected removed_text
    then some (err span_content_changed, b)
    else (replace b edit.start edit.stop edit.text >>= λ b'. some (ok tt, b'))

unfoldable pub apply : LineBuffer → TextEdit → Option Answer
unfolding refusal apply_span
apply b edit = elim (refusal b edit) [ some e ↦ some (err e, b) | none ↦ apply_span b edit ]

unfoldable pub accepted : Answer → Answer
unfolding commit
accepted (err e, b) = (err e, record b { group = none })
accepted (ok u, b) = (ok u, commit b)

unfoldable pub accept_completion : LineBuffer → TextEdit → Option Answer
unfolding begin apply accepted
accept_completion b edit =
    apply (begin b (codes "accept completion")) edit >>= λ a. some (accepted a)

-- One turn of the loops of `reverse` and `forward`.
unfoldable pub revert_edit : LineBuffer → AppliedEdit → Option LineBuffer
unfolding splice byte_len
revert_edit b e = splice e.at (e.at + byte_len e.inserted) e.removed b.text >>= λ (out, after).
    some (record b { text = after; cursor = e.cursor_before })

unfoldable pub repeat_edit : LineBuffer → AppliedEdit → Option LineBuffer
unfolding splice byte_len
repeat_edit b e = splice e.at (e.at + byte_len e.removed) e.inserted b.text >>= λ (out, after).
    some (record b { text = after; cursor = e.at + byte_len e.inserted })

-- The loop of `reverse`: the last edit first.
unfoldable pub revert_all : LineBuffer → List AppliedEdit → Option LineBuffer
unfolding revert_edit
revert_all b [] = some b
revert_all b (e ∷ es) = revert_all b es >>= λ b'. revert_edit b' e

unfoldable pub repeat_all : LineBuffer → List AppliedEdit → Option LineBuffer
unfolding repeat_edit
repeat_all b [] = some b
repeat_all b (e ∷ es) = repeat_edit b e >>= λ b'. repeat_all b' es

unfoldable pub reverse : LineBuffer → Transaction → Option LineBuffer
unfolding revert_all bump
reverse b t = revert_all b t.edits >>= λ b'. some (bump b')

unfoldable pub forward : LineBuffer → Transaction → Option LineBuffer
unfolding repeat_all bump
forward b t = repeat_all b t.edits >>= λ b'. some (bump b')

unfoldable pub undo : LineBuffer → Option Answer
unfolding reverse
undo b = elim b.undo_stack [
  | [] ↦ some (err (nothing_to (codes "undo")), b)
  | t ∷ ts ↦ reverse (record b { undo_stack = ts }) t >>= λ b'.
      some (ok tt, record b' { redo_stack = t ∷ b'.redo_stack })
]

unfoldable pub redo : LineBuffer → Option Answer
unfolding forward
redo b = elim b.redo_stack [
  | [] ↦ some (err (nothing_to (codes "redo")), b)
  | t ∷ ts ↦ forward (record b { redo_stack = ts }) t >>= λ b'.
      some (ok tt, record b' { undo_stack = t ∷ b'.undo_stack })
]

unfoldable pub set_text : LineBuffer → List ℕ → LineBuffer
unfolding begin record_edit commit bump
set_text b s = commit (
    bump
      (record (record_edit (record (begin b (codes "set text")) { text = s })
        (record { at = 0; removed = b.text; inserted = s; cursor_before = b.cursor })) {
          cursor = byte_len s;
        }))
