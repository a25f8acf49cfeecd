-- ===== src/Repl/Buffer/Examples.antt =====
-- The line buffer on concrete calls.
use penguin_redis.Prelude.{ℕ, ◌≡◌, refl, true, none, some, List, [], ◌∷◌, ok, err, codes, bytes_eq}
use penguin_redis.Repl.Text.{◌>>=◌, byte_len, is_some, len_utf8}
use penguin_redis.Repl.Text.Parts.{on_boundary}
use penguin_redis.Repl.Buffer.{
  out_of_range, inverted_range, stale_revision, span_content_changed, TextEdit, LineBuffer, new,
  begin, insert, backspace, apply, accept_completion, undo, redo, set_text,
}
use penguin_redis.Repl.Buffer.Reversal.{shown, accept_completion-undo}
use penguin_redis.Repl.Buffer.Calls.{rest, apply-answers}
use penguin_redis.Repl.Buffer.History.{typed, Reached, start, next, run, history, undo-redo}

abbrev typed_get : LineBuffer
typed_get = record new {
  text = codes "GET";
  cursor = 3;
  revision = 1;
  undo_stack =
      record {
        edits = record { at = 0; removed = []; inserted = codes "GET"; cursor_before = 0 } ∷ [];
        label = codes "edit";
      }
      ∷ [];
}

insert-get : insert new (codes "GET") ≡ some typed_get
unfolding insert
insert-get = refl

abbrev edit_at : ℕ → ℕ → List ℕ → TextEdit
edit_at s e t = record { start = s; stop = e; text = t; revision = none; expected = none }

apply-shown : shown (apply typed_get (edit_at 1 3 (codes "X"))) ≡ some (codes "GX", 2)
unfolding apply
apply-shown = refl

apply-inverted : apply typed_get (edit_at 3 1 []) ≡ some (err (inverted_range 3 1), typed_get)
unfolding apply
apply-inverted = refl

apply-outside : apply typed_get (edit_at 1 4 []) ≡ some (err (out_of_range 1 4 3), typed_get)
unfolding apply
apply-outside = refl

apply-stale :
    apply typed_get (record (edit_at 0 1 []) { revision = some 0 })
    ≡ some (err (stale_revision 0 1), typed_get)
unfolding apply
apply-stale = refl

apply-changed :
    apply typed_get (record (edit_at 0 1 []) { expected = some (codes "S") })
    ≡ some (err span_content_changed, typed_get)
unfolding apply bytes_eq
apply-changed = refl

undo-shown : shown (undo typed_get) ≡ some ([], 0)
unfolding undo
undo-shown = refl

-- A recalled line inside a group drops the edits of the group: two undos leave a text that the
-- line never had.
lost-edits :
    (insert (begin typed_get (codes "group")) (codes "ab") >>= λ b.
    rest (undo (set_text b (codes "x"))) >>= λ b'. shown (undo b'))
    ≡ some (codes "ab", 0)
unfolding insert begin undo set_text
lost-edits = refl

-- A joiner at the beginning of the line.
backspace-joiner : (insert new (0x200D ∷ b'a' ∷ []) >>= backspace) ≡ none
unfolding insert backspace
backspace-joiner = refl

abbrev reached_get : Reached typed_get
unfolding run insert
reached_get = next start (typed (codes "GET")) tt insert-get

abbrev completion : TextEdit
completion = edit_at 1 3 (codes "ETEX")

abbrev completed_get : LineBuffer
completed_get = record typed_get {
  text = codes "GETEX";
  cursor = 5;
  revision = 2;
  undo_stack =
      record {
        edits =
            record { at = 1; removed = codes "ET"; inserted = codes "ETEX"; cursor_before = 3 }
            ∷ [];
        label = codes "accept completion";
      }
      ∷ typed_get.undo_stack;
}

completion-accepted : accept_completion typed_get completion ≡ some (ok tt, completed_get)
unfolding accept_completion
completion-accepted = refl

abbrev undone_get : LineBuffer
undone_get = record new { revision = 2; redo_stack = typed_get.undo_stack }

undo-get : undo typed_get ≡ some (ok tt, undone_get)
unfolding undo
undo-get = refl

accept_completion-undo_example : shown (undo completed_get) ≡ some (codes "GET", 3)
unfolding byte_len len_utf8
accept_completion-undo_example =
    accept_completion-undo typed_get completion completed_get
      (on_boundary (codes "GET") [] refl refl) completion-accepted

undo-redo_example : history (redo undone_get) ≡ some (codes "GET", typed_get.undo_stack, [])
undo-redo_example = undo-redo typed_get undone_get reached_get refl undo-get

apply-answers_example : is_some (apply typed_get completion) ≡ true
apply-answers_example = apply-answers typed_get completion
