-- ===== src/Repl/Buffer/Reversal.antt =====
-- An edit of the line buffer, and the undo of it.
use penguin_redis.Prelude.{
  ℕ, ◌+◌, ◌≡◌, refl, sym, subst, ap, ◌∙◌, Bool, true, false, Option, none, some, List, [], ◌∷◌,
  ◌++◌, ok, err, if◌then◌else◌, codes, arith, append_assoc,
}
use penguin_redis.Repl.Text.{◌>>=◌, byte_len, splice}
use penguin_redis.Repl.Text.Parts.{
  Splice, replaced, panics, splice-Splice, byte_len-append, OnBoundary, on_boundary,
}
use penguin_redis.Repl.Buffer.{
  EditError, span_content_changed, AppliedEdit, Transaction, TextEdit, LineBuffer, Answer, bump,
  begin, close, commit, record_edit, replace, refusal, has_changed, apply_span, apply, accepted,
  accept_completion, revert_all, reverse, undo,
}
use penguin_redis.Repl.Buffer.Edits.{Edited, edited, stop, step, revert_all-Runs}

-- What `replace` makes of a buffer: an edit, recorded, with the cursor behind it.
pub data Replaced (b : LineBuffer) (from : ℕ) (new_text : List ℕ) : Option LineBuffer → Type 0 where
  made :
      {b' : LineBuffer} (e : AppliedEdit) (t : List ℕ)
      → (OnBoundary b.cursor b.text → Edited e b.text t)
      → OnBoundary (from + byte_len new_text) t
      → e.cursor_before ≡ b.cursor
      → b'
        ≡ bump
            (record (record_edit (record b { text = t }) e) { cursor = from + byte_len new_text })
      → Replaced b from new_text (some b')
  out_of_bounds : Replaced b from new_text none

pub replace-Replaced :
    (b : LineBuffer) (from to : ℕ) (new_text : List ℕ)
    → Replaced b from new_text (replace b from to new_text)
unfolding replace
replace-Replaced b from to new_text =
    by_splice (splice from to new_text b.text) (splice-Splice from to new_text b.text)
  where
    by_splice :
        (x : Option (List ℕ × List ℕ))
        → Splice from to new_text b.text x
        → Replaced b from new_text (
            x >>= λ (removed_text, after). some (
              bump
                (record (record_edit
                  (record b { text = after })
                  (record {
                    at = from;
                    removed = removed_text;
                    inserted = new_text;
                    cursor_before = b.cursor;
                  })) { cursor = from + byte_len new_text })))
    by_splice none panics = out_of_bounds
    by_splice (some p) (replaced l m r h k j) =
        made (record { at = from; removed = m; inserted = new_text; cursor_before = b.cursor })
          (l ++ (new_text ++ r)) (λ c. edited l r h refl k c)
          (on_boundary (l ++ new_text) r (sym (append_assoc l new_text r))
            (omega (arith, byte_len-append l new_text)))
          refl refl

-- What `apply` answers: a refusal, with the buffer as it was, or success.
pub data Applied (b : LineBuffer) (edit : TextEdit) : Option Answer → Type 0 where
  turned_down : {e : EditError} → Applied b edit (some (err e, b))
  went_in :
      {b' : LineBuffer}
      → Replaced b edit.start edit.text (some b')
      → Applied b edit (some (ok tt, b'))
  panicked : Applied b edit none

apply_span-Applied : (b : LineBuffer) (edit : TextEdit) → Applied b edit (apply_span b edit)
unfolding apply_span
apply_span-Applied b edit = by_removed (splice edit.start edit.stop edit.text b.text)
  where
    by_replace :
        (x : Option LineBuffer)
        → Replaced b edit.start edit.text x
        → Applied b edit (x >>= λ b'. some (ok tt, b'))
    by_replace none h = panicked
    by_replace (some b') h = went_in h

    by_test :
        (c : Bool)
        → Applied b edit (
            if c
            then some (err span_content_changed, b)
            else (replace b edit.start edit.stop edit.text >>= λ b'. some (ok tt, b')))
    by_test true = turned_down
    by_test false =
        by_replace (replace b edit.start edit.stop edit.text)
          (replace-Replaced b edit.start edit.stop edit.text)

    by_removed :
        (x : Option (List ℕ × List ℕ))
        → Applied b edit (
            x >>= λ (removed_text, after).
            if has_changed edit.expected removed_text
            then some (err span_content_changed, b)
            else (replace b edit.start edit.stop edit.text >>= λ b'. some (ok tt, b')))
    by_removed none = panicked
    by_removed (some p) = by_test (has_changed edit.expected p.0)

pub apply-Applied : (b : LineBuffer) (edit : TextEdit) → Applied b edit (apply b edit)
unfolding apply
apply-Applied b edit = by_refusal (refusal b edit)
  where
    by_refusal :
        (x : Option EditError)
        → Applied b edit (elim x [ some e ↦ some (err e, b) | none ↦ apply_span b edit ])
    by_refusal (some e) = turned_down
    by_refusal none = apply_span-Applied b edit

-- The text and the cursor that a call leaves behind.
abbrev pub shown : Option Answer → Option (List ℕ × ℕ)
shown none = none
shown (some (r, b)) = some (b.text, b.cursor)

undo-single :
    (b : LineBuffer) (e : AppliedEdit) (s name : List ℕ) (ts : List Transaction)
    → Edited e s b.text
    → b.undo_stack ≡ record { edits = e ∷ []; label = name } ∷ ts
    → shown (undo b) ≡ some (s, e.cursor_before)
unfolding undo reverse
undo-single b e s name ts h k =
    let run : revert_all (record b { undo_stack = ts }) (e ∷ [])
        ≡ some (record b { text = s; cursor = e.cursor_before; undo_stack = ts }) =
      revert_all-Runs (record b { undo_stack = ts }) (e ∷ []) s (step h stop) in
    rw (k, run) refl

undo-accepted :
    (b : LineBuffer) (edit : TextEdit) (b' : LineBuffer) {x : Option Answer}
    → OnBoundary b.cursor b.text
    → Applied (begin b (codes "accept completion")) edit x
    → (x >>= λ a. some (accepted a)) ≡ some (ok tt, b')
    → shown (undo b') ≡ some (b.text, b.cursor)
unfolding begin accepted commit close record_edit bump
undo-accepted b edit b' c panicked h = absurd (ground arith)
undo-accepted b edit b' c turned_down h = absurd (ground arith)
undo-accepted b edit b' c (went_in {b' = d} (made e t ed at cur eq)) h =
    let left : commit d ≡ b' = cc in
    subst (λ z. shown (undo z) ≡ some (b.text, b.cursor)) (ap commit (sym eq) ∙ left)
      (undo-single _ e b.text (codes "accept completion") b.undo_stack (ed c) refl
        ∙ ap (λ n. some (b.text, n)) cur)

-- An accepted completion is taken back by one undo: the text and the cursor are what they were.
pub accept_completion-undo :
    (b : LineBuffer) (edit : TextEdit) (b' : LineBuffer)
    → OnBoundary b.cursor b.text
    → accept_completion b edit ≡ some (ok tt, b')
    → shown (undo b') ≡ some (b.text, b.cursor)
unfolding accept_completion
accept_completion-undo b edit b' c h =
    undo-accepted b edit b' c (apply-Applied (begin b (codes "accept completion")) edit) h
