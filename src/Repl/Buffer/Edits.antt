-- ===== src/Repl/Buffer/Edits.antt =====
-- What an edit did to a text, and taking it back.
use penguin_redis.Prelude.{ℕ, ◌+◌, ◌≡◌, refl, sym, subst, ap, ◌∙◌, some, List, [], ◌∷◌, ◌++◌}
use penguin_redis.Repl.Text.{◌>>=◌, byte_len, splice}
use penguin_redis.Repl.Text.Parts.{splice-append, OnBoundary}
use penguin_redis.Repl.Buffer.{
  AppliedEdit, LineBuffer, revert_edit, repeat_edit, revert_all, repeat_all,
}

-- The edit made `t` of `s`, with the cursor at a boundary of `s`.
pub data Edited (e : AppliedEdit) (s t : List ℕ) : Type 0 where
  edited :
      (l r : List ℕ)
      → s ≡ l ++ (e.removed ++ r)
      → t ≡ l ++ (e.inserted ++ r)
      → e.at ≡ byte_len l
      → OnBoundary e.cursor_before s
      → Edited e s t

-- The edits made `t` of `s`, one after the other.
pub data Runs : List AppliedEdit → List ℕ → List ℕ → Type 0 where
  stop : {s : List ℕ} → Runs [] s s
  step :
      {e : AppliedEdit} {es : List AppliedEdit} {s t u : List ℕ}
      → Edited e s t
      → Runs es t u
      → Runs (e ∷ es) s u

pub Runs-append :
    {es : List AppliedEdit} {e : AppliedEdit} {s t u : List ℕ}
    → Runs es s t
    → Edited e t u
    → Runs (es ++ e ∷ []) s u
Runs-append stop h = step h stop
Runs-append (step k run) h = step k (Runs-append run h)

pub revert_edit-Edited :
    (b : LineBuffer) (e : AppliedEdit) (s : List ℕ)
    → Edited e s b.text
    → revert_edit b e ≡ some (record b { text = s; cursor = e.cursor_before })
unfolding revert_edit
revert_edit-Edited b e s (edited l r h k at cursor) =
    let answer : splice e.at (e.at + byte_len e.inserted) e.removed b.text ≡ some (e.inserted, s) =
      subst (λ n. splice n (n + byte_len e.inserted) e.removed b.text ≡ some (e.inserted, s))
        (sym at)
        (ap (splice (byte_len l) (byte_len l + byte_len e.inserted) e.removed) k
          ∙ splice-append l e.inserted r e.removed
          ∙ ap (λ t. some (e.inserted, t)) (sym h)) in
    rw answer refl

pub repeat_edit-Edited :
    (b : LineBuffer) (e : AppliedEdit) (t : List ℕ)
    → Edited e b.text t
    → repeat_edit b e ≡ some (record b { text = t; cursor = e.at + byte_len e.inserted })
unfolding repeat_edit
repeat_edit-Edited b e t (edited l r h k at cursor) =
    let answer : splice e.at (e.at + byte_len e.removed) e.inserted b.text ≡ some (e.removed, t) =
      subst (λ n. splice n (n + byte_len e.removed) e.inserted b.text ≡ some (e.removed, t))
        (sym at)
        (ap (splice (byte_len l) (byte_len l + byte_len e.removed) e.inserted) h
          ∙ splice-append l e.removed r e.inserted
          ∙ ap (λ u. some (e.removed, u)) (sym k)) in
    rw answer refl

-- The cursor before the first edit, and behind the last.
abbrev pub first_cursor : ℕ → List AppliedEdit → ℕ
first_cursor c [] = c
first_cursor c (e ∷ es) = e.cursor_before

abbrev pub last_cursor : ℕ → List AppliedEdit → ℕ
last_cursor c [] = c
last_cursor c (e ∷ es) = last_cursor (e.at + byte_len e.inserted) es

pub revert_all-Runs :
    (b : LineBuffer) (es : List AppliedEdit) (s : List ℕ)
    → Runs es s b.text
    → revert_all b es ≡ some (record b { text = s; cursor = first_cursor b.cursor es })
unfolding revert_all
revert_all-Runs b [] s stop = refl
revert_all-Runs b (e ∷ es) s (step {t = t} h run) =
    ap (λ x. x >>= λ b'. revert_edit b' e) (revert_all-Runs b es t run)
    ∙ revert_edit-Edited (record b { text = t; cursor = first_cursor b.cursor es }) e s h

pub repeat_all-Runs :
    (b : LineBuffer) (es : List AppliedEdit) (t : List ℕ)
    → Runs es b.text t
    → repeat_all b es ≡ some (record b { text = t; cursor = last_cursor b.cursor es })
unfolding repeat_all
repeat_all-Runs b [] t stop = refl
repeat_all-Runs b (e ∷ es) u (step {t = t} h run) =
    ap (λ x. x >>= λ b'. repeat_all b' es) (repeat_edit-Edited b e t h)
    ∙ repeat_all-Runs (record b { text = t; cursor = e.at + byte_len e.inserted }) es u run
