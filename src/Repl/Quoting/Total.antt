-- ===== src/Repl/Quoting/Total.antt =====
-- The loops of `split_args` end before their fuel does.
use penguin_redis.Prelude.{
  ℕ, zero, suc, ◌+◌, ◌-◌, ◌≤◌, ◌<◌, ◌≡◌, false, ap, ◌∙◌, Option, none, some, List, [], ◌∷◌, ◌++◌,
  arith, Result, ok, err, length, drop, length-drop, drop-drop, is_ascii_whitespace,
}
use penguin_redis.Repl.Quoting.{
  TokenizeError, Token, Mode, plain, double, single, Move, stop, fail, go, step, Scanned, scan,
  blanks,
}
use penguin_redis.Repl.Quoting.Step.{Within, step-Within}

-- The inner loop returned, and what it leaves is the line from the index where it stopped.
abbrev pub Ends : List ℕ → ℕ → Option (Result TokenizeError Scanned) → Type 0
Ends line i none = ⊥
Ends line i (some (err e)) = Unit {0}
Ends line i (some (ok s)) =
    (i ≤ s.stop) × (s.stop ≤ i + length line) × (s.rest ≡ drop (s.stop - i) line)

Ends-go :
    (n i : ℕ) (line : List ℕ) (r : Option (Result TokenizeError Scanned))
    → n ≤ length line
    → Ends (drop n line) (i + n) r
    → Ends line i r
Ends-go n i line none h e = e
Ends-go n i line (some (err x)) h e = tt
Ends-go n i line (some (ok s)) h e = (
  omega arith,
  omega (arith, length-drop n line),
  e.2 ∙ drop-drop n (s.stop - (i + n)) line ∙ ap (λ k. drop k line) (omega arith),
)

pub scan-Ends :
    (f : ℕ) (m : Mode) (line : List ℕ) (i : ℕ) (cur : List ℕ)
    → length line < f
    → Ends line i (scan f m line i cur)
unfolding scan
scan-Ends zero m line i cur h = elim h [ ]
scan-Ends (suc f) m line i cur h = by_move (step m line) (step-Within m line) λ m' n out w.
    scan-Ends f m' (drop n line) (i + n) (cur ++ out) (omega (arith, length-drop n line))
  where
    by_move :
        (v : Move)
        → Within (length line) v
        → ((m' : Mode) (n : ℕ) (out : List ℕ)
            → (0 < n) × (n ≤ length line)
            → Ends (drop n line) (i + n) (scan f m' (drop n line) (i + n) (cur ++ out)))
        → Ends line i (elim v [
          | stop n ↦ some (ok (record { bytes = cur; stop = i + n; rest = drop n line }))
          | fail e ↦ some (err e)
          | go m' n out ↦ scan f m' (drop n line) (i + n) (cur ++ out)
        ])
    by_move (stop n) w ih = (omega arith, omega arith, ap (λ k. drop k line) (omega arith))
    by_move (fail e) w ih = tt
    by_move (go m' n out) w ih = Ends-go n i line _ w.1 (ih m' n out w)

pub blanks-le : (line : List ℕ) → blanks line ≤ length line
unfolding blanks
blanks-le [] = omega arith
blanks-le (c ∷ r) = ground (arith, blanks-le r)

pub blanks-stops :
    (line : List ℕ) (c : ℕ) (r : List ℕ)
    → drop (blanks line) line ≡ c ∷ r
    → is_ascii_whitespace c ≡ false
unfolding blanks
blanks-stops [] c r h = cc
blanks-stops (d ∷ s) c r h = ground (arith, blanks-stops s c r)

-- A token that begins with a byte which is no white space is not empty.
pub scan-advances :
    (f : ℕ) (c : ℕ) (r : List ℕ) (i : ℕ) (s : Scanned)
    → suc (length r) < f
    → is_ascii_whitespace c ≡ false
    → scan f plain (c ∷ r) i [] ≡ some (ok s)
    → i < s.stop
unfolding scan step
scan-advances zero c r i s h w e = absurd (omega arith)
scan-advances (suc f) c r i s h w e = ground (
  arith,
  scan-Ends f double r (i + 1) [] (omega arith),
  scan-Ends f single r (i + 1) [] (omega arith),
  scan-Ends f plain r (i + 1) (c ∷ []) (omega arith),
)

-- The spans stand in the line from `lo` to `hi`, in order, apart, and none is empty.
abbrev pub Ordered : ℕ → ℕ → List Token → Type 0
Ordered lo hi [] = lo ≤ hi
Ordered lo hi (t ∷ ts) = (lo ≤ t.start) × (t.start < t.stop) × Ordered t.stop hi ts

-- The outer loop returned, and it appended tokens with such spans to those it had.
abbrev pub Splits : ℕ → ℕ → List Token → Option (Result TokenizeError (List Token)) → Type 0
Splits lo hi out none = ⊥
Splits lo hi out (some (err e)) = Unit {0}
Splits lo hi out (some (ok ts)) = (new : List Token) × (ts ≡ out ++ new) × Ordered lo hi new
