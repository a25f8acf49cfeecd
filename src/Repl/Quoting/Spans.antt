-- ===== src/Repl/Quoting/Spans.antt =====
-- `split_args` returns on every line, and its tokens stand where their spans say.
use penguin_redis.Prelude.{
  ℕ, zero, suc, ◌+◌, ◌-◌, ◌≤◌, ◌<◌, ◌≡◌, refl, sym, ap, subst, ◌∙◌, Option, none, some, List, [],
  ◌∷◌, ◌++◌, arith, Result, ok, err, length, drop, length-drop, append-nil, append_assoc,
}
use penguin_redis.Repl.Quoting.{
  TokenizeError, Token, plain, Scanned, scan, blanks, tokens, split_args,
}
use penguin_redis.Repl.Quoting.Total.{
  Ends, scan-Ends, blanks-le, blanks-stops, scan-advances, Ordered, Splits,
}

Splits-cons :
    (lo hi : ℕ) (out : List Token) (t : Token) (r : Option (Result TokenizeError (List Token)))
    → lo ≤ t.start
    → t.start < t.stop
    → Splits t.stop hi (out ++ t ∷ []) r
    → Splits lo hi out r
Splits-cons lo hi out t none a b h = h
Splits-cons lo hi out t (some (err e)) a b h = tt
Splits-cons lo hi out t (some (ok ts)) a b (new, e, o) =
    (t ∷ new, e ∙ append_assoc out (t ∷ []) new, (a, b, o))

-- The token that the outer loop makes of what the inner loop left.
abbrev token_of : ℕ → Scanned → Token
token_of start s = record { bytes = s.bytes; start = start; stop = s.stop }

-- What `tokens` does with the result of the inner loop.
abbrev after_scan :
    ℕ
    → ℕ
    → ℕ
    → List Token
    → Option (Result TokenizeError Scanned)
    → Option (Result TokenizeError (List Token))
after_scan f inner start out r = elim r [
  | none ↦ none
  | some (err e) ↦ some (err e)
  | some (ok s) ↦ tokens f inner s.rest s.stop (out ++ token_of start s ∷ [])
]

tokens-Splits :
    (f inner : ℕ) (line : List ℕ) (i : ℕ) (out : List Token)
    → length line < f
    → length line < inner
    → Splits i (i + length line) out (tokens f inner line i out)
unfolding tokens
tokens-Splits zero inner line i out h k = absurd (omega arith)
tokens-Splits (suc f) inner line i out h k =
    by_rest (drop (blanks line) line) refl λ s p q. tokens-Splits f inner s.rest s.stop _ p q
  where
    start : ℕ
    start = i + blanks line

    Later : Type 0
    Later =
        (s : Scanned)
        → length s.rest < f
        → length s.rest < inner
        → Splits s.stop (s.stop + length s.rest) (out ++ token_of start s ∷ [])
            (tokens f inner s.rest s.stop (out ++ token_of start s ∷ []))

    by_scan :
        (c : ℕ) (r : List ℕ) (v : Option (Result TokenizeError Scanned))
        → drop (blanks line) line ≡ c ∷ r
        → scan inner plain (c ∷ r) start [] ≡ v
        → Ends (c ∷ r) start v
        → Later
        → Splits i (i + length line) out (after_scan f inner start out v)
    by_scan c r none e g w later = w
    by_scan c r (some (err x)) e g w later = tt
    by_scan c r (some (ok s)) e g w later =
        let whole : suc (length r) + blanks line ≡ length line =
          omega (arith, ap length e, length-drop (blanks line) line, blanks-le line) in
        let moved : start < s.stop =
          scan-advances inner c r start s (omega arith) (blanks-stops line c r e) g in
        let left : length s.rest ≡ suc (length r) - (s.stop - start) =
          ap length w.2 ∙ length-drop (s.stop - start) (c ∷ r) in
        let hi : s.stop + length s.rest ≡ i + length line = omega arith in
        Splits-cons i (i + length line) out _ _ (omega arith) moved (
          subst
            (λ n.
              Splits s.stop n (out ++ token_of start s ∷ [])
                (after_scan f inner start out (some (ok s))))
            hi (later s (omega arith) (omega arith)))

    by_rest :
        (rest : List ℕ)
        → drop (blanks line) line ≡ rest
        → Later
        → Splits i (i + length line) out (elim rest [
          | [] ↦ some (ok out)
          | c ∷ r ↦ after_scan f inner start out (scan inner plain (c ∷ r) start [])
        ])
    by_rest [] e later = ([], sym (append-nil out), omega arith)
    by_rest (c ∷ r) e later =
        by_scan c r _ e refl
          (scan-Ends inner plain (c ∷ r) start []
            (omega (arith, ap length e, length-drop (blanks line) line)))
          later

split_args-Splits : (line : List ℕ) → Splits 0 (0 + length line) [] (split_args line)
unfolding split_args
split_args-Splits line =
    tokens-Splits (suc (length line)) (suc (length line)) line 0 [] (omega arith) (omega arith)

Splits-total :
    (lo hi : ℕ) (out : List Token) (r : Option (Result TokenizeError (List Token)))
    → Splits lo hi out r
    → (x : Result TokenizeError (List Token)) × (r ≡ some x)
Splits-total lo hi out none h = absurd h
Splits-total lo hi out (some x) h = (x, refl)

-- `split_args` returns tokens or an error on every line: no loop runs on.
pub split_args_total :
    (line : List ℕ) → (r : Result TokenizeError (List Token)) × (split_args line ≡ some r)
split_args_total line =
    Splits-total 0 (0 + length line) [] (split_args line) (split_args-Splits line)

-- The tokens of a line stand in it in order, apart from one another, and none is empty: their
-- spans are non-empty byte ranges of the line, each behind the one before.
pub split_args-Ordered :
    (line : List ℕ) (ts : List Token) → split_args line ≡ some (ok ts) → Ordered 0 (length line) ts
split_args-Ordered line ts e =
    let (new, same, o) : Splits 0 (0 + length line) [] (some (ok ts)) =
      subst (Splits 0 (0 + length line) []) e (split_args-Splits line) in
    subst (Ordered 0 (length line)) (sym same) (subst (λ n. Ordered 0 n new) (omega arith) o)
