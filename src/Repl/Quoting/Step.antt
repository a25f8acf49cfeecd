-- ===== src/Repl/Quoting/Step.antt =====
-- One round of the inner loop of `split_args`: how many bytes it takes.
use penguin_redis.Prelude.{ℕ, ◌≤◌, ◌<◌, List, [], ◌∷◌, arith, length}
use penguin_redis.Repl.Quoting.{
  Mode, plain, double, single, Move, stop, fail, go, step, escape, closes, starts_with_quote,
  hex_pair,
}

-- A round stays within the bytes that are left, and a round that goes on takes one at least.
abbrev pub Within : ℕ → Move → Type 0
Within k (stop n) = n ≤ k
Within k (fail e) = Unit {0}
Within k (go m n out) = (0 < n) × (n ≤ k)

pub step-Within : (m : Mode) (line : List ℕ) → Within (length line) (step m line)
unfolding step escape closes starts_with_quote hex_pair
step-Within plain [] = omega arith
step-Within plain (c ∷ r) = ground arith
step-Within double [] = tt
step-Within double (c ∷ []) = ground arith
step-Within double (c ∷ d ∷ []) = ground arith
step-Within double (c ∷ d ∷ e ∷ []) = ground arith
step-Within double (c ∷ d ∷ e ∷ f ∷ r) = ground arith
step-Within single [] = tt
step-Within single (c ∷ []) = ground arith
step-Within single (c ∷ d ∷ r) = ground arith
