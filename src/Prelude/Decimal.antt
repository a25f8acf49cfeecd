-- ===== src/Prelude/Decimal.antt =====
-- Decimal numbers as text: what the standard library prints, and what it reads.
use Prim.Native.Nat.{ℕ, zero, suc, ◌+◌, ◌-◌, ◌*◌, ◌/◌, ◌%◌, ◌^◌, ◌≤◌, ◌<◌}
use mathlib.Core.Path.{◌≡◌, ◌∙◌, ap}
use mathlib.Core.Bool.{Bool, ◌&&◌}
use mathlib.Core.Logic.{inl, inr}
use mathlib.Core.Option.{Option, none, some}
use mathlib.Core.List.{List, [], ◌∷◌, ◌++◌}
use native.Mathlib.Omega.{arith}
use native.Mathlib.Nat.{pow-suc}
use penguin_redis.Prelude.Tests.{ltb, leb, if◌then◌else◌, Bool-cases}
use penguin_redis.Prelude.Lists.{All, All-append, length}

-- The decimal digits of a number below ten to the power of the first argument.
unfoldable pub decimal : ℕ → ℕ → List ℕ
decimal zero n = []
decimal (suc fuel) n =
    if ltb n 10 then (48 + n) ∷ [] else decimal fuel (n / 10) ++ ((48 + n % 10) ∷ [])

unfoldable pub is_digit : ℕ → Bool
is_digit c = leb 48 c && leb c 57

-- Decimal digits, with the number read so far.
unfoldable pub digits : ℕ → List ℕ → Option ℕ
digits n [] = some n
digits n (c ∷ cs) =
    let rest = digits (n * 10 + (c - 48)) cs in if leb 48 c && leb c 57 then rest else none

pub decimal-digit : (f n : ℕ) → All (λ c. (48 ≤ c) × (c ≤ 57)) (decimal f n)
unfolding decimal
decimal-digit zero n = tt
decimal-digit (suc f) n = elim (Bool-cases (ltb n 10)) [
  | inl b ↦ rw b ((omega arith, ground arith), tt)
  | inr b ↦ rw b (
      All-append (λ c. (48 ≤ c) × (c ≤ 57)) (decimal f (n / 10)) ((48 + n % 10) ∷ [])
        (decimal-digit f (n / 10)) ((omega arith, omega arith), tt))
]

digits-append :
    (n m c : ℕ) (ds : List ℕ)
    → digits n ds ≡ some m
    → c < 10
    → digits n (ds ++ ((48 + c) ∷ [])) ≡ some (m * 10 + c)
unfolding digits
digits-append n m c [] e h = ground arith
digits-append n m c (d ∷ ds) e h = ground (arith, digits-append (n * 10 + (d - 48)) m c ds)

-- A number is read back from what it prints as.
pub digits-decimal : (f n : ℕ) → n < 10 ^ f → digits 0 (decimal f n) ≡ some n
unfolding decimal
digits-decimal zero n h = unfold digits in (ap some (omega arith))
digits-decimal (suc f) n h = elim (Bool-cases (ltb n 10)) [
  | inl b ↦ rw b (unfold digits in ground arith)
  | inr b ↦ rw b (
      digits-append 0 (n / 10) (n % 10) (decimal f (n / 10))
        (digits-decimal f (n / 10) (omega (arith, pow-suc 10 f))) (omega arith)
      ∙ ap some (omega arith))
]

pub length-decimal : (f n : ℕ) → 0 < length (decimal (suc f) n)
unfolding decimal
length-decimal f n = elim (Bool-cases (ltb n 10)) [
  | inl b ↦ rw b (omega arith)
  | inr b ↦ rw b (length-snoc (decimal f (n / 10)) (48 + n % 10))
]
  where
    length-snoc : (xs : List ℕ) (x : ℕ) → 0 < length (xs ++ (x ∷ []))
    length-snoc [] x = omega arith
    length-snoc (y ∷ ys) x = omega arith
