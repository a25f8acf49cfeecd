-- ===== src/Prelude/Words.antt =====
-- `u64::to_le_bytes`, and cancelling what two byte strings begin with.
use Prim.Native.Nat.{ℕ, zero, suc, ◌/◌, ◌%◌, ◌^◌, ◌<◌}
use mathlib.Core.Path.{◌≡◌, refl}
use mathlib.Core.List.{List, [], ◌∷◌, ◌++◌}
use native.Mathlib.Omega.{arith}
use native.Mathlib.Nat.{pow-suc}
use penguin_redis.Prelude.Lists.{length}

unfoldable pub le_bytes : ℕ → ℕ → List ℕ
le_bytes zero n = []
le_bytes (suc k) n = n % 256 ∷ le_bytes k (n / 256)

pub le_bytes-cancel :
    (k n m : ℕ) (xs ys : List ℕ)
    → n < 256 ^ k
    → m < 256 ^ k
    → le_bytes k n ++ xs ≡ le_bytes k m ++ ys
    → (n ≡ m) × (xs ≡ ys)
unfolding le_bytes
le_bytes-cancel zero n m xs ys h l e = (omega arith, e)
le_bytes-cancel (suc k) n m xs ys h l e = ground (
  arith,
  le_bytes-cancel k (n / 256) (m / 256) xs ys (omega (arith, pow-suc 256 k))
      (omega (arith, pow-suc 256 k)),
)

unfoldable pub to_le_bytes : ℕ → List ℕ
unfolding le_bytes
to_le_bytes n = le_bytes 8 n

pub to_le_bytes-cancel :
    (n m : ℕ) (xs ys : List ℕ)
    → n < 2 ^ 64
    → m < 2 ^ 64
    → to_le_bytes n ++ xs ≡ to_le_bytes m ++ ys
    → (n ≡ m) × (xs ≡ ys)
unfolding to_le_bytes
to_le_bytes-cancel n m xs ys h l e = le_bytes-cancel 8 n m xs ys h l e

pub append_cancel :
    (a b xs ys : List ℕ) → length a ≡ length b → a ++ xs ≡ b ++ ys → (a ≡ b) × (xs ≡ ys)
append_cancel [] [] xs ys h e = (refl, e)
append_cancel [] (y ∷ b) xs ys h e = absurd (omega arith)
append_cancel (x ∷ a) [] xs ys h e = absurd (omega arith)
append_cancel (x ∷ a) (y ∷ b) xs ys h e = ground (arith, append_cancel a b xs ys)
