-- ===== src/Core/Request/Canonical.antt =====
-- The canonical bytes determine the arguments.
use penguin_redis.Prelude.{
  ℕ, ◌^◌, ◌<◌, ◌≡◌, refl, sym, ◌∙◌, ap, ap₂, append_assoc, List, [], ◌∷◌, ◌++◌, arith, length, All,
  to_le_bytes, to_le_bytes-cancel, append_cancel,
}
use penguin_redis.Core.Request.{CommandRequest, canonical_args, canonical_bytes}

-- Every length fits the eight bytes that are written for it, as it does in memory.
abbrev pub FitsWords : List (List ℕ) → Type 0
FitsWords args = (length args < 2 ^ 64) × All (λ a. length a < 2 ^ 64) args

regroup :
    (x : List ℕ) (xs : List (List ℕ)) (r : List ℕ)
    → canonical_args (x ∷ xs) ++ r ≡ to_le_bytes (length x) ++ (x ++ (canonical_args xs ++ r))
unfolding canonical_args
regroup x xs r = simp append_assoc

canonical_args-cancel :
    (xs ys : List (List ℕ)) (r s : List ℕ)
    → length xs ≡ length ys
    → All (λ a. length a < 2 ^ 64) xs
    → All (λ a. length a < 2 ^ 64) ys
    → canonical_args xs ++ r ≡ canonical_args ys ++ s
    → (xs ≡ ys) × (r ≡ s)
unfolding canonical_args
canonical_args-cancel [] [] r s l h k e = (refl, e)
canonical_args-cancel [] (y ∷ ys) r s l h k e = absurd (omega arith)
canonical_args-cancel (x ∷ xs) [] r s l h k e = absurd (omega arith)
canonical_args-cancel (x ∷ xs) (y ∷ ys) r s l (hx, h) (ky, k) e =
    let heads =
      to_le_bytes-cancel (length x) (length y) (x ++ (canonical_args xs ++ r))
        (y ++ (canonical_args ys ++ s)) hx ky (sym (regroup x xs r) ∙ e ∙ regroup y ys s) in
    let bodies =
      append_cancel x y (canonical_args xs ++ r) (canonical_args ys ++ s) heads.0 heads.1 in
    let rests = canonical_args-cancel xs ys r s (omega arith) h k bodies.1 in
    (ap₂ (λ b bs. b ∷ bs) bodies.0 rests.0, rests.1)

-- Two requests of one canonical form have the same arguments, in the same order: the form has
-- no second reading, whatever bytes the arguments hold. (Every length fits eight bytes.)
pub canonical_bytes-args :
    (p q : CommandRequest)
    → FitsWords p.args
    → FitsWords q.args
    → canonical_bytes p ≡ canonical_bytes q
    → p.args ≡ q.args
unfolding canonical_bytes
canonical_bytes-args p q (n, h) (m, k) e =
    let counts =
      to_le_bytes-cancel (length p.args) (length q.args) (canonical_args p.args)
        (canonical_args q.args) n m e in
    (canonical_args-cancel p.args q.args [] [] counts.0 h k (ap (λ b. b ++ []) counts.1)).0
