-- ===== src/Mcp/Glob.antt =====
-- crates/pr-mcp/src/policy.rs: the matching of key patterns.
--
-- `glob_bytes` moves two positions over a pattern and a key; here they are what is left of both.
-- The position of the last `*` is the pattern behind it, with the key where it was met. The loop
-- runs on fuel, and `none` says that it was too little.
pub mod Meaning
pub mod Rounds
use penguin_redis.Prelude.{
  ℕ, zero, suc, ◌+◌, ◌-◌, ◌*◌, Bool, true, false, not, ◌&&◌, ◌||◌, Option, none, some, List, [],
  ◌∷◌, ltb, leb, ◌==◌, if◌then◌else◌, length,
}

-- The loop of `class`, from a position on: what is behind the class, and whether `c` was hit.
unfoldable pub class_items : ℕ → Bool → Bool → List ℕ → Option (List ℕ × Bool)
class_items c first hit [] = none
class_items c first hit (x ∷ []) = if x == b']' && not first then some ([], hit) else none
class_items c first hit (x ∷ y ∷ []) =
    let escaped = class_items c false (hit || y == c) [] in
    let single = class_items c false (hit || x == c) (y ∷ []) in
    if x == b']' && not first then some (y ∷ [], hit) else if x == b'\\' then escaped else single
class_items c first hit (x ∷ y ∷ z ∷ r) =
    let escaped = class_items c false (hit || y == c) (z ∷ r) in
    let range = class_items c false (hit || (leb x c && leb c z)) r in
    let single = class_items c false (hit || x == c) (y ∷ z ∷ r) in
    if x == b']' && not first
    then some (y ∷ z ∷ r, hit)
    else if x == b'\\'
    then escaped
    else if y == b'-' && not (z == b']')
    then range
    else single

unfoldable pub differs : Bool → Bool → Bool
differs true b = not b
differs false b = b

unfoldable pub with_negate : Bool → Option (List ℕ × Bool) → Option (List ℕ × Bool)
unfolding differs
with_negate negate none = none
with_negate negate (some (r, hit)) = some (r, differs negate hit)

-- `class`, behind its `[`.
unfoldable pub class : ℕ → List ℕ → Option (List ℕ × Bool)
unfolding class_items with_negate
class c [] = none
class c (x ∷ r) =
    if x == b'^'
    then with_negate true (class_items c true false r)
    else with_negate false (class_items c true false (x ∷ r))

-- The pattern behind its first element, when that takes the byte `c`.
unfoldable pub matched : Option (List ℕ × Bool) → Option (List ℕ)
matched none = none
matched (some (r, hit)) = if hit then some r else none

unfoldable pub behind_escape : ℕ → ℕ → List ℕ → Option (List ℕ)
behind_escape c x [] = if x == c then some [] else none
behind_escape c x (e ∷ p) =
    if x == b'\\' && e == c then some p else if x == c then some (e ∷ p) else none

unfoldable pub take_byte : ℕ → List ℕ → Option (List ℕ)
unfolding class matched behind_escape
take_byte c [] = none
take_byte c (x ∷ p) =
    if x == b'?' then some p else if x == b'[' then matched (class c p) else behind_escape c x p

abbrev pub tail : List ℕ → List ℕ
tail [] = []
tail (c ∷ k) = k

unfoldable pub all_stars : List ℕ → Bool
all_stars [] = true
all_stars (x ∷ p) = x == b'*' && all_stars p

-- The pattern behind a `*`.
unfoldable pub starred : List ℕ → Option (List ℕ)
starred [] = none
starred (x ∷ p) = if x == b'*' then some p else none

-- The pattern and the key that are left, and the last `*`.
abbrev pub Place : Type 0
Place = List ℕ × List ℕ × Option (List ℕ × List ℕ)

-- Back to the last `*`, which takes a byte more.
unfoldable pub resume : Option (List ℕ × List ℕ) → Option Place
resume none = none
resume (some (p, k)) = some (p, tail k, some (p, tail k))

-- One round of the loop of `glob_bytes`, at the byte `c` of the key.
unfoldable pub round : List ℕ → ℕ → List ℕ → Option (List ℕ × List ℕ) → Option Place
unfolding take_byte starred resume
round p c k star = elim (starred p) [
  | some q ↦ some (q, c ∷ k, some (q, c ∷ k))
  | none ↦ elim (take_byte c p) [ some q ↦ some (q, k, star) | none ↦ resume star ]
]

-- The loop of `glob_bytes`.
unfoldable pub glob_loop : ℕ → List ℕ → List ℕ → Option (List ℕ × List ℕ) → Option Bool
unfolding round all_stars
glob_loop zero p k star = none
glob_loop (suc f) p [] star = some (all_stars p)
glob_loop (suc f) p (c ∷ k) star = elim (round p c k star) [
  | none ↦ some false
  | some place ↦ glob_loop f place.0 place.1 place.2
]

-- Rounds enough: a turn over the pattern for each byte of the key, and one more.
abbrev pub glob_fuel : List ℕ → List ℕ → ℕ
glob_fuel p k = suc (suc (length k) * suc (length p))

unfoldable pub glob_bytes : List ℕ → List ℕ → Option Bool
unfolding glob_loop
glob_bytes p k = glob_loop (glob_fuel p k) p k none
