-- ===== src/Mcp/Glob/Rounds.antt =====
-- The rounds of the matcher's loop (crates/pr-mcp/src/policy.rs), and its fuel.
use penguin_redis.Prelude.{
  ℕ, zero, suc, ◌+◌, ◌*◌, ◌≤◌, ◌<◌, ◌≡◌, refl, subst, ap, Bool, true, false, not, ◌&&◌, ◌||◌,
  Option, none, some, List, [], ◌∷◌, leb, ◌==◌, if◌then◌else◌, length, arith,
}
use penguin_redis.Prelude.{is_some}
use penguin_redis.Mcp.Glob.{
  class_items, class, with_negate, tail, Place, starred, resume, round, glob_loop, glob_fuel,
  glob_bytes,
}
use penguin_redis.Mcp.Glob.Meaning.{
  Takes, any_byte, one_of, escaped, itself, Round, at_star, byte, back, round-Round,
}

-- A class leaves at most `n` bytes.
data Leaves (n : ℕ) : Option (List ℕ × Bool) → Type 0 where
  leaves : {r : List ℕ} {hit : Bool} → length r ≤ n → Leaves n (some (r, hit))
  unterminated : Leaves n none

Leaves-if :
    {n : ℕ} (t : Bool) {x y : Option (List ℕ × Bool)}
    → Leaves n x
    → Leaves n y
    → Leaves n (if t then x else y)
Leaves-if true h k = h
Leaves-if false h k = k

Leaves-weaken : {n m : ℕ} {x : Option (List ℕ × Bool)} → n ≤ m → Leaves n x → Leaves m x
Leaves-weaken h (leaves k) = leaves (omega arith)
Leaves-weaken h unterminated = unterminated

class_items-Leaves :
    (c : ℕ) (first hit : Bool) (s : List ℕ) → Leaves (length s) (class_items c first hit s)
unfolding class_items
class_items-Leaves c first hit [] = unterminated
class_items-Leaves c first hit (x ∷ []) =
    Leaves-if (x == b']' && not first) (leaves (omega arith)) unterminated
class_items-Leaves c first hit (x ∷ y ∷ []) =
    Leaves-if (x == b']' && not first) (leaves (omega arith)) (
      Leaves-if (x == b'\\') unterminated
        (Leaves-weaken (omega arith) (class_items-Leaves c false (hit || x == c) (y ∷ []))))
class_items-Leaves c first hit (x ∷ y ∷ z ∷ r) =
    Leaves-if (x == b']' && not first) (leaves (omega arith)) (
      Leaves-if (x == b'\\')
        (Leaves-weaken (omega arith) (class_items-Leaves c false (hit || y == c) (z ∷ r)))
        (Leaves-if (y == b'-' && not (z == b']'))
          (Leaves-weaken (omega arith) (class_items-Leaves c false (hit || (leb x c && leb c z)) r))
          (Leaves-weaken (omega arith) (class_items-Leaves c false (hit || x == c) (y ∷ z ∷ r)))))

with_negate-Leaves :
    (n : ℕ) (negate : Bool) (x : Option (List ℕ × Bool))
    → Leaves n x
    → Leaves n (with_negate negate x)
unfolding with_negate
with_negate-Leaves n negate none h = unterminated
with_negate-Leaves n negate (some (r, hit)) (leaves h) = leaves h

class-Leaves : (c : ℕ) (p : List ℕ) → Leaves (length p) (class c p)
unfolding class
class-Leaves c [] = unterminated
class-Leaves c (x ∷ r) =
    Leaves-if (x == b'^')
      (with_negate-Leaves _ true (class_items c true false r)
        (Leaves-weaken (omega arith) (class_items-Leaves c true false r)))
      (with_negate-Leaves _ false (class_items c true false (x ∷ r))
        (class_items-Leaves c true false (x ∷ r)))

Leaves-length : {n : ℕ} {r : List ℕ} {hit : Bool} → Leaves n (some (r, hit)) → length r ≤ n
Leaves-length (leaves h) = h

Takes-length : {c : ℕ} {p q : List ℕ} → Takes c p q → length q < length p
Takes-length any_byte = omega arith
Takes-length {c} (one_of {p = p} e) =
    let inside = Leaves-length (subst (Leaves (length p)) e (class-Leaves c p)) in omega arith
Takes-length escaped = omega arith
Takes-length itself = omega arith

abbrev StarFits : ℕ → ℕ → Option (List ℕ × List ℕ) → Type 0
StarFits w m none = Unit
StarFits w m (some saved) = (length saved.0 < w) × (length saved.1 ≤ m)

-- The rounds that a place may take: its patterns are shorter than `w`, and its keys have at most
-- `m` bytes.
record Fits (f w m : ℕ) (place : Place) : Type 0 where
  pattern_fits : length place.0 < w
  key_fits : length place.1 ≤ m
  star_fits : StarFits w m place.2
  fuel_fits : m * w + length place.0 < f

-- A round leaves a place that may take fewer rounds.
data Next (f w : ℕ) (place : Place) : Type 0 where
  next : (m : ℕ) → Fits f w m place → Next f w place

length-tail : (k : List ℕ) (m : ℕ) → length k ≤ suc m → length (tail k) ≤ m
length-tail [] m h = omega arith
length-tail (c ∷ k) m h = omega arith

round-Next :
    {f w m c : ℕ} {p k : List ℕ} {star : Option (List ℕ × List ℕ)} {place : Place}
    → Fits (suc f) w m (p, c ∷ k, star)
    → Round p c k star (some place)
    → Next f w place
round-Next {m = m} h (at_star e) =
    let shorter = ap length e in
    let small = h.pattern_fits in
    let key = h.key_fits in
    let fuel = h.fuel_fits in
    next m (record {
      pattern_fits = omega arith;
      key_fits = key;
      star_fits = (omega arith, key);
      fuel_fits = omega arith;
    })
round-Next {m = m} h (byte e t) =
    let shorter = Takes-length t in
    let small = h.pattern_fits in
    let key = h.key_fits in
    let fuel = h.fuel_fits in
    next m (record {
      pattern_fits = omega arith;
      key_fits = omega arith;
      star_fits = h.star_fits;
      fuel_fits = omega arith;
    })
round-Next {m = zero} h (back) = let key = h.key_fits in absurd (omega arith)
round-Next {w = w} {m = suc m} h (back {q = q} {r = r}) =
    let star = h.star_fits in
    let key = length-tail r m star.1 in
    let fuel = h.fuel_fits in
    next m (record {
      pattern_fits = star.0;
      key_fits = key;
      star_fits = (star.0, key);
      fuel_fits = omega arith;
    })

glob_loop-some :
    (f w m : ℕ) (p k : List ℕ) (star : Option (List ℕ × List ℕ))
    → Fits f w m (p, k, star)
    → is_some (glob_loop f p k star) ≡ true
unfolding glob_loop is_some
glob_loop-some zero w m p k star h = let fuel = h.fuel_fits in absurd (omega arith)
glob_loop-some (suc f) w m p [] star h = refl
glob_loop-some (suc f) w m p (c ∷ k) star h =
    by_place (round p c k star) (round-Round p c k star)
      (λ n place fits. glob_loop-some f w n place.0 place.1 place.2 fits)
  where
    by_next :
        (place : Place)
        → Next f w place
        → ((n : ℕ) (place : Place)
            → Fits f w n place
            → is_some (glob_loop f place.0 place.1 place.2) ≡ true)
        → is_some (glob_loop f place.0 place.1 place.2) ≡ true
    by_next place (next n fits) go = go n place fits

    by_place :
        (x : Option Place)
        → Round p c k star x
        → ((n : ℕ) (place : Place)
            → Fits f w n place
            → is_some (glob_loop f place.0 place.1 place.2) ≡ true)
        → is_some (elim x [ none ↦ some false | some place ↦ glob_loop f place.0 place.1 place.2 ])
          ≡ true
    by_place none r go = refl
    by_place (some place) r go = by_next place (round-Next h r) go

-- The matcher answers for every pattern and every key, within its rounds.
pub glob_bytes_total : (p k : List ℕ) → is_some (glob_bytes p k) ≡ true
unfolding glob_bytes
glob_bytes_total p k = glob_loop-some (glob_fuel p k) (suc (length p)) (length k) p k none (record {
  pattern_fits = omega arith;
  key_fits = omega arith;
  star_fits = tt;
  fuel_fits = omega arith;
})

-- Behind a `*` that ends the pattern, any key matches.
star_last : (f : ℕ) (k : List ℕ) → length k < f → glob_loop f [] k (some ([], k)) ≡ some true
unfolding glob_loop round resume
star_last zero k h = absurd (omega arith)
star_last (suc f) [] h = refl
star_last (suc f) (c ∷ k) h = star_last f k (omega arith)

star_only : (f : ℕ) (k : List ℕ) → suc (length k) < f → glob_loop f (b'*' ∷ []) k none ≡ some true
unfolding glob_loop round starred
star_only zero k h = absurd (omega arith)
star_only (suc f) [] h = refl
star_only (suc f) (c ∷ k) h = star_last f (c ∷ k) (omega arith)

-- The pattern `\*` matches every key that begins with a backslash.
pub glob_bytes-escaped_star : (k : List ℕ) → glob_bytes (b'\\' ∷ b'*' ∷ []) (b'\\' ∷ k) ≡ some true
unfolding glob_bytes
glob_bytes-escaped_star k = star_only (suc (suc (length k)) * 3) k (omega arith)
