-- ===== src/Mcp/Glob/Meaning.antt =====
-- What a pattern that matches a key means.
use penguin_redis.Prelude.{
  ℕ, zero, suc, ◌≡◌, refl, sym, subst, ap₂, inl, inr, Bool, true, false, ◌&&◌, Option, none, some,
  List, [], ◌∷◌, ◌==◌, if◌then◌else◌, arith, Bool-cases,
}
use penguin_redis.Mcp.Glob.{
  class, matched, behind_escape, take_byte, tail, all_stars, starred, Place, resume, round,
  glob_loop, glob_bytes, glob_fuel,
}

-- One element of a pattern takes a byte: `?` takes any, a class the bytes it lists, a byte behind a
-- backslash itself, and a byte itself.
pub data Takes (c : ℕ) : List ℕ → List ℕ → Type 0 where
  any_byte : {p : List ℕ} → Takes c (b'?' ∷ p) p
  one_of : {p q : List ℕ} → class c p ≡ some (q, true) → Takes c (b'[' ∷ p) q
  escaped : {p : List ℕ} → Takes c (b'\\' ∷ c ∷ p) p
  itself : {p : List ℕ} → Takes c (c ∷ p) p

-- A pattern matches a key: a `*` takes any bytes, the other elements one each.
pub data Matches : List ℕ → List ℕ → Type 0 where
  finished : Matches [] []
  star_none : {p k : List ℕ} → Matches p k → Matches (b'*' ∷ p) k
  star_more : {p k : List ℕ} {c : ℕ} → Matches (b'*' ∷ p) k → Matches (b'*' ∷ p) (c ∷ k)
  one : {p q k : List ℕ} {c : ℕ} → Takes c p q → Matches q k → Matches p (c ∷ k)

all_stars-Matches : (p : List ℕ) → all_stars p ≡ true → Matches p []
unfolding all_stars
all_stars-Matches [] h = finished
all_stars-Matches (x ∷ p) h =
    let star : b'*' ≡ x = ground arith in
    subst (λ y. Matches (y ∷ p) []) star (star_none (all_stars-Matches p (ground arith)))

-- The byte of a test, put in its place.
Takes-any : (c x : ℕ) (p : List ℕ) → x == b'?' ≡ true → Takes c (x ∷ p) p
Takes-any c x p h =
    let same : b'?' ≡ x = ground arith in subst (λ y. Takes c (y ∷ p) p) same any_byte

Takes-itself : (c x : ℕ) (p : List ℕ) → x == c ≡ true → Takes c (x ∷ p) p
Takes-itself c x p h = let same : c ≡ x = ground arith in subst (λ y. Takes c (y ∷ p) p) same itself

Takes-escaped : (c x e : ℕ) (p : List ℕ) → x == b'\\' ≡ true → e == c ≡ true → Takes c (x ∷ e ∷ p) p
Takes-escaped c x e p h k =
    let slash : b'\\' ≡ x = ground arith in
    let same : c ≡ e = ground arith in
    subst (λ y. Takes c (y ∷ e ∷ p) p) slash (subst (λ y. Takes c (b'\\' ∷ y ∷ p) p) same escaped)

-- The answers of `take_byte` that are right.
pub data Taken (c : ℕ) (p : List ℕ) : Option (List ℕ) → Type 0 where
  taken : {q : List ℕ} → Takes c p q → Taken c p (some q)
  refused : Taken c p none

Taken-if :
    {c : ℕ} {p : List ℕ} (t : Bool) {x y : Option (List ℕ)}
    → (t ≡ true → Taken c p x)
    → (t ≡ false → Taken c p y)
    → Taken c p (if t then x else y)
Taken-if true h k = h refl
Taken-if false h k = k refl

matched-Taken : (c x : ℕ) (p : List ℕ) → x == b'[' ≡ true → Taken c (x ∷ p) (matched (class c p))
matched-Taken c x p h = by_class (class c p) refl
  where
    by_hit :
        (r : List ℕ) (hit : Bool)
        → class c p ≡ some (r, hit)
        → Taken c (x ∷ p) (matched (some (r, hit)))
    by_hit r true e =
        unfold matched in
        (let bracket : b'[' ≡ x = ground arith in
          taken (subst (λ y. Takes c (y ∷ p) r) bracket (one_of e)))
    by_hit r false e = unfold matched in refused

    by_class : (a : Option (List ℕ × Bool)) → class c p ≡ a → Taken c (x ∷ p) (matched a)
    by_class none e = unfold matched in refused
    by_class (some (r, hit)) e = by_hit r hit e

behind_escape-Taken : (c x : ℕ) (p : List ℕ) → Taken c (x ∷ p) (behind_escape c x p)
unfolding behind_escape
behind_escape-Taken c x [] = Taken-if (x == c) (λ h. taken (Takes-itself c x [] h)) (λ h. refused)
behind_escape-Taken c x (e ∷ p) =
    Taken-if (x == b'\\' && e == c)
      (λ h. taken (Takes-escaped c x e p (ground arith) (ground arith)))
      λ h. Taken-if (x == c) (λ k. taken (Takes-itself c x (e ∷ p) k)) (λ k. refused)

take_byte-Taken : (c : ℕ) (p : List ℕ) → Taken c p (take_byte c p)
unfolding take_byte
take_byte-Taken c [] = refused
take_byte-Taken c (x ∷ p) =
    Taken-if (x == b'?') (λ h. taken (Takes-any c x p h))
      λ h. Taken-if (x == b'[') (λ k. matched-Taken c x p k) (λ k. behind_escape-Taken c x p)

starred-star : (p q : List ℕ) → starred p ≡ some q → b'*' ∷ q ≡ p
unfolding starred
starred-star [] q h = absurd (ground arith)
starred-star (x ∷ p) q h = elim (Bool-cases (x == b'*')) [
  | inl star ↦
      let byte : b'*' ≡ x = ground arith in
      let behind : q ≡ p =
        sym (some_injective (subst (λ t. (if t then some p else none) ≡ some q) star h)) in
      ap₂ (λ y r. y ∷ r) byte behind
  | inr other ↦ absurd (ground arith)
]
  where
    some_injective : {a b : List ℕ} → ◌≡◌ {A = Option (List ℕ)} (some a) (some b) → a ≡ b
    some_injective e = cc

star-tail : (p k : List ℕ) → Matches (b'*' ∷ p) (tail k) → Matches (b'*' ∷ p) k
star-tail p [] h = h
star-tail p (c ∷ k) h = star_more h

-- What is left to match at the last `*` is enough for the whole key.
abbrev Backed : List ℕ → List ℕ → Option (List ℕ × List ℕ) → Type 0
Backed whole key none = Unit
Backed whole key (some saved) = Matches (b'*' ∷ saved.0) saved.1 → Matches whole key

-- What a round does: past a `*`, past an element, back to the last `*`, or to the end.
pub data Round (p : List ℕ) (c : ℕ) (k : List ℕ)
    : Option (List ℕ × List ℕ) → Option Place → Type 0 where
  at_star :
      {star : Option (List ℕ × List ℕ)} {q : List ℕ}
      → b'*' ∷ q ≡ p
      → Round p c k star (some (q, c ∷ k, some (q, c ∷ k)))
  byte :
      {star : Option (List ℕ × List ℕ)} {q : List ℕ}
      → take_byte c p ≡ some q
      → Takes c p q
      → Round p c k star (some (q, k, star))
  back : {q r : List ℕ} → Round p c k (some (q, r)) (some (q, tail r, some (q, tail r)))
  over : Round p c k none none

resume-Round :
    (p : List ℕ) (c : ℕ) (k : List ℕ) (star : Option (List ℕ × List ℕ))
    → Round p c k star (resume star)
unfolding resume
resume-Round p c k none = over
resume-Round p c k (some (q, r)) = back

Taken-Takes : {c : ℕ} {p q : List ℕ} → Taken c p (some q) → Takes c p q
Taken-Takes (taken h) = h

pub round-Round :
    (p : List ℕ) (c : ℕ) (k : List ℕ) (star : Option (List ℕ × List ℕ))
    → Round p c k star (round p c k star)
unfolding round
round-Round p c k star = by_star (starred p) refl
  where
    by_byte :
        (x : Option (List ℕ))
        → take_byte c p ≡ x
        → Taken c p x
        → Round p c k star (elim x [ some q ↦ some (q, k, star) | none ↦ resume star ])
    by_byte none e h = resume-Round p c k star
    by_byte (some q) e h = byte e (Taken-Takes h)

    by_star :
        (x : Option (List ℕ))
        → starred p ≡ x
        → Round p c k star (elim x [
          | some q ↦ some (q, c ∷ k, some (q, c ∷ k))
          | none ↦ elim (take_byte c p) [ some q ↦ some (q, k, star) | none ↦ resume star ]
        ])
    by_star none e = by_byte (take_byte c p) refl (take_byte-Taken c p)
    by_star (some q) e = at_star (starred-star p q e)

-- The place is as good as the whole.
abbrev Enough : List ℕ → List ℕ → Place → Type 0
Enough whole key (p, k, star) = (Matches p k → Matches whole key) × Backed whole key star

round-Enough :
    {whole key p k : List ℕ} {c : ℕ} {star : Option (List ℕ × List ℕ)} {place : Place}
    → Enough whole key (p, c ∷ k, star)
    → Round p c k star (some place)
    → Enough whole key place
round-Enough {k = k} {c = c} h (at_star {q = q} e) = (
  λ m. h.0 (subst (λ r. Matches r (c ∷ k)) e (star_none m)),
  λ m. h.0 (subst (λ r. Matches r (c ∷ k)) e m),
)
round-Enough h (byte e t) = (λ m. h.0 (one t m), h.1)
round-Enough h (back {q = q} {r = r}) =
    (λ m. h.1 (star-tail q r (star_none m)), λ m. h.1 (star-tail q r m))

glob_loop-Matches :
    (whole key : List ℕ) (f : ℕ) (p k : List ℕ) (star : Option (List ℕ × List ℕ))
    → Enough whole key (p, k, star)
    → glob_loop f p k star ≡ some true
    → Matches whole key
unfolding glob_loop
glob_loop-Matches whole key zero p k star h e = absurd (ground arith)
glob_loop-Matches whole key (suc f) p [] star h e = h.0 (all_stars-Matches p (ground arith))
glob_loop-Matches whole key (suc f) p (c ∷ k) star h e =
    by_place (round p c k star) (round-Round p c k star) e
      (λ place enough. glob_loop-Matches whole key f place.0 place.1 place.2 enough)
  where
    by_place :
        (x : Option Place)
        → Round p c k star x
        → elim x [ none ↦ some false | some place ↦ glob_loop f place.0 place.1 place.2 ]
          ≡ some true
        → ((place : Place)
            → Enough whole key place
            → glob_loop f place.0 place.1 place.2 ≡ some true
            → Matches whole key)
        → Matches whole key
    by_place none r e' go = absurd (ground arith)
    by_place (some place) r e' go = go place (round-Enough h r) e'

-- A key that the matcher accepts matches the pattern, element by element.
pub glob_bytes-Matches : (p k : List ℕ) → glob_bytes p k ≡ some true → Matches p k
unfolding glob_bytes
glob_bytes-Matches p k e = glob_loop-Matches p k (glob_fuel p k) p k none (λ m. m, tt) e
