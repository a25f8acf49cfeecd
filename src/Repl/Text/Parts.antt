-- ===== src/Repl/Text/Parts.antt =====
-- Offsets and the parts of a text.
use penguin_redis.Prelude.{
  ℕ, zero, suc, ◌+◌, ◌-◌, ◌≤◌, ◌≡◌, refl, sym, ap, ap₂, ◌∙◌, inl, inr, true, Option, none, some,
  List, [], ◌∷◌, ◌++◌, leb, ◌==◌, arith, Bool-cases, append_assoc, append-nil,
}
use penguin_redis.Repl.Text.{◌>>=◌, len_utf8, byte_len, cut, splice, is_some, is_boundary}

pub len_utf8-pos : (c : ℕ) → 1 ≤ len_utf8 c
unfolding len_utf8
len_utf8-pos c = ground arith

pub byte_len-append : (s t : List ℕ) → byte_len (s ++ t) ≡ byte_len s + byte_len t
unfolding byte_len
byte_len-append [] t = omega arith
byte_len-append (c ∷ s) t = omega (arith, byte_len-append s t)

cut-cons :
    (n c : ℕ) (s l r : List ℕ)
    → cut n s ≡ some (l, r)
    → cut (len_utf8 c + n) (c ∷ s) ≡ some (c ∷ l, r)
unfolding cut
cut-cons n c s l r h = by_length (len_utf8 c + n) refl
  where
    by_length : (k : ℕ) → len_utf8 c + n ≡ k → cut k (c ∷ s) ≡ some (c ∷ l, r)
    by_length zero e = absurd (omega (arith, len_utf8-pos c))
    by_length (suc k) e =
        let fits : leb (len_utf8 c) (suc k) ≡ true = ground arith in
        let left : suc k - len_utf8 c ≡ n = omega arith in rw (cut, fits, left, h) refl

-- Cutting behind a part.
pub cut-append : (s t : List ℕ) → cut (byte_len s) (s ++ t) ≡ some (s, t)
unfolding byte_len
cut-append [] t = unfold cut in refl
cut-append (c ∷ s) t = cut-cons (byte_len s) c (s ++ t) s t (cut-append s t)

-- What `cut` answers of a text.
pub data Cut (n : ℕ) (s : List ℕ) : Option (List ℕ × List ℕ) → Type 0 where
  apart : {l r : List ℕ} → s ≡ l ++ r → n ≡ byte_len l → Cut n s (some (l, r))
  inside : Cut n s none

Cut-cons :
    (n c : ℕ) (s : List ℕ) (x : Option (List ℕ × List ℕ))
    → len_utf8 c ≤ n
    → Cut (n - len_utf8 c) s x
    → Cut n (c ∷ s) (x >>= λ p. some (c ∷ p.0, p.1))
unfolding byte_len
Cut-cons n c s (some p) h (apart e k) = apart (ap (λ t. c ∷ t) e) (omega arith)
Cut-cons n c s none h inside = inside

pub cut-Cut : (n : ℕ) (s : List ℕ) → Cut n s (cut n s)
unfolding cut byte_len
cut-Cut zero s = apart refl refl
cut-Cut (suc n) [] = inside
cut-Cut (suc n) (c ∷ s) = elim (Bool-cases (leb (len_utf8 c) (suc n))) [
  | inl h ↦ rw h (
      Cut-cons (suc n) c s (cut (suc n - len_utf8 c) s) (ground arith)
        (cut-Cut (suc n - len_utf8 c) s))
  | inr h ↦ rw h inside
]

-- What `splice` answers: a part taken out of a text, and the text with another in its place.
pub data Splice (from to : ℕ) (new s : List ℕ) : Option (List ℕ × List ℕ) → Type 0 where
  replaced :
      (l m r : List ℕ)
      → s ≡ l ++ (m ++ r)
      → from ≡ byte_len l
      → to ≡ byte_len l + byte_len m
      → Splice from to new s (some (m, l ++ (new ++ r)))
  panics : Splice from to new s none

pub splice-Splice : (from to : ℕ) (new s : List ℕ) → Splice from to new s (splice from to new s)
unfolding splice
splice-Splice from to new s = by_outer (cut to s) (cut-Cut to s)
  where
    by_inner :
        (l r : List ℕ) (x : Option (List ℕ × List ℕ))
        → s ≡ l ++ r
        → to ≡ byte_len l
        → Cut from l x
        → Splice from to new s (x >>= λ inner. some (inner.1, inner.0 ++ (new ++ r)))
    by_inner l r (some p) e k (apart {l = a} {r = m} f j) =
        replaced a m r (e ∙ ap (λ t. t ++ r) f ∙ append_assoc a m r) j
          (k ∙ ap byte_len f ∙ byte_len-append a m)
    by_inner l r none e k inside = panics

    by_outer :
        (x : Option (List ℕ × List ℕ))
        → Cut to s x
        → Splice from to new s (
            x >>= λ outer.
            cut from outer.0 >>= λ inner. some (inner.1, inner.0 ++ (new ++ outer.1)))
    by_outer (some p) (apart {l} {r} e k) = by_inner l r (cut from l) e k (cut-Cut from l)
    by_outer none inside = panics

-- Splicing between two parts.
pub splice-append :
    (l m r new : List ℕ)
    → splice (byte_len l) (byte_len l + byte_len m) new (l ++ (m ++ r)) ≡ some (m, l ++ (new ++ r))
unfolding splice
splice-append l m r new =
    let outer : cut (byte_len l + byte_len m) (l ++ (m ++ r)) ≡ some (l ++ m, r) =
      ap₂ cut (sym (byte_len-append l m)) (sym (append_assoc l m r)) ∙ cut-append (l ++ m) r in
    rw (outer, cut-append l m) refl

-- An offset between two characters of a text, or at an end of it.
pub data OnBoundary (n : ℕ) (s : List ℕ) : Type 0 where
  on_boundary : (l r : List ℕ) → s ≡ l ++ r → n ≡ byte_len l → OnBoundary n s

pub is_boundary-OnBoundary : (s : List ℕ) (i : ℕ) → is_boundary s i ≡ true → OnBoundary i s
unfolding is_boundary is_some
is_boundary-OnBoundary s i h = elim (Bool-cases (i == byte_len s)) [
  | inl end ↦ on_boundary s [] (sym (append-nil s)) (ground arith)
  | inr inner ↦ by_cut (cut i s) (cut-Cut i s) (ground arith)
]
  where
    by_cut : (x : Option (List ℕ × List ℕ)) → Cut i s x → is_some x ≡ true → OnBoundary i s
    by_cut (some p) (apart {l} {r} e k) t = on_boundary l r e k
    by_cut none inside t = absurd (ground arith)

-- Two boundaries, with a part between them.
pub data Between (i j : ℕ) (s : List ℕ) : Type 0 where
  between :
      (l m r : List ℕ)
      → s ≡ l ++ (m ++ r)
      → i ≡ byte_len l
      → j ≡ byte_len l + byte_len m
      → Between i j s

prefix-append :
    (l r l' r' : List ℕ)
    → l ++ r ≡ l' ++ r'
    → byte_len l ≤ byte_len l'
    → (m : List ℕ) × (l' ≡ l ++ m)
unfolding byte_len
prefix-append [] r l' r' h k = (l', refl)
prefix-append (c ∷ l) r [] r' h k = absurd (omega (arith, len_utf8-pos c))
prefix-append (c ∷ l) r (c' ∷ l') r' h k =
    let same : c ≡ c' = cc in
    let tails : l ++ r ≡ l' ++ r' = cc in
    let rest = prefix-append l r l' r' tails (omega (arith, ap len_utf8 same)) in
    (rest.0, ap₂ (λ x xs. x ∷ xs) (sym same) rest.1)

pub OnBoundary-Between :
    (i j : ℕ) (s : List ℕ) → OnBoundary i s → OnBoundary j s → i ≤ j → Between i j s
OnBoundary-Between i j s (on_boundary l r h k) (on_boundary l' r' h' k') le =
    let inner = prefix-append l r l' r' (sym h ∙ h') (omega arith) in
    between l inner.0 r' (h' ∙ ap (λ t. t ++ r') inner.1 ∙ append_assoc l inner.0 r') k
      (k' ∙ ap byte_len inner.1 ∙ byte_len-append l inner.0)
