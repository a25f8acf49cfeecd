-- ===== src/Repl/Text/Graphemes.antt =====
-- Where the moves by a grapheme (crates/pr-repl/src/buffer.rs) end.
use penguin_redis.Prelude.{
  ℕ, zero, suc, ◌+◌, ◌-◌, ◌≡◌, refl, sym, subst, ap, ap₂, ◌∙◌, inl, inr, Bool, true, false, ◌||◌,
  Option, none, some, List, [], ◌∷◌, ◌++◌, ltb, leb, ◌==◌, if◌then◌else◌, arith, Bool-cases,
  append_assoc, append-nil,
}
use penguin_redis.Repl.Text.{
  len_utf8, byte_len, cut, is_extending, before, back, prev_grapheme, extension, first_grapheme,
  next_grapheme,
}
use penguin_redis.Repl.Text.Parts.{
  OnBoundary, on_boundary, len_utf8-pos, byte_len-append, cut-append,
}

OnBoundary-zero : (s : List ℕ) → OnBoundary 0 s
unfolding byte_len
OnBoundary-zero s = on_boundary [] s refl refl

OnBoundary-cons : (c n : ℕ) (s : List ℕ) → OnBoundary n s → OnBoundary (len_utf8 c + n) (c ∷ s)
unfolding byte_len
OnBoundary-cons c n s (on_boundary l r h k) =
    on_boundary (c ∷ l) r (ap (λ t. c ∷ t) h) (omega arith)

OnBoundary-append :
    (l : List ℕ) (n : ℕ) (s : List ℕ) → OnBoundary n s → OnBoundary (byte_len l + n) (l ++ s)
OnBoundary-append l n s (on_boundary a r h k) =
    on_boundary (l ++ a) r (ap (λ t. l ++ t) h ∙ sym (append_assoc l a r))
      (omega (arith, byte_len-append l a))

OnBoundary-if :
    (c : Bool) (n m : ℕ) (s : List ℕ)
    → OnBoundary n s
    → OnBoundary m s
    → OnBoundary (if c then n else m) s
OnBoundary-if true n m s h k = h
OnBoundary-if false n m s h k = k

extension-OnBoundary : (s : List ℕ) → OnBoundary (extension s) s
unfolding extension
extension-OnBoundary [] = OnBoundary-zero []
extension-OnBoundary (c ∷ []) =
    OnBoundary-if (is_extending c || c == 0x200D) _ _ (c ∷ []) one (OnBoundary-zero (c ∷ []))
  where
    one : OnBoundary (len_utf8 c) (c ∷ [])
    one = on_boundary (c ∷ []) [] refl (unfold byte_len in omega arith)
extension-OnBoundary (c ∷ d ∷ s) =
    OnBoundary-if (is_extending c) _ _ (c ∷ d ∷ s)
      (OnBoundary-cons c _ (d ∷ s) (extension-OnBoundary (d ∷ s)))
      (OnBoundary-if (c == 0x200D) _ _ (c ∷ d ∷ s)
        (subst (λ n. OnBoundary n (c ∷ d ∷ s)) (omega arith)
          (OnBoundary-cons c _ (d ∷ s) (OnBoundary-cons d _ s (extension-OnBoundary s))))
        (OnBoundary-zero (c ∷ d ∷ s)))

-- The answers that are a boundary.
pub data Lands (s : List ℕ) : Option ℕ → Type 0 where
  lands : {n : ℕ} → OnBoundary n s → Lands s (some n)

first_grapheme-OnBoundary : (s : List ℕ) → OnBoundary (first_grapheme s) s
unfolding first_grapheme
first_grapheme-OnBoundary [] = OnBoundary-zero []
first_grapheme-OnBoundary (c ∷ s) = OnBoundary-cons c (extension s) s (extension-OnBoundary s)

pub next_grapheme-Lands : (s : List ℕ) (i : ℕ) → OnBoundary i s → Lands s (next_grapheme s i)
unfolding next_grapheme
next_grapheme-Lands s i (on_boundary l r h k) = elim (Bool-cases (leb (byte_len s) i)) [
  | inl past ↦ rw past (lands (on_boundary s [] (sym (append-nil s)) refl))
  | inr within ↦ rw (within, parts) (lands behind)
]
  where
    parts : cut i s ≡ some (l, r)
    parts = ap₂ cut k h ∙ cut-append l r

    behind : OnBoundary (i + first_grapheme r) s
    behind =
        subst (λ t. OnBoundary (i + first_grapheme r) t) (sym h)
          (subst (λ n. OnBoundary (n + first_grapheme r) (l ++ r)) (sym k)
            (OnBoundary-append l (first_grapheme r) r (first_grapheme-OnBoundary r)))

-- A list, its last element first, in front of another.
abbrev reverse_onto : List ℕ → List ℕ → List ℕ
reverse_onto [] s = s
reverse_onto (c ∷ acc) s = reverse_onto acc (c ∷ s)

reverse_onto-reverse_onto :
    (l acc s : List ℕ) → reverse_onto (reverse_onto l acc) s ≡ reverse_onto acc (l ++ s)
reverse_onto-reverse_onto [] acc s = refl
reverse_onto-reverse_onto (c ∷ l) acc s = reverse_onto-reverse_onto l (c ∷ acc) s

reverse_onto-append : (k s t : List ℕ) → reverse_onto k (s ++ t) ≡ reverse_onto k s ++ t
reverse_onto-append [] s t = refl
reverse_onto-append (c ∷ k) s t = reverse_onto-append k (c ∷ s) t

reverse_onto-two : (m k s : List ℕ) → reverse_onto (m ++ k) s ≡ reverse_onto k (reverse_onto m s)
reverse_onto-two [] k s = refl
reverse_onto-two (c ∷ m) k s = reverse_onto-two m k (c ∷ s)

byte_len-reverse_onto : (k s : List ℕ) → byte_len (reverse_onto k s) ≡ byte_len k + byte_len s
unfolding byte_len
byte_len-reverse_onto [] s = omega arith
byte_len-reverse_onto (c ∷ k) s = omega (arith, byte_len-reverse_onto k (c ∷ s))

byte_len-reverse : (k : List ℕ) → byte_len (reverse_onto k []) ≡ byte_len k
unfolding byte_len
byte_len-reverse k = omega (arith, byte_len-reverse_onto k [])

before-cons :
    (c n : ℕ) (s acc : List ℕ) → before (len_utf8 c + n) (c ∷ s) acc ≡ before n s (c ∷ acc)
before-cons c n s acc = by_length (len_utf8 c + n) refl
  where
    by_length : (k : ℕ) → len_utf8 c + n ≡ k → before k (c ∷ s) acc ≡ before n s (c ∷ acc)
    by_length zero e = absurd (omega (arith, len_utf8-pos c))
    by_length (suc k) e =
        let left : suc k - len_utf8 c ≡ n = omega arith in
        unfold before in ap (λ i. before i s (c ∷ acc)) left

pub before-append : (l r acc : List ℕ) → before (byte_len l) (l ++ r) acc ≡ reverse_onto l acc
unfolding byte_len
before-append [] r acc = unfold before in refl
before-append (c ∷ l) r acc = before-cons c (byte_len l) (l ++ r) acc ∙ before-append l r (c ∷ acc)

-- The lists from which the way back has no stop: no characters, or a joiner as the last.
data NoStop (cs : List ℕ) : Type 0 where
  no_chars : cs ≡ [] → NoStop cs
  last_joins : (k : List ℕ) → cs ≡ k ++ (0x200D ∷ []) → NoStop cs

NoStop-cons : (c d : ℕ) (s : List ℕ) → NoStop (d ∷ s) → NoStop (c ∷ d ∷ s)
NoStop-cons c d s (no_chars e) = absurd cc
NoStop-cons c d s (last_joins k e) = last_joins (c ∷ k) (ap (λ t. c ∷ t) e)

NoStop-joined : (c d : ℕ) (s : List ℕ) → d ≡ 0x200D → NoStop s → NoStop (c ∷ d ∷ s)
NoStop-joined c d s j (no_chars e) = last_joins (c ∷ []) (ap₂ (λ x t. c ∷ x ∷ t) j e)
NoStop-joined c d s j (last_joins k e) = last_joins (c ∷ d ∷ k) (ap (λ t. c ∷ d ∷ t) e)

-- The answers that are the length of an end of a list: the characters are counted from the back.
data Leaves (cs : List ℕ) : Option ℕ → Type 0 where
  leaves : {n : ℕ} (m k : List ℕ) → cs ≡ m ++ k → n ≡ byte_len k → Leaves cs (some n)
  overflows : NoStop cs → Leaves cs none

Leaves-cons : (c d : ℕ) (s : List ℕ) {x : Option ℕ} → Leaves (d ∷ s) x → Leaves (c ∷ d ∷ s) x
Leaves-cons c d s (leaves m k h e) = leaves (c ∷ m) k (ap (λ t. c ∷ t) h) e
Leaves-cons c d s (overflows n) = overflows (NoStop-cons c d s n)

Leaves-joined :
    (c d : ℕ) (s : List ℕ) {x : Option ℕ} → d ≡ 0x200D → Leaves s x → Leaves (c ∷ d ∷ s) x
Leaves-joined c d s j (leaves m k h e) = leaves (c ∷ d ∷ m) k (ap (λ t. c ∷ d ∷ t) h) e
Leaves-joined c d s j (overflows n) = overflows (NoStop-joined c d s j n)

Leaves-if :
    {cs : List ℕ} (c : Bool) {x y : Option ℕ}
    → (c ≡ true → Leaves cs x)
    → Leaves cs y
    → Leaves cs (if c then x else y)
Leaves-if true h k = h refl
Leaves-if false h k = k

back-Leaves : (cs : List ℕ) → Leaves cs (back cs)
unfolding back
back-Leaves [] = overflows (no_chars refl)
back-Leaves (c ∷ []) = leaves (c ∷ []) [] refl (unfold byte_len in refl)
back-Leaves (c ∷ d ∷ s) =
    Leaves-if (is_extending c) (λ x. Leaves-cons c d s (back-Leaves (d ∷ s)))
      (Leaves-if (d == 0x200D) (λ j. Leaves-joined c d s (ground arith) (back-Leaves s))
        (leaves (c ∷ []) (d ∷ s) refl refl))

-- Going back over the end of a text: it stops inside, unless the text begins with a joiner.
pub data Back (l : List ℕ) : Option ℕ → Type 0 where
  behind : {n : ℕ} (a m : List ℕ) → l ≡ a ++ m → n ≡ byte_len a → Back l (some n)
  wraps : (m : List ℕ) → l ≡ 0x200D ∷ m → Back l none

reverse_onto-of : (l k : List ℕ) → reverse_onto l [] ≡ k → l ≡ reverse_onto k []
reverse_onto-of l k h =
    sym (append-nil l) ∙ sym (reverse_onto-reverse_onto l [] []) ∙ ap (λ t. reverse_onto t []) h

Leaves-Back :
    (l : List ℕ) {x : Option ℕ} → byte_len l == 0 ≡ false → Leaves (reverse_onto l []) x → Back l x
Leaves-Back l j (leaves m k h e) =
    behind (reverse_onto k []) (reverse_onto m []) in_two (e ∙ sym (byte_len-reverse k))
  where
    in_two : l ≡ reverse_onto k [] ++ reverse_onto m []
    in_two =
        reverse_onto-of l (m ++ k) h
        ∙ reverse_onto-two m k []
        ∙ reverse_onto-append k [] (reverse_onto m [])
Leaves-Back l j (overflows (no_chars e)) =
    let empty : l ≡ [] = reverse_onto-of l [] e in
    absurd (unfold byte_len in ground (arith, j, ap byte_len empty))
Leaves-Back l j (overflows (last_joins k e)) =
    wraps (reverse_onto k [])
      (reverse_onto-of l (k ++ (0x200D ∷ [])) e ∙ reverse_onto-two k (0x200D ∷ []) [])

pub prev_grapheme-Back : (l r : List ℕ) → Back l (prev_grapheme (l ++ r) (byte_len l))
unfolding prev_grapheme
prev_grapheme-Back l r = elim (Bool-cases (byte_len l == 0)) [
  | inl start ↦ rw start (behind [] l refl (unfold byte_len in refl))
  | inr later ↦
      let fits : ltb (byte_len (l ++ r)) (byte_len l) ≡ false =
        ground (arith, byte_len-append l r) in
      rw (later, fits, before-append l r []) (Leaves-Back l later (back-Leaves (reverse_onto l [])))
]
