-- ===== src/Protocol/Streamer/Listed.antt =====
-- What it takes for `counted` and `parse_attribute` (crates/pr-protocol/src/decoder.rs) to be done.
use penguin_redis.Prelude.{
  ℕ, suc, ◌≡◌, ap, ◌∙◌, subst, inl, inr, Bool, true, false, none, some, List, [], ◌∷◌, ok,
  if◌then◌else◌, length, Bool-cases, bytes_eq_sound,
}
use penguin_redis.Protocol.Value.{Value, null, null_array, attribute, to_pairs}
use penguin_redis.Protocol.Decoder.{
  Budget, protocol, Parsed, Parser, done, failed, ◌>>=◌, line, with_len, repeat, until, pair,
  counted, parse_attribute, parse_len, parse_i64, is_question,
}
use penguin_redis.Protocol.Streamer.Inversions.{
  Came, came, bind-Came, done-fst, done-snd, Chose, yes, no, if-Chose, Measured, nothing,
  counted_as, with_len-Measured,
}

-- How an aggregate was read.
pub data CountedRead {A : Type 0} (bd : Budget) (p : Parser A) (build : List A → Value) (b : List ℕ)
    (v : Value) (r : List ℕ) : Type 0 where
  terminated :
      (hdr r' : List ℕ) (xs : List A)
      → line b ≡ done hdr r'
      → is_question hdr ≡ true
      → until bd p (suc (length r')) [] r' ≡ done xs r
      → build xs ≡ v
      → CountedRead bd p build b v r
  absent :
      (hdr r' : List ℕ)
      → line b ≡ done hdr r'
      → is_question hdr ≡ false
      → parse_len bd.max_elements hdr ≡ ok none
      → null null_array ≡ v
      → r' ≡ r
      → CountedRead bd p build b v r
  listed :
      (hdr r' : List ℕ) (n : ℕ) (xs : List A)
      → line b ≡ done hdr r'
      → is_question hdr ≡ false
      → parse_len bd.max_elements hdr ≡ ok (some n)
      → repeat p n r' ≡ done xs r
      → build xs ≡ v
      → CountedRead bd p build b v r

pub counted-CountedRead :
    {A : Type 0} (bd : Budget) (p : Parser A) (build : List A → Value) (b : List ℕ) {v : Value}
    {r : List ℕ}
    → counted bd p build b ≡ done v r
    → CountedRead bd p build b v r
unfolding counted
counted-CountedRead {A} bd p build b {v} {r} e = by_line (bind-Came (line b) read e)
  where
    built : Parsed (List A) → Parsed Value
    built x = x >>= λ xs r'. done (build xs) r'

    known : List ℕ → List ℕ → Parsed Value
    known hdr r' =
        with_len (parse_len bd.max_elements hdr) (done (null null_array) r')
          λ n. built (repeat p n r')

    read : List ℕ → List ℕ → Parsed Value
    read hdr r' =
        if is_question hdr then built (until bd p (suc (length r')) [] r') else known hdr r'

    Header : List ℕ → List ℕ → Bool → Type 0
    Header hdr r' q = (line b ≡ done hdr r') × (is_question hdr ≡ q)

    by_until :
        (hdr r' : List ℕ)
        → Header hdr r' true
        → Came (until bd p (suc (length r')) [] r') (λ xs r''. done (build xs) r'') v r
        → CountedRead bd p build b v r
    by_until hdr r' h (came xs r'' g i) =
        terminated hdr r' xs h.0 h.1 (g ∙ ap (done xs) (done-snd i)) (done-fst i)

    by_repeat :
        (hdr r' : List ℕ) (n : ℕ)
        → Header hdr r' false
        → parse_len bd.max_elements hdr ≡ ok (some n)
        → Came (repeat p n r') (λ xs r''. done (build xs) r'') v r
        → CountedRead bd p build b v r
    by_repeat hdr r' n h l (came xs r'' g i) =
        listed hdr r' n xs h.0 h.1 l (g ∙ ap (done xs) (done-snd i)) (done-fst i)

    by_length :
        (hdr r' : List ℕ)
        → Header hdr r' false
        → Measured
            (parse_len bd.max_elements hdr)
            (done (null null_array) r')
            (λ n. built (repeat p n r'))
            v
            r
        → CountedRead bd p build b v r
    by_length hdr r' h (nothing l g) = absent hdr r' h.0 h.1 l (done-fst g) (done-snd g)
    by_length hdr r' h (counted_as n l g) = by_repeat hdr r' n h l (bind-Came (repeat p n r') _ g)

    by_question :
        (hdr r' : List ℕ)
        → line b ≡ done hdr r'
        → Chose
            (is_question hdr)
            (built (until bd p (suc (length r')) [] r'))
            (known hdr r')
            (done v r)
        → CountedRead bd p build b v r
    by_question hdr r' l (yes q g) =
        by_until hdr r' (l, q) (bind-Came (until bd p (suc (length r')) [] r') _ g)
    by_question hdr r' l (no q g) =
        by_length hdr r' (l, q) (with_len-Measured (parse_len bd.max_elements hdr) _ _ g)

    by_line : Came (line b) read v r → CountedRead bd p build b v r
    by_line (came hdr r' l g) = by_question hdr r' l (if-Chose (is_question hdr) g)

-- A `?` is no length.
parse_len-question :
    (bound n : ℕ) (hdr : List ℕ) → parse_len bound hdr ≡ ok (some n) → is_question hdr ≡ false
unfolding is_question parse_len parse_i64
parse_len-question bound n hdr e = elim (Bool-cases (is_question hdr)) [
  | inr h ↦ h
  | inl h ↦
      absurd (
        by_text (subst (λ t. parse_len bound t ≡ ok (some n)) (bytes_eq_sound hdr (b'?' ∷ []) h) e))
]
  where
    by_text : parse_len bound (b'?' ∷ []) ≡ ok (some n) → ⊥
    by_text g = absurd cc

-- How an attribute was read.
pub data AttributeRead (bd : Budget) (p : Parser Value) (b : List ℕ) (v : Value) (r : List ℕ)
    : Type 0 where
  attributed :
      (hdr r' r'' : List ℕ) (n : ℕ) (kvs : List (Value × Value)) (w : Value)
      → line b ≡ done hdr r'
      → is_question hdr ≡ false
      → parse_len bd.max_elements hdr ≡ ok (some n)
      → repeat (pair p) n r' ≡ done kvs r''
      → p r'' ≡ done w r
      → attribute (to_pairs kvs) w ≡ v
      → AttributeRead bd p b v r

pub parse_attribute-AttributeRead :
    (bd : Budget) (p : Parser Value) (b : List ℕ) {v : Value} {r : List ℕ}
    → parse_attribute bd p b ≡ done v r
    → AttributeRead bd p b v r
unfolding parse_attribute
parse_attribute-AttributeRead bd p b {v} {r} e = by_line (bind-Came (line b) read e)
  where
    value : List (Value × Value) → List ℕ → Parsed Value
    value kvs r'' = p r'' >>= λ w r'''. done (attribute (to_pairs kvs) w) r'''

    read : List ℕ → List ℕ → Parsed Value
    read hdr r' =
        with_len (parse_len bd.max_elements hdr) (failed protocol)
          λ n. repeat (pair p) n r' >>= value

    by_value :
        (hdr r' r'' : List ℕ) (n : ℕ) (kvs : List (Value × Value))
        → line b ≡ done hdr r'
        → parse_len bd.max_elements hdr ≡ ok (some n)
        → repeat (pair p) n r' ≡ done kvs r''
        → Came (p r'') (λ w r'''. done (attribute (to_pairs kvs) w) r''') v r
        → AttributeRead bd p b v r
    by_value hdr r' r'' n kvs l h g (came w r''' i j) =
        attributed hdr r' r'' n kvs w l (parse_len-question bd.max_elements n hdr h) h g
          (i ∙ ap (done w) (done-snd j)) (done-fst j)

    by_pairs :
        (hdr r' : List ℕ) (n : ℕ)
        → line b ≡ done hdr r'
        → parse_len bd.max_elements hdr ≡ ok (some n)
        → Came (repeat (pair p) n r') value v r
        → AttributeRead bd p b v r
    by_pairs hdr r' n l h (came kvs r'' g i) =
        by_value hdr r' r'' n kvs l h g (bind-Came (p r'') _ i)

    by_length :
        (hdr r' : List ℕ)
        → line b ≡ done hdr r'
        → Measured
            (parse_len bd.max_elements hdr)
            (failed protocol)
            (λ n. repeat (pair p) n r' >>= value)
            v
            r
        → AttributeRead bd p b v r
    by_length hdr r' l (nothing h g) = absurd cc
    by_length hdr r' l (counted_as n h g) =
        by_pairs hdr r' n l h (bind-Came (repeat (pair p) n r') value g)

    by_line : Came (line b) read v r → AttributeRead bd p b v r
    by_line (came hdr r' l g) =
        by_length hdr r' l (with_len-Measured (parse_len bd.max_elements hdr) _ _ g)
