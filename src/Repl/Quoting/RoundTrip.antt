-- ===== src/Repl/Quoting/RoundTrip.antt =====
-- `split_args` reads back what `quote` writes.
use penguin_redis.Prelude.{
  ℕ, zero, suc, ◌+◌, ◌<◌, ◌≡◌, refl, sym, ap, subst, ◌∙◌, Option, some, List, [], ◌∷◌, ◌++◌, map,
  ap₂, arith, Result, ok, length, drop, length-append, append-nil, append_assoc, All,
  is_ascii_whitespace,
}
use penguin_redis.Repl.Quoting.{TokenizeError, Token, blanks, tokens, split_args, quote}
use penguin_redis.Repl.Quoting.Quoted.{
  Splittable, Splittable-nil, Splittable-space, scan-quote, quote-head, length-quote,
}

-- One token of the outer loop, behind the blanks.
tokens-quote :
    (f inner i : ℕ) (line arg rest : List ℕ) (out : List Token)
    → drop (blanks line) line ≡ quote arg ++ rest
    → All (λ c. c < 256) arg
    → Splittable rest
    → length (quote arg) < inner
    → (t : Token) × (t.bytes ≡ arg)
      × (tokens (suc f) inner line i out ≡ tokens f inner rest t.stop (out ++ t ∷ []))
unfolding tokens
tokens-quote f inner i line arg rest out d h e l =
    let (c, r, q, w) = quote-head arg rest in
    let (k, s) = scan-quote arg inner (i + blanks line) rest h e l in
    (
      record { bytes = arg; start = i + blanks line; stop = k },
      refl,
      rw (d, q, tokens) (rw (← q, s, tokens) refl),
    )

-- A command line: the quoted arguments, with one space between two of them.
unfoldable pub spaced : List (List ℕ) → List ℕ
spaced [] = []
spaced (arg ∷ args) = 32 ∷ (quote arg ++ spaced args)

unfoldable pub join_quoted : List (List ℕ) → List ℕ
unfolding spaced
join_quoted [] = []
join_quoted (arg ∷ args) = quote arg ++ spaced args

Splittable-spaced : (args : List (List ℕ)) → Splittable (spaced args)
unfolding spaced
Splittable-spaced [] = Splittable-nil
Splittable-spaced (arg ∷ args) = Splittable-space _

abbrev bytes_of : List Token → List (List ℕ)
bytes_of = map (λ t. t.bytes)

-- The outer loop appends tokens that hold these bytes.
abbrev Yields : Option (Result TokenizeError (List Token)) → List Token → List (List ℕ) → Type 0
Yields v out args = (new : List Token) × (v ≡ some (ok (out ++ new))) × (bytes_of new ≡ args)

Yields-token :
    (v : Option (Result TokenizeError (List Token))) (out : List Token) (t : Token) (arg : List ℕ)
    (args : List (List ℕ))
    → t.bytes ≡ arg
    → Yields v (out ++ t ∷ []) args
    → Yields v out (arg ∷ args)
Yields-token v out t arg args e (new, p, q) = (
  t ∷ new,
  p ∙ ap (λ ts. some (ok ts)) (append_assoc out (t ∷ []) new),
  ap₂ (λ a as'. a ∷ as') e q,
)

blanks-quote : (arg rest : List ℕ) → blanks (quote arg ++ rest) ≡ 0
unfolding blanks
blanks-quote arg rest = let (c, r, q, w) = quote-head arg rest in rw q (ground arith)

tokens-spaced :
    (args : List (List ℕ)) (f inner i : ℕ) (out : List Token)
    → All (All (λ c. c < 256)) args
    → length (spaced args) < f
    → length (spaced args) < inner
    → Yields (tokens f inner (spaced args) i out) out args
unfolding spaced
tokens-spaced args zero inner i out h l k = absurd (omega arith)
tokens-spaced [] (suc f) inner i out h l k =
    ([], unfold tokens blanks in ap (λ ts. some (ok ts)) (sym (append-nil out)), refl)
tokens-spaced (arg ∷ args) (suc f) inner i out h l k =
    let lengths : length (spaced (arg ∷ args)) ≡ suc (length (quote arg) + length (spaced args)) =
      omega (arith, length-append (quote arg) (spaced args)) in
    let blank : blanks (spaced (arg ∷ args)) ≡ 1 =
      unfold blanks is_ascii_whitespace in ap suc (blanks-quote arg (spaced args)) in
    let (t, e, p) =
      tokens-quote f inner i (spaced (arg ∷ args)) arg (spaced args) out (rw blank refl) h.0
        (Splittable-spaced args) (omega arith) in
    Yields-token _ out t arg args e (
      subst (λ v. Yields v (out ++ t ∷ []) args) (sym p)
        (tokens-spaced args f inner t.stop (out ++ t ∷ []) h.1 (omega arith) (omega arith)))

-- `split_args` reads a line of quoted arguments, with one space between two of them, as exactly
-- those arguments, whatever bytes they hold: none is lost, split, joined or changed.
pub split_args-join_quoted :
    (args : List (List ℕ))
    → All (All (λ c. c < 256)) args
    → (ts : List Token) × (split_args (join_quoted args) ≡ some (ok ts))
      × (map (λ t. t.bytes) ts ≡ args)
unfolding split_args join_quoted
split_args-join_quoted [] h = ([], unfold blanks in refl, refl)
split_args-join_quoted (arg ∷ args) h =
    let line : List ℕ = quote arg ++ spaced args in
    let n : ℕ = suc (length line) in
    let lengths : length line ≡ length (quote arg) + length (spaced args) =
      length-append (quote arg) (spaced args) in
    let (t, e, p) =
      tokens-quote (length line) n 0 line arg (spaced args) []
        (rw (blanks-quote arg (spaced args)) refl) h.0 (Splittable-spaced args) (omega arith) in
    Yields-token _ [] t arg args e (
      subst (λ v. Yields v (t ∷ []) args) (sym p)
        (tokens-spaced args (length line) n t.stop (t ∷ []) h.1 (omega (arith, length-quote arg))
          (omega arith)))
