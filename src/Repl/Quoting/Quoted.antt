-- ===== src/Repl/Quoting/Quoted.antt =====
-- The scanner on what `quote` writes: it reads one quoted argument back.
use penguin_redis.Prelude.{
  hex_digit, ℕ, zero, suc, ◌+◌, ◌/◌, ◌%◌, ◌<◌, ◌≡◌, refl, sym, ap, ◌∙◌, true, false, Option, some,
  List, [], ◌∷◌, ◌++◌, arith, Result, ok, length, drop, length-append, drop-length_append,
  append-nil, append_assoc, All, Bool-cases, is_ascii_whitespace, ◌==◌, ◌⊎◌, inl, inr,
}
use penguin_redis.Repl.Quoting.{
  TokenizeError, Mode, plain, double, stop, go, step, escape, closes, hex_pair, unescape, hex,
  quote_byte, quote_bytes, Scanned, scan, is_simple_byte, all_simple, is_simple, quote,
}

hex-hex_digit : (d : ℕ) → d < 16 → hex (hex_digit d) ≡ some d
unfolding hex hex_digit
hex-hex_digit d h = ground arith

-- After a backslash, any byte but `x` stands for itself or for a control character.
escape-other :
    (e : ℕ) (r : List ℕ) → (e == b'x') ≡ false → escape (e ∷ r) ≡ go double 2 (unescape e ∷ [])
unfolding escape hex_pair
escape-other e [] h = refl
escape-other e (a ∷ []) h = refl
escape-other e (a ∷ b ∷ r) h = ground arith

escape-hex :
    (c : ℕ) (r : List ℕ)
    → c < 256
    → escape (b'x' ∷ hex_digit (c / 16) ∷ hex_digit (c % 16) ∷ r) ≡ go double 4 (c ∷ [])
unfolding escape hex_pair
escape-hex c r h =
    ground (arith, hex-hex_digit (c / 16) (omega arith), hex-hex_digit (c % 16) (omega arith))

-- Between double quotes, one round reads what `quote` wrote for one byte.
step-quote_byte :
    (c : ℕ) (r : List ℕ)
    → c < 256
    → step double (quote_byte c ++ r) ≡ go double (length (quote_byte c)) (c ∷ [])
unfolding step quote_byte unescape
step-quote_byte c r h = ground (
  arith,
  escape-other b'\\' r refl,
  escape-other b'"' r refl,
  escape-other b'n' r refl,
  escape-other b'r' r refl,
  escape-other b't' r refl,
  escape-other b'a' r refl,
  escape-other b'b' r refl,
  escape-hex c r h,
)

-- One round of the inner loop that goes on.
scan-go :
    (f : ℕ) (m m' : Mode) (line : List ℕ) (i n : ℕ) (cur out : List ℕ)
    → step m line ≡ go m' n out
    → scan (suc f) m line i cur ≡ scan f m' (drop n line) (i + n) (cur ++ out)
unfolding scan
scan-go f m m' line i n cur out e = rw (e, scan)

-- The inner loop reads `arg` and leaves `rest`.
abbrev Reads : Option (Result TokenizeError Scanned) → List ℕ → List ℕ → Type 0
Reads v arg rest = (k : ℕ) × (v ≡ some (ok (record { bytes = arg; stop = k; rest = rest })))

-- A token may end before these bytes.
abbrev pub Splittable : List ℕ → Type 0
Splittable rest = (closes rest ≡ stop 1) × (step plain rest ≡ stop 0)

pub Splittable-nil : Splittable []
unfolding closes step
Splittable-nil = (refl, refl)

pub Splittable-space : (r : List ℕ) → Splittable (32 ∷ r)
unfolding closes step is_ascii_whitespace
Splittable-space r = (refl, refl)

Reads-eq :
    {v w : Option (Result TokenizeError Scanned)} {a b rest : List ℕ}
    → v ≡ w
    → a ≡ b
    → Reads w a rest
    → Reads v b rest
Reads-eq {rest = rest} p q (k, e) =
    (k, p ∙ e ∙ ap (λ x. some (ok (record { bytes = x; stop = k; rest = rest }))) q)

length-quote_byte : (c : ℕ) → 0 < length (quote_byte c)
unfolding quote_byte
length-quote_byte c = ground arith

scan-quote_bytes :
    (bs : List ℕ) (f i : ℕ) (cur rest : List ℕ)
    → All (λ c. c < 256) bs
    → Splittable rest
    → length (quote_bytes bs) + 1 < f
    → Reads (scan f double (quote_bytes bs ++ b'"' ∷ rest) i cur) (cur ++ bs) rest
unfolding quote_bytes
scan-quote_bytes bs zero i cur rest h e l = absurd (omega arith)
scan-quote_bytes [] (suc f) i cur rest h e l = (
  i + 1,
  unfold scan step in
      rw (e.0, scan, step)
        (ap (λ x. some (ok (record { bytes = x; stop = i + 1; rest = rest })))
          (sym (append-nil cur))),
)
scan-quote_bytes (c ∷ bs) (suc f) i cur rest h e l =
    let more : List ℕ = quote_bytes bs ++ b'"' ∷ rest in
    let n : ℕ = length (quote_byte c) in
    Reads-eq
      (ap (λ line. scan (suc f) double line i cur)
          (append_assoc (quote_byte c) (quote_bytes bs) (b'"' ∷ rest))
        ∙ scan-go f double double (quote_byte c ++ more) i n cur (c ∷ [])
            (step-quote_byte c more h.0)
        ∙ ap (λ line. scan f double line (i + n) (cur ++ c ∷ []))
            (drop-length_append (quote_byte c) more))
      (append_assoc cur (c ∷ []) bs)
      (scan-quote_bytes bs f (i + n) (cur ++ c ∷ []) rest h.1 e
        (omega (arith, length-append (quote_byte c) (quote_bytes bs), length-quote_byte c)))

-- Unquoted bytes that `quote` leaves as they are.
step-simple :
    (c : ℕ) (r : List ℕ)
    → is_simple_byte c ≡ true
    → (step plain (c ∷ r) ≡ go plain 1 (c ∷ [])) × (is_ascii_whitespace c ≡ false)
unfolding step is_simple_byte is_ascii_whitespace
step-simple c r h = ground arith

scan-simple :
    (bs : List ℕ) (f i : ℕ) (cur rest : List ℕ)
    → all_simple bs ≡ true
    → Splittable rest
    → length bs < f
    → Reads (scan f plain (bs ++ rest) i cur) (cur ++ bs) rest
unfolding all_simple
scan-simple bs zero i cur rest h e l = absurd (omega arith)
scan-simple [] (suc f) i cur rest h e l = (
  i + 0,
  unfold scan in
      rw (e.1, scan)
        (ap (λ x. some (ok (record { bytes = x; stop = i + 0; rest = rest })))
          (sym (append-nil cur))),
)
scan-simple (c ∷ bs) (suc f) i cur rest h e l =
    Reads-eq
      (scan-go f plain plain (c ∷ bs ++ rest) i 1 cur (c ∷ [])
        (step-simple c (bs ++ rest) (ground arith)).0)
      (append_assoc cur (c ∷ []) bs)
      (scan-simple bs f (i + 1) (cur ++ c ∷ []) rest (ground arith) e (omega arith))

simple_all : (arg : List ℕ) → is_simple arg ≡ true → all_simple arg ≡ true
unfolding is_simple
simple_all [] h = cc
simple_all (c ∷ r) h = h

-- The two forms that `quote` writes.
quote-cases :
    (arg : List ℕ)
    → ((is_simple arg ≡ true) × (quote arg ≡ arg))
      ⊎ (quote arg ≡ b'"' ∷ (quote_bytes arg ++ b'"' ∷ []))
unfolding quote
quote-cases arg = elim (Bool-cases (is_simple arg)) [
  | inl simple ↦ inl (simple, rw simple)
  | inr complex ↦ inr (rw complex)
]

open_quote : (r : List ℕ) → step plain (b'"' ∷ r) ≡ go double 1 []
unfolding step is_ascii_whitespace
open_quote r = refl

-- The inner loop reads back what `quote` wrote, up to a space or the end of the line.
pub scan-quote :
    (arg : List ℕ) (f i : ℕ) (rest : List ℕ)
    → All (λ c. c < 256) arg
    → Splittable rest
    → length (quote arg) < f
    → Reads (scan f plain (quote arg ++ rest) i []) arg rest
scan-quote arg zero i rest h e l = absurd (omega arith)
scan-quote arg (suc f) i rest h e l = elim (quote-cases arg) [
  | inl (simple, same) ↦
      rw same (
        scan-simple arg (suc f) i [] rest (simple_all arg simple) e (omega (arith, ap length same)))
  | inr quoted ↦ rw quoted (
      Reads-eq
        (scan-go f plain double (b'"' ∷ (quote_bytes arg ++ b'"' ∷ []) ++ rest) i 1 [] []
            (open_quote _)
          ∙ ap (λ line. scan f double line (i + 1) [])
              (append_assoc (quote_bytes arg) (b'"' ∷ []) rest))
        refl
        (scan-quote_bytes arg f (i + 1) [] rest h e
          (omega (arith, ap length quoted, length-append (quote_bytes arg) (b'"' ∷ [])))))
]

-- What `quote` writes begins with a byte that is no white space.
pub quote-head :
    (arg rest : List ℕ)
    → (c : ℕ) × (r : List ℕ) × (quote arg ++ rest ≡ c ∷ r) × (is_ascii_whitespace c ≡ false)
quote-head arg rest = elim (quote-cases arg) [
  | inl (simple, same) ↦ rw same (head arg simple)
  | inr quoted ↦ rw quoted (b'"', _, refl, unfold is_ascii_whitespace in refl)
]
  where
    head :
        (a : List ℕ)
        → is_simple a ≡ true
        → (c : ℕ) × (r : List ℕ) × (a ++ rest ≡ c ∷ r) × (is_ascii_whitespace c ≡ false)
    head [] h = unfold is_simple in cc
    head (c ∷ r) h =
        (c, r ++ rest, refl, (step-simple c r (unfold is_simple all_simple in ground arith)).1)

pub length-quote : (arg : List ℕ) → 0 < length (quote arg)
length-quote arg =
    let (c, r, q, w) = quote-head arg [] in omega (arith, ap length q, length-append (quote arg) [])
