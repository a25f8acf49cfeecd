-- ===== src/Protocol/Decoder/Yields.antt =====
-- What holds of the results of the decoder's parsers, put together from parts.
use penguin_redis.Prelude.{
  ℕ, zero, suc, ◌+◌, ◌≤◌, ◌≡◌, refl, Bool, true, false, not, ◌&&◌, Option, none, some, List, [],
  ◌∷◌, ◌++◌, Result, ok, err, ltb, leb, ◌==◌, if◌then◌else◌, length, take, drop, length-append,
  length-take_le, arith, All, All-append,
}
use penguin_redis.Protocol.Value.{Value, null, null_array}
use penguin_redis.Protocol.Decoder.{
  Budget, DecodeError, Parsed, Parser, done, need_more, out_of_fuel, failed, ◌>>=◌, with_len,
  repeat, pair, until, line, crlf, take_payload, chunks, parse_len, len_of, is_question, counted,
  checked,
}

-- Application, for chains of cases.
infixr 10 ◌$◌
abbrev pub ◌$◌ : {A B : Type 0} → (A → B) → A → B
f $ a = f a

-- If a parser has a result, `P` holds of it.
pub data Yields {A : Type 0} (P : A → Type 0) : Parsed A → Type 0 where
  yields : {a : A} {r : List ℕ} → P a → Yields P (done a r)
  waits : Yields P need_more
  tires : Yields P out_of_fuel
  fails : {e : DecodeError} → Yields P (failed e)

abbrev pub Any : {A : Type 0} → A → Type 0
Any a = Unit

pub any : {A : Type 0} (x : Parsed A) → Yields Any x
any (done a r) = yields tt
any need_more = waits
any out_of_fuel = tires
any (failed e) = fails

pub Yields-bind :
    {A B : Type 0} {P : A → Type 0} {Q : B → Type 0} {x : Parsed A} (f : A → Parser B)
    → Yields P x
    → ((a : A) (r : List ℕ) → P a → Yields Q (f a r))
    → Yields Q (x >>= f)
unfolding ◌>>=◌
Yields-bind f (yields {a} {r} p) h = h a r p
Yields-bind f waits h = waits
Yields-bind f tires h = tires
Yields-bind f fails h = fails

pub Yields-if :
    {A : Type 0} {P : A → Type 0} (c : Bool) {x y : Parsed A}
    → (c ≡ true → Yields P x)
    → (c ≡ false → Yields P y)
    → Yields P (if c then x else y)
Yields-if true h k = h refl
Yields-if false h k = k refl

-- A length that is let through is within its limit.
parse_len-le : (cap : ℕ) (s : List ℕ) (n : ℕ) → parse_len cap s ≡ ok (some n) → n ≤ cap
unfolding parse_len len_of
parse_len-le cap s n e = ground arith

pub Yields-cond :
    {A : Type 0} {P : A → Type 0} (c : Bool) {x y : Parsed A}
    → Yields P x
    → Yields P y
    → Yields P (if c then x else y)
Yields-cond c h k = Yields-if c (λ e. h) (λ e. k)

pub Yields-with_len :
    {A : Type 0} {P : A → Type 0} (cap : ℕ) (s : List ℕ) {x : Parsed A} (f : ℕ → Parsed A)
    → Yields P x
    → ((n : ℕ) → n ≤ cap → Yields P (f n))
    → Yields P (with_len (parse_len cap s) x f)
Yields-with_len {A} {P} cap s {x} f h k = by_len (parse_len cap s) refl
  where
    by_len :
        (l : Result {0, 0} DecodeError (Option ℕ)) → parse_len cap s ≡ l → Yields P (with_len l x f)
    by_len (err e) p = unfold with_len in fails
    by_len (ok none) p = unfold with_len in h
    by_len (ok (some n)) p = unfold with_len in (k n (parse_len-le cap s n p))

-- The elements of an aggregate.
abbrev pub Elements : {A : Type 0} → ℕ → (A → Type 0) → List A → Type 0
Elements cap P xs = (length xs ≤ cap) × All P xs

pub Yields-take_payload :
    (n cap : ℕ) (b : List ℕ) → n ≤ cap → Yields (λ s. length s ≤ cap) (take_payload n b)
unfolding take_payload crlf
Yields-take_payload n cap b h =
    Yields-if (ltb (length b) (n + 2)) (λ e. waits)
      (λ e. closed (take n b) (drop n b) (omega (arith, length-take_le n b)))
  where
    closed : (s r : List ℕ) → length s ≤ cap → Yields (λ t. length t ≤ cap) (crlf s r)
    closed s [] k = fails
    closed s (c ∷ []) k = fails
    closed s (c ∷ d ∷ r) k = Yields-if (c == 13 && d == 10) (λ e. yields k) (λ e. fails)

pub Yields-chunks :
    (bd : Budget) (f : ℕ) (out b : List ℕ)
    → length out ≤ bd.max_bulk_bytes
    → Yields (λ s. length s ≤ bd.max_bulk_bytes) (chunks bd f out b)
unfolding chunks
Yields-chunks bd zero out b h = tires
Yields-chunks bd (suc f) out [] h = waits
Yields-chunks bd (suc f) out (c ∷ b) h =
    Yields-if (not (c == b';')) (λ e. fails)
      λ e. Yields-bind _ (any (line b)) λ hdr r u.
        Yields-with_len bd.max_bulk_bytes hdr _ fails λ n l.
          Yields-if (n == 0) (λ e. yields h)
            λ e.
              Yields-if (ltb bd.max_bulk_bytes (length out + n)) (λ e. fails)
                λ e. Yields-bind _ (Yields-take_payload n n r (omega arith)) λ chunk r' w.
                  Yields-chunks bd f (out ++ chunk) r' (ground (arith, length-append out chunk))

pub Yields-repeat :
    {A : Type 0} {P : A → Type 0} (p : Parser A)
    → ((b : List ℕ) → Yields P (p b))
    → (n : ℕ) (b : List ℕ) → Yields (Elements n P) (repeat p n b)
unfolding repeat
Yields-repeat p h zero b = yields (omega arith, tt)
Yields-repeat p h (suc n) b =
    Yields-bind _ (h b)
      λ x r q. Yields-bind _ (Yields-repeat p h n r) λ xs r' qs. yields (omega arith, (q, qs.1))

pub Yields-until :
    {A : Type 0} {P : A → Type 0} (bd : Budget) (p : Parser A)
    → ((b : List ℕ) → Yields P (p b))
    → (f : ℕ) (out : List A) (b : List ℕ) → Elements bd.max_elements P out
    → Yields (Elements bd.max_elements P) (until bd p f out b)
unfolding until
Yields-until bd p h zero out b k = tires
Yields-until bd p h (suc f) out [] k = waits
Yields-until {P = P} bd p h (suc f) out (c ∷ b) k =
    Yields-if (c == b'.')
      (λ e.
        Yields-bind _ (any (line b))
          λ l r u. Yields-if (leb (length l) 0) (λ e'. yields k) (λ e'. fails))
      (λ e. Yields-bind _ (h (c ∷ b)) λ x r q.
        Yields-if (ltb bd.max_elements (length (out ++ x ∷ []))) (λ e'. fails)
          λ e'.
            Yields-until bd p h f (out ++ x ∷ []) r
              (ground arith, All-append P out (x ∷ []) k.1 (q, tt)))

pub Yields-counted :
    {A : Type 0} {P : A → Type 0} {Q : Value → Type 0} (bd : Budget) (p : Parser A)
    (build : List A → Value) (b : List ℕ)
    → ((b : List ℕ) → Yields P (p b))
    → Q (null null_array)
    → ((xs : List A) → Elements bd.max_elements P xs → Q (build xs))
    → Yields Q (counted bd p build b)
unfolding counted
Yields-counted bd p build b h z k = Yields-bind _ (any (line b)) λ hdr r u.
    Yields-if (is_question hdr)
      (λ e.
        Yields-bind _ (Yields-until bd p h (suc (length r)) [] r (omega arith, tt))
          λ xs r' q. yields (k xs q))
      (λ e.
        Yields-with_len bd.max_elements hdr _ (yields z)
          λ n l. Yields-bind _ (Yields-repeat p h n r) λ xs r' q. yields (k xs (omega arith, q.1)))

pub Yields-pair :
    {A : Type 0} {P : A → Type 0} (p : Parser A)
    → ((b : List ℕ) → Yields P (p b))
    → (b : List ℕ) → Yields (λ kv. P kv.0 × P kv.1) (pair p b)
unfolding pair
Yields-pair p h b = Yields-bind _ (h b) λ k r q. Yields-bind _ (h r) λ v r' q'. yields (q, q')

pub Yields-checked :
    {P : Value → Type 0} (c : Bool) (v : Value) (r : List ℕ) → P v → Yields P (checked c v r)
unfolding checked
Yields-checked true v r h = yields h
Yields-checked false v r h = fails
