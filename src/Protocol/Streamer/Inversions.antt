-- ===== src/Protocol/Streamer/Inversions.antt =====
-- What it takes for a parser of the decoder (crates/pr-protocol/src/decoder.rs) to be done.
use penguin_redis.Prelude.{
  ℕ, zero, suc, ◌+◌, ◌≤◌, ◌≡◌, refl, sym, ap, ap₂, ◌∙◌, Bool, true, false, not, ◌&&◌, Option, none,
  some, List, [], ◌∷◌, ◌++◌, Result, ok, err, ltb, ◌==◌, if◌then◌else◌, length, take, drop, arith,
  take-append-drop,
}
use penguin_redis.Protocol.Value.{pos, negsuc}
use penguin_redis.Protocol.Decoder.{
  Budget, DecodeError, protocol, budget, parse_i64, parse_len, len_of, line, chunks, Parsed, Parser,
  done, need_more, out_of_fuel, failed, ◌>>=◌, with_len, crlf, take_payload,
}

-- `x >>= f` is done, since `x` is and what `f` makes of it is.
pub data Came {A B : Type 0} (x : Parsed A) (f : A → Parser B) (b : B) (r : List ℕ) : Type 0 where
  came : (a : A) (r' : List ℕ) → x ≡ done a r' → f a r' ≡ done b r → Came x f b r

pub bind-Came :
    {A B : Type 0} (x : Parsed A) (f : A → Parser B) {b : B} {r : List ℕ}
    → x >>= f ≡ done b r
    → Came x f b r
unfolding ◌>>=◌
bind-Came (done a r') f e = came a r' refl e
bind-Came need_more f e = absurd cc
bind-Came out_of_fuel f e = absurd cc
bind-Came (failed d) f e = absurd cc

pub done-fst : {A : Type 0} {a b : A} {r s : List ℕ} → done a r ≡ done b s → a ≡ b
done-fst e = cc

pub done-snd : {A : Type 0} {a b : A} {r s : List ℕ} → done a r ≡ done b s → r ≡ s
done-snd e = cc

-- Which way a test went.
pub data Chose {A : Type 0} (c : Bool) (x y z : A) : Type 0 where
  yes : c ≡ true → x ≡ z → Chose c x y z
  no : c ≡ false → y ≡ z → Chose c x y z

pub if-Chose : {A : Type 0} (c : Bool) {x y z : A} → (if c then x else y) ≡ z → Chose c x y z
if-Chose true e = yes refl e
if-Chose false e = no refl e

pub data Measured {A : Type 0} (l : Result {0, 0} DecodeError (Option ℕ)) (x : Parsed A)
    (f : ℕ → Parsed A) (a : A) (r : List ℕ) : Type 0 where
  nothing : l ≡ ok none → x ≡ done a r → Measured l x f a r
  counted_as : (n : ℕ) → l ≡ ok (some n) → f n ≡ done a r → Measured l x f a r

pub with_len-Measured :
    {A : Type 0} (l : Result {0, 0} DecodeError (Option ℕ)) (x : Parsed A) (f : ℕ → Parsed A)
    {a : A} {r : List ℕ}
    → with_len l x f ≡ done a r
    → Measured l x f a r
unfolding with_len
with_len-Measured (err d) x f e = absurd cc
with_len-Measured (ok none) x f e = nothing refl e
with_len-Measured (ok (some n)) x f e = counted_as n refl e

-- A payload of `n` bytes is those bytes, and a CRLF behind them.
pub crlf-inverse : (s b : List ℕ) {d r : List ℕ} → crlf s b ≡ done d r → (s ≡ d) × (b ≡ 13 ∷ 10 ∷ r)
unfolding crlf
crlf-inverse s [] e = absurd cc
crlf-inverse s (x ∷ []) e = absurd cc
crlf-inverse s (x ∷ y ∷ b) {d} {r} e = by_test (if-Chose (x == 13 && y == 10) e)
  where
    by_test :
        Chose (x == 13 && y == 10) (done s b) (failed protocol) (done d r)
        → (s ≡ d) × (x ∷ y ∷ b ≡ 13 ∷ 10 ∷ r)
    by_test (yes h g) =
        let hx : x ≡ 13 = ground arith in
        let hy : y ≡ 10 = ground arith in (done-fst g, rw (hx, hy, done-snd g) refl)
    by_test (no h g) = absurd cc

length-take : (n : ℕ) (b : List ℕ) → n ≤ length b → length (take n b) ≡ n
length-take zero b h = refl
length-take (suc n) [] h = absurd (omega arith)
length-take (suc n) (c ∷ b) h = ap suc (length-take n b (omega arith))

pub take_payload-inverse :
    (n : ℕ) (b : List ℕ) {d r : List ℕ}
    → take_payload n b ≡ done d r
    → (b ≡ d ++ (13 ∷ 10 ∷ r)) × (length d ≡ n)
unfolding take_payload
take_payload-inverse n b {d} {r} e = by_test (if-Chose (ltb (length b) (n + 2)) e)
  where
    by_test :
        Chose (ltb (length b) (n + 2)) need_more (crlf (take n b) (drop n b)) (done d r)
        → (b ≡ d ++ (13 ∷ 10 ∷ r)) × (length d ≡ n)
    by_test (yes h g) = absurd cc
    by_test (no h g) =
        let q = crlf-inverse (take n b) (drop n b) g in
        (
          sym (take-append-drop n b) ∙ ap₂ (λ x y. x ++ y) q.0 q.1,
          ap length (sym q.0) ∙ length-take n b (ground arith),
        )

-- The lengths that the value decoder takes, as numbers.
pub parse_len-some :
    (bound n : ℕ) (hdr : List ℕ) → parse_len bound hdr ≡ ok (some n) → parse_i64 hdr ≡ ok (pos n)
unfolding parse_len len_of
parse_len-some bound n hdr h = ground arith

pub parse_len-le : (bound n : ℕ) (hdr : List ℕ) → parse_len bound hdr ≡ ok (some n) → n ≤ bound
unfolding parse_len len_of
parse_len-le bound n hdr h = ground arith

pub parse_len-none :
    (bound : ℕ) (hdr : List ℕ) → parse_len bound hdr ≡ ok none → parse_i64 hdr ≡ ok (negsuc 0)
unfolding parse_len len_of
parse_len-none bound hdr h = ground arith

-- A chunk of a streamed bulk string: the last one, which is empty, or one with others behind it.
pub data Chunked (bd : Budget) (f : ℕ) (out : List ℕ) (c : ℕ) (b d r : List ℕ) : Type 0 where
  ends :
      (hdr r' : List ℕ) (n : ℕ)
      → not (c == b';') ≡ false
      → line b ≡ done hdr r'
      → parse_i64 hdr ≡ ok (pos n)
      → (n == 0) ≡ true
      → out ≡ d
      → r' ≡ r
      → Chunked bd f out c b d r
  goes :
      (hdr r' : List ℕ) (n : ℕ) (chunk r'' : List ℕ)
      → not (c == b';') ≡ false
      → line b ≡ done hdr r'
      → parse_i64 hdr ≡ ok (pos n)
      → (n == 0) ≡ false
      → length out + n ≤ bd.max_bulk_bytes
      → take_payload n r' ≡ done chunk r''
      → chunks bd f (out ++ chunk) r'' ≡ done d r
      → Chunked bd f out c b d r

pub chunks-Chunked :
    (bd : Budget) (f : ℕ) (out : List ℕ) (c : ℕ) (b : List ℕ) {d r : List ℕ}
    → chunks bd (suc f) out (c ∷ b) ≡ done d r
    → Chunked bd f out c b d r
unfolding chunks
chunks-Chunked bd f out c b {d} {r} e = by_tag (if-Chose (not (c == b';')) e)
  where
    more : ℕ → List ℕ → Parsed (List ℕ)
    more n r' = take_payload n r' >>= λ chunk r''. chunks bd f (out ++ chunk) r''

    within : ℕ → List ℕ → Parsed (List ℕ)
    within n r' = if ltb bd.max_bulk_bytes (length out + n) then failed budget else more n r'

    sized : List ℕ → ℕ → Parsed (List ℕ)
    sized r' n = if n == 0 then done out r' else within n r'

    measured : List ℕ → List ℕ → Parsed (List ℕ)
    measured hdr r' = with_len (parse_len bd.max_bulk_bytes hdr) (failed protocol) (sized r')

    -- What the header was.
    Header : List ℕ → List ℕ → Type 0
    Header hdr r' = (not (c == b';') ≡ false) × (line b ≡ done hdr r')

    by_more :
        (hdr r' : List ℕ) (n : ℕ)
        → Header hdr r'
        → parse_i64 hdr ≡ ok (pos n)
        → (n == 0) ≡ false
        → ltb bd.max_bulk_bytes (length out + n) ≡ false
        → Came (take_payload n r') (λ chunk r''. chunks bd f (out ++ chunk) r'') d r
        → Chunked bd f out c b d r
    by_more hdr r' n h p z w (came chunk r'' g i) =
        goes hdr r' n chunk r'' h.0 h.1 p z (ground arith) g i

    by_within :
        (hdr r' : List ℕ) (n : ℕ)
        → Header hdr r'
        → parse_i64 hdr ≡ ok (pos n)
        → (n == 0) ≡ false
        → Chose (ltb bd.max_bulk_bytes (length out + n)) (failed budget) (more n r') (done d r)
        → Chunked bd f out c b d r
    by_within hdr r' n h p z (yes w g) = absurd cc
    by_within hdr r' n h p z (no w g) = by_more hdr r' n h p z w (bind-Came (take_payload n r') _ g)

    by_size :
        (hdr r' : List ℕ) (n : ℕ)
        → Header hdr r'
        → parse_i64 hdr ≡ ok (pos n)
        → Chose (n == 0) (done out r') (within n r') (done d r)
        → Chunked bd f out c b d r
    by_size hdr r' n h p (yes z g) = ends hdr r' n h.0 h.1 p z (done-fst g) (done-snd g)
    by_size hdr r' n h p (no z g) =
        by_within hdr r' n h p z (if-Chose (ltb bd.max_bulk_bytes (length out + n)) g)

    by_header :
        (hdr r' : List ℕ)
        → Header hdr r'
        → Measured (parse_len bd.max_bulk_bytes hdr) (failed protocol) (sized r') d r
        → Chunked bd f out c b d r
    by_header hdr r' h (nothing p g) = absurd cc
    by_header hdr r' h (counted_as n p g) =
        by_size hdr r' n h (parse_len-some bd.max_bulk_bytes n hdr p) (if-Chose (n == 0) g)

    by_line : not (c == b';') ≡ false → Came (line b) measured d r → Chunked bd f out c b d r
    by_line t (came hdr r' l g) =
        by_header hdr r' (t, l) (with_len-Measured (parse_len bd.max_bulk_bytes hdr) _ (sized r') g)

    by_tag :
        Chose (not (c == b';')) (failed protocol) (line b >>= measured) (done d r)
        → Chunked bd f out c b d r
    by_tag (yes t g) = absurd cc
    by_tag (no t g) = by_line t (bind-Came (line b) measured g)
