-- ===== src/Protocol/Streamer/Bulks.antt =====
-- What it takes for `parse_bulk` (crates/pr-protocol/src/decoder.rs) to be done.
use penguin_redis.Prelude.{
  ℕ, suc, ◌≤◌, ◌≡◌, refl, ap, ◌∙◌, true, false, ◌&&◌, some, List, [], ◌∷◌, ok, ◌==◌, if◌then◌else◌,
  length,
}
use penguin_redis.Protocol.Value.{pos, negsuc, Value, bulk, bulk_error, verbatim, null, null_bulk}
use penguin_redis.Protocol.Decoder.{
  Budget, protocol, Parsed, done, failed, ◌>>=◌, line, with_len, chunks, take_payload, payload,
  parse_bulk, parse_len, parse_i64, is_question,
}
use penguin_redis.Protocol.Streamer.Inversions.{
  Came, came, bind-Came, done-fst, done-snd, Chose, yes, no, if-Chose, Measured, nothing,
  counted_as, with_len-Measured, parse_len-some, parse_len-le, parse_len-none,
}

-- Which value a payload is.
pub data Payload (tag : ℕ) (d : List ℕ) (v : Value) : Type 0 where
  as_bulk : (tag == b'$') ≡ true → bulk d ≡ v → Payload tag d v
  as_error : (tag == b'$') ≡ false → (tag == b'!') ≡ true → bulk_error d ≡ v → Payload tag d v
  as_verbatim :
      (x y z c : ℕ) (d' : List ℕ)
      → (tag == b'$') ≡ false
      → (tag == b'!') ≡ false
      → (c == b':') ≡ true
      → d ≡ x ∷ y ∷ z ∷ c ∷ d'
      → verbatim (x ∷ y ∷ z ∷ []) d' ≡ v
      → Payload tag d v

kind-Payload :
    (tag : ℕ) (d b : List ℕ) {x : Parsed Value} {v : Value} {r : List ℕ}
    → ((tag == b'$') ≡ false → (tag == b'!') ≡ false → x ≡ done v r → Payload tag d v × (b ≡ r))
    → (if tag == b'$' then done (bulk d) b else if tag == b'!' then done (bulk_error d) b else x)
      ≡ done v r
    → Payload tag d v × (b ≡ r)
kind-Payload tag d b {x} {v} {r} k e = by_bulk (if-Chose (tag == b'$') e)
  where
    by_error :
        (tag == b'$') ≡ false
        → Chose (tag == b'!') (done (bulk_error d) b) x (done v r)
        → Payload tag d v × (b ≡ r)
    by_error n (yes h g) = (as_error n h (done-fst g), done-snd g)
    by_error n (no h g) = k n h g

    by_bulk :
        Chose
          (tag == b'$')
          (done (bulk d) b)
          (if tag == b'!' then done (bulk_error d) b else x)
          (done v r)
        → Payload tag d v × (b ≡ r)
    by_bulk (yes h g) = (as_bulk h (done-fst g), done-snd g)
    by_bulk (no h g) = by_error h (if-Chose (tag == b'!') g)

payload-Payload :
    (tag : ℕ) (d b : List ℕ) {v : Value} {r : List ℕ}
    → payload tag d b ≡ done v r
    → Payload tag d v × (b ≡ r)
unfolding payload
payload-Payload tag [] b e = kind-Payload tag [] b (λ n h g. absurd cc) e
payload-Payload tag (x ∷ []) b e = kind-Payload tag (x ∷ []) b (λ n h g. absurd cc) e
payload-Payload tag (x ∷ y ∷ []) b e = kind-Payload tag (x ∷ y ∷ []) b (λ n h g. absurd cc) e
payload-Payload tag (x ∷ y ∷ z ∷ []) b e =
    kind-Payload tag (x ∷ y ∷ z ∷ []) b (λ n h g. absurd cc) e
payload-Payload tag (x ∷ y ∷ z ∷ c ∷ d) b {v} {r} e =
    kind-Payload tag (x ∷ y ∷ z ∷ c ∷ d) b (λ n h g. by_colon n h (if-Chose (c == b':') g)) e
  where
    by_colon :
        (tag == b'$') ≡ false
        → (tag == b'!') ≡ false
        → Chose (c == b':') (done (verbatim (x ∷ y ∷ z ∷ []) d) b) (failed protocol) (done v r)
        → Payload tag (x ∷ y ∷ z ∷ c ∷ d) v × (b ≡ r)
    by_colon n h (yes t g) = (as_verbatim x y z c d n h t refl (done-fst g), done-snd g)
    by_colon n h (no t g) = absurd cc

-- How a bulk string, bulk error or verbatim string was read.
pub data BulkRead (bd : Budget) (tag : ℕ) (b : List ℕ) (v : Value) (r : List ℕ) : Type 0 where
  streamed :
      (hdr r' d : List ℕ)
      → (tag == b'$' && is_question hdr) ≡ true
      → line b ≡ done hdr r'
      → chunks bd (suc (length r')) [] r' ≡ done d r
      → bulk d ≡ v
      → BulkRead bd tag b v r
  absent :
      (hdr r' : List ℕ)
      → (tag == b'$' && is_question hdr) ≡ false
      → line b ≡ done hdr r'
      → parse_i64 hdr ≡ ok (negsuc 0)
      → null null_bulk ≡ v
      → r' ≡ r
      → BulkRead bd tag b v r
  sized :
      (hdr r' d : List ℕ) (n : ℕ)
      → (tag == b'$' && is_question hdr) ≡ false
      → line b ≡ done hdr r'
      → parse_i64 hdr ≡ ok (pos n)
      → n ≤ bd.max_bulk_bytes
      → take_payload n r' ≡ done d r
      → Payload tag d v
      → BulkRead bd tag b v r

pub parse_bulk-BulkRead :
    (bd : Budget) (tag : ℕ) (b : List ℕ) {v : Value} {r : List ℕ}
    → parse_bulk bd tag b ≡ done v r
    → BulkRead bd tag b v r
unfolding parse_bulk
parse_bulk-BulkRead bd tag b {v} {r} e = by_line (bind-Came (line b) read e)
  where
    whole : ℕ → List ℕ → Parsed Value
    whole n r' = take_payload n r' >>= payload tag

    known : List ℕ → List ℕ → Parsed Value
    known hdr r' =
        with_len (parse_len bd.max_bulk_bytes hdr) (done (null null_bulk) r') λ n. whole n r'

    open_ended : List ℕ → Parsed Value
    open_ended r' = chunks bd (suc (length r')) [] r' >>= λ d r''. done (bulk d) r''

    read : List ℕ → List ℕ → Parsed Value
    read hdr r' = if tag == b'$' && is_question hdr then open_ended r' else known hdr r'

    by_payload :
        (hdr r' : List ℕ) (n : ℕ)
        → (tag == b'$' && is_question hdr) ≡ false
        → line b ≡ done hdr r'
        → parse_len bd.max_bulk_bytes hdr ≡ ok (some n)
        → Came (take_payload n r') (payload tag) v r
        → BulkRead bd tag b v r
    by_payload hdr r' n q l p (came d r'' t g) =
        let read_as = payload-Payload tag d r'' g in
        sized hdr r' d n q l (parse_len-some bd.max_bulk_bytes n hdr p)
          (parse_len-le bd.max_bulk_bytes n hdr p) (t ∙ ap (done d) read_as.1) read_as.0

    by_length :
        (hdr r' : List ℕ)
        → (tag == b'$' && is_question hdr) ≡ false
        → line b ≡ done hdr r'
        → Measured
            (parse_len bd.max_bulk_bytes hdr)
            (done (null null_bulk) r')
            (λ n. whole n r')
            v
            r
        → BulkRead bd tag b v r
    by_length hdr r' q l (nothing p g) =
        absent hdr r' q l (parse_len-none bd.max_bulk_bytes hdr p) (done-fst g) (done-snd g)
    by_length hdr r' q l (counted_as n p g) =
        by_payload hdr r' n q l p (bind-Came (take_payload n r') (payload tag) g)

    by_chunks :
        (hdr r' : List ℕ)
        → (tag == b'$' && is_question hdr) ≡ true
        → line b ≡ done hdr r'
        → Came (chunks bd (suc (length r')) [] r') (λ d r''. done (bulk d) r'') v r
        → BulkRead bd tag b v r
    by_chunks hdr r' q l (came d r'' t g) =
        streamed hdr r' d q l (t ∙ ap (done d) (done-snd g)) (done-fst g)

    by_question :
        (hdr r' : List ℕ)
        → line b ≡ done hdr r'
        → Chose (tag == b'$' && is_question hdr) (open_ended r') (known hdr r') (done v r)
        → BulkRead bd tag b v r
    by_question hdr r' l (yes q g) =
        by_chunks hdr r' q l (bind-Came (chunks bd (suc (length r')) [] r') _ g)
    by_question hdr r' l (no q g) =
        by_length hdr r' q l (with_len-Measured (parse_len bd.max_bulk_bytes hdr) _ _ g)

    by_line : Came (line b) read v r → BulkRead bd tag b v r
    by_line (came hdr r' l g) = by_question hdr r' l (if-Chose (tag == b'$' && is_question hdr) g)
