-- ===== src/Protocol/Streamer/Chunks.antt =====
-- The chunks of a streamed bulk string (crates/pr-protocol/src/stream.rs).
use penguin_redis.Prelude.{
  ℕ, zero, suc, ◌+◌, ◌-◌, ◌*◌, ◌^◌, min, ◌≤◌, ◌<◌, ◌≡◌, refl, sym, ◌∙◌, true, false, not, Option,
  List, [], ◌∷◌, ◌++◌, ok, ltb, ◌==◌, length, arith, length-append,
}
use penguin_redis.Protocol.Value.{pos, Value, bulk}
use penguin_redis.Protocol.Decoder.{
  Budget, done, line, chunks, take_payload, parse_i64, parse_value,
}
use penguin_redis.Protocol.Reassembler.{
  whole, scalar_end, bulk_kind, Reassembler, scalar_value, deliver,
}
use penguin_redis.Protocol.Streamer.{
  StreamBudget, at_value, chunk_header, chunk_left, Pending, Streamer, again, taken, left_over,
  open_chunk, next_chunk, advance, by_state, continue_payload, close_payload, take_whole,
  finish_value,
}
use penguin_redis.Protocol.Streamer.Runs.{Reaches, here, moving, Reaches-trans}
use penguin_redis.Protocol.Streamer.Inversions.{
  Chunked, ends, goes, chunks-Chunked, take_payload-inverse,
}
use penguin_redis.Protocol.Streamer.Payloads.{
  at, closed, Frames, built, holding, payload-Reaches, scalar_end-Reaches, whole-Reaches,
}

-- What the streamer may read is no less than what the value decoder may, and counts that the value
-- decoder takes do not overflow.
abbrev pub Roomy : Budget → StreamBudget → Type 0
Roomy bd sb =
    (bd.max_bulk_bytes ≤ sb.max_streamed_bytes)
    × (sb.max_streamed_bytes < 2 ^ 64)
    × (bd.max_elements * 2 + 1 < 2 ^ 64)

-- From `s` and `q`, the streamer reads the value `v`, within `st`, and has `r` left.
pub data Delivers (bd : Budget) (sb : StreamBudget) (st : List Pending) (stk : Frames)
    (fin : Option Value) (s : Streamer) (q : Reassembler) (v : Value) (r : List ℕ) : Type 0 where
  delivers :
      (m : ℕ)
      → Reaches s q (closed bd sb st m r) (deliver v (built stk fin))
      → Delivers bd sb st stk fin s q v r

next_chunk-sized :
    (s : Streamer) (c n : ℕ) (b hdr r : List ℕ)
    → not (c == b';') ≡ false
    → line b ≡ done hdr r
    → parse_i64 hdr ≡ ok (pos n)
    → next_chunk s (c ∷ b) ≡ open_chunk s n r
unfolding next_chunk taken
next_chunk-sized s c n b hdr r h l k = rw (h, l) (rw (taken, k) refl)

-- What a streamed string has had, and its next chunk, within the limits.
total-fits :
    (bd : Budget) (sb : StreamBudget) (m n : ℕ)
    → Roomy bd sb
    → m + n ≤ bd.max_bulk_bytes
    → (min (m + n) (2 ^ 64 - 1) ≡ m + n) × (ltb sb.max_streamed_bytes (m + n) ≡ false)
total-fits bd sb m n h l = (omega arith, ground arith)

module _ (bd : Budget) (sb : StreamBudget) (st : List Pending) (stk : Frames) (fin : Option Value)
    (room : Roomy bd sb) where
  last_chunk :
      (m n : ℕ) (r : List ℕ)
      → m + n ≤ bd.max_bulk_bytes
      → (n == 0) ≡ true
      → open_chunk (at bd sb st m chunk_header r) n r
        ≡ again (finish_value (at bd sb st (m + n) at_value r) scalar_end)
  unfolding open_chunk
  last_chunk m n r h z = let q = total-fits bd sb m n room h in rw (q.0, q.1, z) refl

  one_chunk :
      (m n : ℕ) (b r : List ℕ)
      → m + n ≤ bd.max_bulk_bytes
      → (n == 0) ≡ false
      → open_chunk (at bd sb st m chunk_header b) n r ≡ again (at bd sb st (m + n) (chunk_left n) r)
  unfolding open_chunk
  one_chunk m n b r h z = let q = total-fits bd sb m n room h in rw (q.0, q.1, z) refl

  chunk-Reaches :
      (m n : ℕ) (out b d r : List ℕ)
      → take_payload n b ≡ done d r
      → Reaches
          (at bd sb st m (chunk_left n) b)
          (holding stk fin bulk_kind out)
          (at bd sb st m chunk_header r)
          (holding stk fin bulk_kind (out ++ d))
  unfolding left_over advance by_state continue_payload close_payload
  chunk-Reaches m n out b d r h =
      Reaches-trans (payload-Reaches bd sb st m stk fin bulk_kind true n out b d r h)
        (moving refl here)

  -- The chunks of a streamed bulk string, from some that were read before.
  pub chunks-Delivers :
      (f : ℕ) (out b d r : List ℕ)
      → length out ≤ bd.max_bulk_bytes
      → chunks bd f out b ≡ done d r
      → Delivers bd sb st stk fin
          (at bd sb st (length out) chunk_header b)
          (holding stk fin bulk_kind out)
          (bulk d)
          r
  unfolding chunks advance by_state scalar_value
  chunks-Delivers zero out b d r h e = absurd cc
  chunks-Delivers (suc f) out [] d r h e = absurd cc
  chunks-Delivers (suc f) out (c ∷ b) d r h e =
      by_view (chunks-Chunked bd f out c b e) λ out' r' h' e'. chunks-Delivers f out' r' d r h' e'
    where
      s : Streamer
      s = at bd sb st (length out) chunk_header (c ∷ b)

      Goal : Type 0
      Goal = Delivers bd sb st stk fin s (holding stk fin bulk_kind out) (bulk d) r

      onward :
          (n : ℕ) (chunk r' r'' : List ℕ)
          → next_chunk s (c ∷ b) ≡ again (at bd sb st (length out + n) (chunk_left n) r')
          → take_payload n r' ≡ done chunk r''
          → Delivers bd sb st stk fin
              (at bd sb st (length (out ++ chunk)) chunk_header r'')
              (holding stk fin bulk_kind (out ++ chunk))
              (bulk d)
              r
          → Goal
      onward n chunk r' r'' m t (delivers m' k) =
          let total : length out + n ≡ length (out ++ chunk) =
            omega (arith, length-append out chunk, (take_payload-inverse n r' t).1) in
          delivers m' (
            moving m
              (Reaches-trans (chunk-Reaches (length out + n) n out r' chunk r'' t) (rw total k)))

      by_view :
          Chunked bd f out c b d r
          → ((out' r' : List ℕ)
              → length out' ≤ bd.max_bulk_bytes
              → chunks bd f out' r' ≡ done d r
              → Delivers bd sb st stk fin
                  (at bd sb st (length out') chunk_header r')
                  (holding stk fin bulk_kind out')
                  (bulk d)
                  r)
          → Goal
      by_view (ends hdr r' n t l p z o w) k = delivers (length out + n) (
          moving
            (next_chunk-sized s c n b hdr r' t l p ∙ last_chunk (length out) n r' (ground arith) z)
            (rw (sym o, sym w)
              (scalar_end-Reaches bd sb st (length out + n) stk fin bulk_kind out r')))
      by_view (goes hdr r' n chunk r'' t l p z w g i) k =
          onward n chunk r' r''
            (next_chunk-sized s c n b hdr r' t l p ∙ one_chunk (length out) n r' r' w z) g
            (k (out ++ chunk) r''
              (omega (arith, length-append out chunk, (take_payload-inverse n r' g).1)) i)

  -- A value that is decoded in place.
  pub take_whole-again :
      (m left : ℕ) (b : List ℕ) (v : Value) (r : List ℕ)
      → bd.max_depth - length st ≡ left
      → parse_value bd left b ≡ done v r
      → take_whole (at bd sb st m at_value b)
        ≡ again (finish_value (at bd sb st m at_value r) (whole v))
  unfolding take_whole taken
  take_whole-again m left b v r d e = rw (d, e) refl

  pub again-Delivers :
      (m : ℕ) (b : List ℕ) (v : Value) (r : List ℕ)
      → advance (at bd sb st m at_value b)
        ≡ again (finish_value (at bd sb st m at_value r) (whole v))
      → Delivers bd sb st stk fin (at bd sb st m at_value b) (built stk fin) v r
  again-Delivers m b v r e = delivers m (moving e (whole-Reaches bd sb st m stk fin v r))
