-- ===== src/Protocol/Streamer/Scalars.antt =====
-- Bulk strings, bulk errors and verbatim strings: the streamer (crates/pr-protocol/src/stream.rs)
-- where `parse_bulk` is done.
use penguin_redis.Prelude.{
  ℕ, suc, ◌-◌, ◌≤◌, ◌≡◌, refl, sym, ap, ◌∙◌, ◌⊎◌, inl, inr, true, false, ◌&&◌, Option, none, List,
  [], ◌∷◌, ◌++◌, ok, ltb, ◌==◌, length, arith, Bool-cases,
}
use penguin_redis.Protocol.Value.{pos, negsuc, Value, bulk, verbatim, null, null_bulk}
use penguin_redis.Protocol.Decoder.{
  Budget, done, line, take_payload, parse_bulk, parse_i64, is_question, parse_value,
}
use penguin_redis.Protocol.Reassembler.{
  whole, scalar_begin, ScalarKind, bulk_kind, bulk_error_kind, verbatim_kind, scalar_value, receive,
}
use penguin_redis.Protocol.Streamer.{
  StreamBudget, at_value, chunk_header, Pending, Streamer, again, stop, emitted, taken, left_over,
  advance, take_whole, begin_scalar, begin_verbatim, open_sized, open_scalar, finish_value,
}
use penguin_redis.Protocol.Streamer.Runs.{taking, inner_begin}
use penguin_redis.Protocol.Streamer.Inversions.{take_payload-inverse}
use penguin_redis.Protocol.Streamer.Bulks.{
  Payload, as_bulk, as_error, as_verbatim, BulkRead, streamed, absent, sized, parse_bulk-BulkRead,
}
use penguin_redis.Protocol.Streamer.Payloads.{at, Frames, built, holding, sized-Reaches_exact}
use penguin_redis.Protocol.Streamer.Chunks.{
  Roomy, Delivers, delivers, chunks-Delivers, take_whole-again, again-Delivers,
}

open_scalar-streamed :
    (bd : Budget) (sb : StreamBudget) (st : List Pending) (m tag : ℕ) (b hdr r' : List ℕ)
    → (tag == b'$' && is_question hdr) ≡ true
    → line b ≡ done hdr r'
    → open_scalar (at bd sb st m at_value (tag ∷ b)) tag b
      ≡ stop (emitted (scalar_begin bulk_kind none) (at bd sb st 0 chunk_header r'))
unfolding open_scalar taken
open_scalar-streamed bd sb st m tag b hdr r' q l = rw l (rw (taken, q) refl)

-- The header of a scalar whose length is known.
open_scalar-absent :
    (s : Streamer) (tag : ℕ) (b hdr r' : List ℕ)
    → (tag == b'$' && is_question hdr) ≡ false
    → line b ≡ done hdr r'
    → parse_i64 hdr ≡ ok (negsuc 0)
    → open_scalar s tag b ≡ again (finish_value (record s { buf = r' }) (whole (null null_bulk)))
unfolding open_scalar taken
open_scalar-absent s tag b hdr r' q l p = rw l (rw (taken, q, p) refl)

open_scalar-sized :
    (s : Streamer) (tag n : ℕ) (b hdr r' : List ℕ)
    → (tag == b'$' && is_question hdr) ≡ false
    → line b ≡ done hdr r'
    → parse_i64 hdr ≡ ok (pos n)
    → open_scalar s tag b ≡ open_sized s tag n r'
unfolding open_scalar taken
open_scalar-sized s tag n b hdr r' q l p = rw l (rw (taken, q, p) refl)

-- A length within the budget, of a scalar that is not decoded in place.
module _ (s : Streamer) (tag n : ℕ) (r : List ℕ) (fits : ltb s.stream.max_streamed_bytes n ≡ false)
    (large : ltb n s.stream.stream_above ≡ false) where
  open_sized-bulk : (tag == b'$') ≡ true → open_sized s tag n r ≡ begin_scalar s bulk_kind n r
  unfolding open_sized
  open_sized-bulk h = rw (fits, large, h) refl

  open_sized-error :
      (tag == b'$') ≡ false
      → (tag == b'!') ≡ true
      → open_sized s tag n r ≡ begin_scalar s bulk_error_kind n r
  unfolding open_sized
  open_sized-error h k = rw (fits, large, h, k) refl

  open_sized-verbatim :
      (tag == b'$') ≡ false
      → (tag == b'!') ≡ false
      → ltb n 4 ≡ false
      → open_sized s tag n r ≡ begin_verbatim s n r
  unfolding open_sized
  open_sized-verbatim h k w = rw (fits, large, h, k, w) refl

open_sized-small :
    (s : Streamer) (tag n : ℕ) (r : List ℕ)
    → ltb s.stream.max_streamed_bytes n ≡ false
    → ltb n s.stream.stream_above ≡ true
    → open_sized s tag n r ≡ take_whole s
unfolding open_sized
open_sized-small s tag n r fits small = rw (fits, small) refl

begin_verbatim-colon :
    (s : Streamer) (n x y z c : ℕ) (r : List ℕ)
    → (c == b':') ≡ true
    → begin_verbatim s n (x ∷ y ∷ z ∷ c ∷ r)
      ≡ begin_scalar s (verbatim_kind (x ∷ y ∷ z ∷ [])) (n - 4) r
unfolding begin_verbatim
begin_verbatim-colon s n x y z c r h = rw h refl

module _ (bd : Budget) (sb : StreamBudget) (st : List Pending) (stk : Frames) (fin : Option Value)
    (room : Roomy bd sb) where
  abbrev s_at : ℕ → List ℕ → Streamer
  s_at m b = at bd sb st m at_value b

  begun-Delivers :
      (m : ℕ) (b : List ℕ) (k : ScalarKind) (d r : List ℕ)
      → advance (s_at m b) ≡ begin_scalar (s_at m b) k (length d) (d ++ (13 ∷ 10 ∷ r))
      → Delivers bd sb st stk fin (s_at m b) (built stk fin) (scalar_value k d) r
  unfolding begin_scalar left_over receive
  begun-Delivers m b k d r e =
      delivers m (taking e inner_begin refl (sized-Reaches_exact bd sb st m stk fin k d r))

  -- A scalar that is not decoded in place, behind its header.
  large-Delivers :
      (m tag : ℕ) (b d r : List ℕ) (v : Value)
      → length d ≤ bd.max_bulk_bytes
      → ltb (length d) sb.stream_above ≡ false
      → advance (s_at m b) ≡ open_sized (s_at m b) tag (length d) (d ++ (13 ∷ 10 ∷ r))
      → Payload tag d v
      → Delivers bd sb st stk fin (s_at m b) (built stk fin) v r
  unfolding scalar_value
  large-Delivers m tag b d r v h l e p = by_payload p
    where
      fits : ltb sb.max_streamed_bytes (length d) ≡ false
      fits = ground arith

      by_verbatim :
          (x y z c : ℕ) (d' : List ℕ)
          → (tag == b'$') ≡ false
          → (tag == b'!') ≡ false
          → (c == b':') ≡ true
          → d ≡ x ∷ y ∷ z ∷ c ∷ d'
          → Delivers bd sb st stk fin (s_at m b) (built stk fin) (verbatim (x ∷ y ∷ z ∷ []) d') r
      by_verbatim x y z c d' n k t q =
          let size : length d ≡ suc (suc (suc (suc (length d')))) = ap length q in
          let left : suc (suc (suc (suc (length d')))) - 4 ≡ length d' = omega arith in
          let whole_d : begin_verbatim (s_at m b) (length d) (d ++ (13 ∷ 10 ∷ r))
              ≡ begin_verbatim (s_at m b) (suc (suc (suc (suc (length d')))))
                  (x ∷ y ∷ z ∷ c ∷ (d' ++ (13 ∷ 10 ∷ r))) =
            ap (λ o. begin_verbatim (s_at m b) (length o) (o ++ (13 ∷ 10 ∷ r))) q in
          begun-Delivers m b (verbatim_kind (x ∷ y ∷ z ∷ [])) d' r (
            e
            ∙ open_sized-verbatim (s_at m b) tag (length d) (d ++ (13 ∷ 10 ∷ r)) fits l n k
                (ground arith)
            ∙ whole_d
            ∙ begin_verbatim-colon (s_at m b) _ x y z c (d' ++ (13 ∷ 10 ∷ r)) t
            ∙ ap
                (λ i.
                  begin_scalar (s_at m b) (verbatim_kind (x ∷ y ∷ z ∷ [])) i (d' ++ (13 ∷ 10 ∷ r)))
                left)

      by_payload : Payload tag d v → Delivers bd sb st stk fin (s_at m b) (built stk fin) v r
      by_payload (as_bulk h' g) =
          rw (sym g)
            (begun-Delivers m b bulk_kind d r (e ∙ open_sized-bulk (s_at m b) tag _ _ fits l h'))
      by_payload (as_error n h' g) = rw (sym g) (
          begun-Delivers m b bulk_error_kind d r
            (e ∙ open_sized-error (s_at m b) tag _ _ fits l n h'))
      by_payload (as_verbatim x y z c d' n k t q g) = rw (sym g) (by_verbatim x y z c d' n k t q)

  -- What `parse_bulk` reads, the streamer reads.
  pub scalar-Delivers :
      (m left tag : ℕ) (b r : List ℕ) (v : Value)
      → bd.max_depth - length st ≡ left
      → advance (s_at m (tag ∷ b)) ≡ open_scalar (s_at m (tag ∷ b)) tag b
      → parse_value bd left (tag ∷ b) ≡ done v r
      → parse_bulk bd tag b ≡ done v r
      → Delivers bd sb st stk fin (s_at m (tag ∷ b)) (built stk fin) v r
  unfolding receive
  scalar-Delivers m left tag b r v depth e w p = by_read (parse_bulk-BulkRead bd tag b p)
    where
      s : Streamer
      s = s_at m (tag ∷ b)

      Goal : Type 0
      Goal = Delivers bd sb st stk fin s (built stk fin) v r

      by_size :
          (r' d : List ℕ) (n : ℕ)
          → advance s ≡ open_sized s tag n r'
          → n ≤ bd.max_bulk_bytes
          → take_payload n r' ≡ done d r
          → Payload tag d v
          → (ltb n sb.stream_above ≡ true) ⊎ (ltb n sb.stream_above ≡ false)
          → Goal
      by_size r' d n a h t q (inl small) = again-Delivers bd sb st stk fin room m (tag ∷ b) v r (
          a
          ∙ open_sized-small s tag n r' (ground arith) small
          ∙ take_whole-again bd sb st stk fin room m left (tag ∷ b) v r depth w)
      by_size r' d n a h t q (inr large) =
          let i = take_payload-inverse n r' t in
          large-Delivers m tag (tag ∷ b) d r v (omega (arith, i.1)) (rw i.1 large)
            (a ∙ rw (i.0, i.1) refl) q

      by_chunks :
          (r' d : List ℕ)
          → advance s ≡ stop (emitted (scalar_begin bulk_kind none) (at bd sb st 0 chunk_header r'))
          → bulk d ≡ v
          → Delivers bd sb st stk fin
              (at bd sb st 0 chunk_header r')
              (holding stk fin bulk_kind [])
              (bulk d)
              r
          → Goal
      by_chunks r' d a g (delivers m' k) = rw (sym g) (delivers m' (taking a inner_begin refl k))

      by_read : BulkRead bd tag b v r → Goal
      by_read (streamed hdr r' d q l t g) =
          by_chunks r' d (e ∙ open_scalar-streamed bd sb st m tag b hdr r' q l) g
            (chunks-Delivers bd sb st stk fin room (suc (length r')) [] r' d r (omega arith) t)
      by_read (absent hdr r' q l p' g h) =
          rw (sym g, sym h)
            (again-Delivers bd sb st stk fin room m (tag ∷ b) (null null_bulk) r'
              (e ∙ open_scalar-absent s tag b hdr r' q l p'))
      by_read (sized hdr r' d n q l p' h t g) =
          by_size r' d n (e ∙ open_scalar-sized s tag n b hdr r' q l p') h t g
            (Bool-cases (ltb n sb.stream_above))
