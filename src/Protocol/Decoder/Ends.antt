-- ===== src/Protocol/Decoder/Ends.antt =====
-- How draining a decoder (crates/pr-protocol/src/decoder.rs) stops.
use penguin_redis.Prelude.{
  ℕ, zero, suc, ◌≤◌, ◌<◌, ◌≡◌, sym, subst, inl, inr, true, List, [], ◌∷◌, ltb, length, arith,
  Bool-cases,
}
use penguin_redis.Protocol.Value.{Value}
use penguin_redis.Protocol.Decoder.{Budget, Parsed, Decoder, decode, stepped, parse_value}
use penguin_redis.Protocol.Decoder.Parsers.{Ext, same, refused, open_ended}
use penguin_redis.Protocol.Decoder.Stable.{Hungry-parse_value}
use penguin_redis.Protocol.Decoder.Draining.{
  Ended, waiting, broken, unfinished, Drained, after, drain, settle, with_buf, FitsFrame, parsed,
}
use penguin_redis.Protocol.Decoder.Feeding.{drain-after}

abbrev pub Ends : Ended → Type 0
Ends (waiting d) = Unit
Ends (broken e) = Unit
Ends unfinished = ⊥

after-Ends :
    (k : Decoder → Drained) (d : Decoder) (n : ℕ) {m : List ℕ} {x y : Parsed Value}
    → Ext n m x y
    → ((r : List ℕ) → length r ≤ n → Ends (k (with_buf d r)).1)
    → Ends (after k (stepped d x)).1
unfolding after stepped
after-Ends k d n refused h = tt
after-Ends k d n open_ended h = tt
after-Ends k d n (same {a} {r} l) h = h r l

after-Ends_nil :
    (k : Decoder → Drained) (d : Decoder) (bd : Budget) (left : ℕ)
    → Ends (after k (stepped d (parse_value bd left []))).1
unfolding after stepped parse_value
after-Ends_nil k d bd zero = tt
after-Ends_nil k d bd (suc left) = tt

over-Ends :
    (k : Decoder → Drained) (d : Decoder)
    → ltb d.limits.max_frame_bytes (length d.buf) ≡ true
    → Ends (after k (decode d)).1
unfolding after decode
over-Ends k d h = rw (decode, h) tt

-- One call more, when what is left is drained to an end.
step-Ends :
    (f : ℕ) (d : Decoder) (b : List ℕ)
    → (FitsFrame d b → Ends (after (drain f) (stepped (with_buf d b) (parsed d b))).1)
    → Ends (drain (suc f) (with_buf d b)).1
unfolding drain
step-Ends f d b h = elim (Bool-cases (ltb d.limits.max_frame_bytes (length b))) [
  | inl over ↦ over-Ends (drain f) (with_buf d b) over
  | inr within ↦
      let fits : FitsFrame d b = ground arith in
      subst (λ x. Ends x.1) (sym (drain-after f d b fits)) (h fits)
]

drain-Ends : (f : ℕ) (d : Decoder) (b : List ℕ) → length b < f → Ends (drain f (with_buf d b)).1
drain-Ends zero d b h = absurd (omega arith)
drain-Ends (suc f) d [] h =
    step-Ends f d [] (λ w. after-Ends_nil (drain f) (with_buf d []) d.limits d.limits.max_depth)
drain-Ends (suc f) d (c ∷ b) h = step-Ends f d (c ∷ b) λ w.
    after-Ends (drain f) (with_buf d (c ∷ b)) (length b)
      (Hungry-parse_value d.limits d.limits.max_depth c b [])
      (λ r l. drain-Ends f d r (omega arith))

-- Draining a decoder, whatever bytes it holds, comes to an end within one call more than there are
-- bytes: with the decoder waiting for more bytes, or with an error.
pub settle-Ends : (d : Decoder) → Ends (settle d).1
unfolding settle
settle-Ends d = drain-Ends (suc (length d.buf)) d d.buf (omega arith)
