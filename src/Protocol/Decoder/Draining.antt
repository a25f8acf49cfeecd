-- ===== src/Protocol/Decoder/Draining.antt =====
-- The decoder called until it has no more values, and fed piece by piece.
use penguin_redis.Prelude.{
  ℕ, zero, suc, ◌≤◌, ◌≡◌, refl, sym, ap, Option, none, some, List, [], ◌∷◌, ◌++◌, Result, ok, err,
  length, append_assoc,
}
use penguin_redis.Protocol.Value.{Value}
use penguin_redis.Protocol.Decoder.{
  DecodeError, Parsed, Decoder, Step, value, incomplete, feed, decode, parse_value,
}

-- Where decoding stopped: for want of bytes, or at an error, behind which the stream is not read.
-- `unfinished` is the model's: out of fuel.
pub data Ended : Type 0 where
  waiting : Decoder → Ended
  broken : DecodeError → Ended
  unfinished : Ended

abbrev pub Drained : Type 0
Drained = List Value × Ended

-- One answer of `decode`, and what `k` makes of the decoder behind a value.
unfoldable pub after :
    (Decoder → Drained) → Option (Result {0, 0} DecodeError Step × Decoder) → Drained
after k none = ([], unfinished)
after k (some (ok (value v), d)) = let rest = k d in (v ∷ rest.0, rest.1)
after k (some (ok incomplete, d)) = ([], waiting d)
after k (some (err e, d)) = ([], broken e)

-- `decode`, called until it has no more values.
unfoldable pub drain : ℕ → Decoder → Drained
unfolding after
drain zero d = ([], unfinished)
drain (suc f) d = after (drain f) (decode d)

-- Each value takes a byte, so this many calls are enough.
unfoldable pub settle : Decoder → Drained
unfolding drain
settle d = drain (suc (length d.buf)) d

-- What came out, and what comes out of the decoder that is left waiting.
unfoldable pub onward : Drained → (Decoder → Drained) → Drained
onward (vs, waiting d) k = let rest = k d in (vs ++ rest.0, rest.1)
onward (vs, broken e) k = (vs, broken e)
onward (vs, unfinished) k = (vs, unfinished)

-- The pieces, each fed and then drained.
unfoldable pub feed_all : Decoder → List (List ℕ) → Drained
unfolding onward settle
feed_all d [] = ([], waiting d)
feed_all d (piece ∷ pieces) = onward (settle (feed d piece)) (λ d'. feed_all d' pieces)

abbrev pub concat : List (List ℕ) → List ℕ
concat [] = []
concat (x ∷ xs) = x ++ concat xs

pub onward-onward :
    (x : Drained) (f g : Decoder → Drained) → onward x (λ d. onward (f d) g) ≡ onward (onward x f) g
unfolding onward
onward-onward (vs, broken e) f g = refl
onward-onward (vs, unfinished) f g = refl
onward-onward (vs, waiting d) f g = by_second (f d)
  where
    by_second : (y : Drained) → onward (vs, waiting d) (λ z. onward y g) ≡ onward (vs ++ y.0, y.1) g
    by_second (ws, broken e) = refl
    by_second (ws, unfinished) = refl
    by_second (ws, waiting d') = ap (λ l. (l, (g d').1)) (sym (append_assoc vs ws (g d').0))

pub onward-cons :
    (v : Value) (x : Drained) (k : Decoder → Drained)
    → onward (v ∷ x.0, x.1) k ≡ (v ∷ (onward x k).0, (onward x k).1)
unfolding onward
onward-cons v (vs, waiting d) k = refl
onward-cons v (vs, broken e) k = refl
onward-cons v (vs, unfinished) k = refl

abbrev pub with_buf : Decoder → List ℕ → Decoder
with_buf d b = record d { buf = b }

-- Not more bytes than one frame may have.
abbrev pub FitsFrame : Decoder → List ℕ → Type 0
FitsFrame d b = length b ≤ d.limits.max_frame_bytes

abbrev pub parsed : Decoder → List ℕ → Parsed Value
parsed d b = parse_value d.limits d.limits.max_depth b
