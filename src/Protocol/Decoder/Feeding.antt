-- ===== src/Protocol/Decoder/Feeding.antt =====
-- A stream in pieces against the whole, for crates/pr-protocol/src/decoder.rs.
use penguin_redis.Prelude.{
  ℕ, zero, suc, ◌≤◌, ◌<◌, ◌≡◌, refl, sym, subst, ap, ◌∙◌, false, List, [], ◌∷◌, ◌++◌, ltb, length,
  length-append, append_assoc, append-nil, arith,
}
use penguin_redis.Protocol.Value.{Value}
use penguin_redis.Protocol.Decoder.{Budget, Parsed, Decoder, feed, decode, stepped, parse_value}
use penguin_redis.Protocol.Decoder.Parsers.{Ext, same, refused, open_ended}
use penguin_redis.Protocol.Decoder.Stable.{Hungry-parse_value}
use penguin_redis.Protocol.Decoder.Draining.{
  Drained, after, drain, settle, onward, feed_all, concat, onward-onward, onward-cons, with_buf,
  FitsFrame, parsed,
}

decode-stepped : (d : Decoder) → FitsFrame d d.buf → decode d ≡ stepped d (parsed d d.buf)
unfolding decode
decode-stepped d h =
    let small : ltb d.limits.max_frame_bytes (length d.buf) ≡ false = ground arith in
    rw (decode, small) refl

pub drain-after :
    (f : ℕ) (d : Decoder) (b : List ℕ)
    → FitsFrame d b
    → drain (suc f) (with_buf d b) ≡ after (drain f) (stepped (with_buf d b) (parsed d b))
unfolding drain
drain-after f d b h = ap (after (drain f)) (decode-stepped (with_buf d b) h)

-- Of no bytes at all there is no value.
after-nil :
    (k k' : Decoder → Drained) (d : Decoder) (bd : Budget) (left : ℕ)
    → after k (stepped d (parse_value bd left [])) ≡ after k' (stepped d (parse_value bd left []))
unfolding after stepped parse_value
after-nil k k' d bd zero = refl
after-nil k k' d bd (suc left) = refl

after-same :
    (k k' : Decoder → Drained) (d : Decoder) (n : ℕ) {m : List ℕ} {x y : Parsed Value}
    → Ext n m x y
    → ((r : List ℕ) → length r ≤ n → k (with_buf d r) ≡ k' (with_buf d r))
    → after k (stepped d x) ≡ after k' (stepped d x)
unfolding after stepped
after-same k k' d n refused h = refl
after-same k k' d n open_ended h = refl
after-same k k' d n (same {a} {r} l) h = ap (λ rest. (a ∷ rest.0, rest.1)) (h r l)

-- Any number of calls that is enough gives the same.
drain-fuel :
    (f g : ℕ) (d : Decoder) (b : List ℕ)
    → length b < f
    → length b < g
    → FitsFrame d b
    → drain f (with_buf d b) ≡ drain g (with_buf d b)
drain-fuel zero g d b h k w = absurd (omega arith)
drain-fuel (suc f) zero d b h k w = absurd (omega arith)
drain-fuel (suc f) (suc g) d [] h k w =
    drain-after f d [] w
    ∙ after-nil (drain f) (drain g) (with_buf d []) d.limits d.limits.max_depth
    ∙ sym (drain-after g d [] w)
drain-fuel (suc f) (suc g) d (c ∷ b) h k w =
    drain-after f d (c ∷ b) w
    ∙ after-same (drain f) (drain g) (with_buf d (c ∷ b)) (length b)
        (Hungry-parse_value d.limits d.limits.max_depth c b [])
        (λ r l. drain-fuel f g d r (omega arith) (omega arith) (omega arith))
    ∙ sym (drain-after g d (c ∷ b) w)

-- What is left waiting, with more bytes behind.
abbrev more : List ℕ → Decoder → Drained
more m e = settle (feed e m)

after-more :
    (k k' : Decoder → Drained) (d : Decoder) (b m : List ℕ) (n : ℕ) {x y : Parsed Value}
    → Ext n m x y
    → ((r : List ℕ) → length r ≤ n → onward (k (with_buf d r)) (more m) ≡ k' (with_buf d (r ++ m)))
    → after k' (stepped (with_buf d (b ++ m)) y) ≡ more m (with_buf d b)
    → onward (after k (stepped (with_buf d b) x)) (more m)
      ≡ after k' (stepped (with_buf d (b ++ m)) y)
unfolding after stepped onward feed
after-more k k' d b m n refused h w = refl
after-more k k' d b m n open_ended h w = sym w
after-more k k' d b m n (same {a} {r} l) h w =
    onward-cons a (k (with_buf d r)) (more m) ∙ ap (λ rest. (a ∷ rest.0, rest.1)) (h r l)

after-more_nil :
    (k k' : Decoder → Drained) (d : Decoder) (m : List ℕ) (bd : Budget) (left : ℕ)
    → after k' (stepped (with_buf d m) (parse_value bd left m)) ≡ more m (with_buf d [])
    → onward (after k (stepped (with_buf d []) (parse_value bd left []))) (more m)
      ≡ after k' (stepped (with_buf d m) (parse_value bd left m))
unfolding parse_value after stepped onward feed
after-more_nil k k' d m bd zero w = refl
after-more_nil k k' d m bd (suc left) w = sym w

settled :
    (g : ℕ) (d : Decoder) (b m : List ℕ)
    → length (b ++ m) < suc g
    → FitsFrame d (b ++ m)
    → after (drain g) (stepped (with_buf d (b ++ m)) (parsed d (b ++ m))) ≡ more m (with_buf d b)
unfolding feed settle
settled g d b m h w =
    sym (drain-after g d (b ++ m) w)
    ∙ drain-fuel (suc g) (suc (length (b ++ m))) d (b ++ m) h (omega arith) w

-- Draining and then going on with more bytes, against draining all of them.
drain-more :
    (f g : ℕ) (d : Decoder) (b m : List ℕ)
    → length b < f
    → length (b ++ m) < g
    → FitsFrame d (b ++ m)
    → onward (drain f (with_buf d b)) (more m) ≡ drain g (with_buf d (b ++ m))
drain-more zero g d b m h k w = absurd (omega arith)
drain-more (suc f) zero d b m h k w = absurd (omega arith)
drain-more (suc f) (suc g) d [] m h k w =
    ap (λ x. onward x (more m)) (drain-after f d [] (omega arith))
    ∙ after-more_nil (drain f) (drain g) d m d.limits d.limits.max_depth (settled g d [] m k w)
    ∙ sym (drain-after g d m w)
drain-more (suc f) (suc g) d (c ∷ b) m h k w =
    ap (λ x. onward x (more m)) (drain-after f d (c ∷ b) (omega (arith, length-append b m)))
    ∙ after-more (drain f) (drain g) d (c ∷ b) m (length b)
        (Hungry-parse_value d.limits d.limits.max_depth c b m)
        (λ r l.
          drain-more f g d r m (omega arith) (omega (arith, length-append r m, length-append b m))
            (omega (arith, length-append r m, length-append b m)))
        (settled g d (c ∷ b) m k w)
    ∙ sym (drain-after g d (c ∷ (b ++ m)) w)

settle-two :
    (d : Decoder) (p q : List ℕ)
    → FitsFrame d (d.buf ++ (p ++ q))
    → onward (settle (feed d p)) (more q) ≡ settle (feed d (p ++ q))
unfolding settle feed
settle-two d p q w =
    drain-more (suc (length (d.buf ++ p))) (suc (length ((d.buf ++ p) ++ q))) d (d.buf ++ p) q
      (omega arith) (omega arith) (subst (FitsFrame d) (sym (append_assoc d.buf p q)) w)
    ∙ ap (λ b. drain (suc (length b)) (with_buf d b)) (append_assoc d.buf p q)

-- Two pieces, fed one after the other, or as one.
feed_all-two :
    (d : Decoder) (p q : List ℕ) (pieces : List (List ℕ))
    → FitsFrame d (d.buf ++ (p ++ q))
    → feed_all d (p ∷ q ∷ pieces) ≡ feed_all d ((p ++ q) ∷ pieces)
unfolding feed_all
feed_all-two d p q pieces w =
    onward-onward (settle (feed d p)) (more q) (λ e. feed_all e pieces)
    ∙ ap (λ x. onward x (λ e. feed_all e pieces)) (settle-two d p q w)

-- However a stream is cut into pieces, feeding them one by one and draining after each gives the
-- same values in the same order, the same error, and the same decoder in the end, as feeding the
-- whole stream at once, when all of it fits the limit for one frame.
pub feed_all-concat :
    (d : Decoder) (piece : List ℕ) (pieces : List (List ℕ))
    → FitsFrame d (d.buf ++ (piece ++ concat pieces))
    → feed_all d (piece ∷ pieces) ≡ feed_all d ((piece ++ concat pieces) ∷ [])
feed_all-concat d piece [] w = ap (λ b. feed_all d (b ∷ [])) (sym (append-nil piece))
feed_all-concat d piece (q ∷ pieces) w =
    feed_all-two d piece q pieces (omega (arith, length-append d.buf (piece ++ q), lengths, w))
    ∙ feed_all-concat d (piece ++ q) pieces
        (subst (λ b. FitsFrame d (d.buf ++ b)) (sym (append_assoc piece q (concat pieces))) w)
    ∙ ap (λ b. feed_all d (b ∷ [])) (append_assoc piece q (concat pieces))
  where
    lengths : length (d.buf ++ (piece ++ q)) ≤ length (d.buf ++ (piece ++ (q ++ concat pieces)))
    lengths = omega (
      arith,
      length-append d.buf (piece ++ q),
      length-append piece q,
      length-append d.buf (piece ++ (q ++ concat pieces)),
      length-append piece (q ++ concat pieces),
      length-append q (concat pieces),
    )
