-- ===== src/Protocol/Streamer/Agrees.antt =====
-- The streamer (crates/pr-protocol/src/stream.rs) and the decoder (crates/pr-protocol/src/decoder.rs)
-- on the same bytes.
use penguin_redis.Prelude.{
  ℕ, zero, suc, ◌+◌, ◌*◌, ◌≡◌, refl, ap, ◌∙◌, Bool, true, false, ◌||◌, Option, none, some, List, [],
  ◌∷◌, Result, ok, err, ltb, ◌==◌, if◌then◌else◌, length, arith,
}
use penguin_redis.Protocol.Value.{Value, map_of, to_pairs}
use penguin_redis.Protocol.Decoder.{
  Budget, DecodeError, budget, Decoder, Step, value, incomplete, new, feed, decode, stepped,
  need_more, out_of_fuel, failed, Parsed, done, pair, parse_value,
}
use penguin_redis.Protocol.Reassembler.{map_kind, deliver, empty}
use penguin_redis.Protocol.Streamer.{
  StreamBudget, at_value, Pending, Streamer, kind_of, open_aggregate, open_scalar, take_whole,
  next_value, by_state, advance, decode_by_streaming, decode_by_value, start, feed_stream,
  stream_loop, work, close_completed,
}
use penguin_redis.Protocol.Streamer.Runs.{stream_loop-Reaches}
use penguin_redis.Protocol.Streamer.Payloads.{at, Frames, built}
use penguin_redis.Protocol.Streamer.Chunks.{
  Roomy, Delivers, delivers, take_whole-again, again-Delivers,
}
use penguin_redis.Protocol.Streamer.Scalars.{scalar-Delivers}
use penguin_redis.Protocol.Streamer.Children.{Child}
use penguin_redis.Protocol.Streamer.Terminated.{value-Elements, pair-Elements}
use penguin_redis.Protocol.Streamer.Pairs.{both, one, flatten-one, finish-map, repeat-flatten}
use penguin_redis.Protocol.Streamer.Aggregates.{counted-Delivers, attribute-Delivers, children-map}
use penguin_redis.Protocol.Streamer.Tags.{
  Tagged, as_scalar, as_values, as_map, as_attribute, as_plain, parse_tagged-Tagged,
}

module _ (s : Streamer) (tag : ℕ) (b : List ℕ) (dot : (tag == b'.') ≡ false) where
  next_value-aggregate :
      (tag == b'*' || tag == b'~' || tag == b'>' || tag == b'%' || tag == b'|') ≡ true
      → next_value s (tag ∷ b) ≡ open_aggregate s (kind_of tag) b
  unfolding next_value
  next_value-aggregate h = rw (next_value, dot, h) refl

  next_value-scalar :
      (tag == b'*' || tag == b'~' || tag == b'>' || tag == b'%' || tag == b'|') ≡ false
      → (tag == b'$' || tag == b'!' || tag == b'=') ≡ true
      → next_value s (tag ∷ b) ≡ open_scalar s tag b
  unfolding next_value
  next_value-scalar h k = rw (next_value, dot, h, k) refl

  next_value-plain :
      (tag == b'*' || tag == b'~' || tag == b'>' || tag == b'%' || tag == b'|') ≡ false
      → (tag == b'$' || tag == b'!' || tag == b'=') ≡ false
      → next_value s (tag ∷ b) ≡ take_whole s
  unfolding next_value
  next_value-plain h k = rw (next_value, dot, h, k) refl

module _ (bd : Budget) (sb : StreamBudget) (room : Roomy bd sb) where
  -- A value, if the values in it are read.
  next_value-Delivers :
      (left : ℕ) (st : List Pending) (stk : Frames) (fin : Option Value) (m tag : ℕ) (b r : List ℕ)
      (v : Value)
      → Child bd sb left
      → length st + suc left ≡ bd.max_depth
      → parse_value bd (suc left) (tag ∷ b) ≡ done v r
      → Tagged bd (parse_value bd left) tag b v r
      → Delivers bd sb st stk fin (at bd sb st m at_value (tag ∷ b)) (built stk fin) v r
  unfolding advance by_state
  next_value-Delivers left st stk fin m tag b r v child depth e (as_scalar d h k g) =
      scalar-Delivers bd sb st stk fin room m (suc left) tag b r v (omega arith)
        (next_value-scalar (at bd sb st m at_value (tag ∷ b)) tag b d h k) e g
  next_value-Delivers left st stk fin m tag b r v child depth e (as_plain d h k) =
      again-Delivers bd sb st stk fin room m (tag ∷ b) v r (
        next_value-plain (at bd sb st m at_value (tag ∷ b)) tag b d h k
        ∙ take_whole-again bd sb st stk fin room m (suc left) (tag ∷ b) v r (omega arith) e)
  next_value-Delivers left st stk fin m tag b r v child depth e (as_attribute d h k g) =
      attribute-Delivers bd sb st stk fin room left m tag b r v child (omega arith)
        (next_value-aggregate (at bd sb st m at_value (tag ∷ b)) tag b d h
          ∙ ap (λ x. open_aggregate (at bd sb st m at_value (tag ∷ b)) x b) k)
        g
  next_value-Delivers left st stk fin m tag b r v child depth e (as_map d h k g) =
      counted-Delivers bd sb st stk fin room map_kind (pair (parse_value bd left)) left m both
        (λ kvs. map_of (to_pairs kvs)) tag b r v
        (record {
          plain = refl;
          grow =
              pair-Elements bd sb st map_kind stk fin (parse_value bd left)
                (value-Elements bd sb st map_kind stk fin left child (omega arith));
          count = λ n. n * 2;
          children = λ n l. children-map bd sb n room l;
          in_row = λ n xs b' r' u. repeat-flatten (parse_value bd left) n xs b' r' u;
          finish = finish-map;
        })
        child (omega arith)
        (next_value-aggregate (at bd sb st m at_value (tag ∷ b)) tag b d h
          ∙ ap (λ x. open_aggregate (at bd sb st m at_value (tag ∷ b)) x b) k)
        g
  next_value-Delivers left st stk fin m tag b r v child depth e (as_values k build d h i a c f g) =
      counted-Delivers bd sb st stk fin room k (parse_value bd left) left m one build tag b r v
        (record {
          plain = a;
          grow = value-Elements bd sb st k stk fin left child (omega arith);
          count = λ n. n;
          children = λ n l. c n;
          in_row = λ n xs b' r' u. rw (flatten-one xs) u;
          finish = λ vs. rw (flatten-one vs) (f vs);
        })
        child (omega arith)
        (next_value-aggregate (at bd sb st m at_value (tag ∷ b)) tag b d h
          ∙ ap (λ x. open_aggregate (at bd sb st m at_value (tag ∷ b)) x b) i)
        g

  -- What `parse_value` reads, the streamer reads.
  value-Delivers : (left : ℕ) → Child bd sb left
  unfolding parse_value
  value-Delivers zero st stk fin m b r v depth e = absurd cc
  value-Delivers (suc left) st stk fin m [] r v depth e = absurd cc
  value-Delivers (suc left) st stk fin m (tag ∷ b) r v depth e =
      next_value-Delivers left st stk fin m tag b r v (value-Delivers left) depth e
        (parse_tagged-Tagged bd (parse_value bd left) b v r tag e)

-- The value decoder's answer, when it is a value.
decode_by_value-parsed :
    (b : List ℕ) (bd : Budget) (v : Value)
    → decode_by_value b bd ≡ some (ok (some v))
    → (r : List ℕ) × (parse_value bd bd.max_depth b ≡ done v r)
unfolding decode_by_value decode feed new
decode_by_value-parsed b bd v e = by_frame (ltb bd.max_frame_bytes (length b)) e
  where
    d : Decoder
    d = record { buf = b; limits = bd }

    Answer :
        Option (Result {0, 0} DecodeError Step × Decoder)
        → Option (Result {0, 0} DecodeError (Option Value))
    Answer x = elim x [
      | none ↦ none
      | some (ok (value w), d') ↦ some (ok (some w))
      | some (ok incomplete, d') ↦ some (ok none)
      | some (err e', d') ↦ some (err e')
    ]

    by_parsed :
        (x : Parsed Value)
        → Answer (stepped d x) ≡ some (ok (some v))
        → (r : List ℕ) × (x ≡ done v r)
    by_parsed (done w r) g = (r, cc)
    by_parsed need_more g = absurd cc
    by_parsed out_of_fuel g = absurd cc
    by_parsed (failed e') g = absurd cc

    by_frame :
        (c : Bool)
        → Answer (if c then some (err budget, d) else stepped d (parse_value bd bd.max_depth b))
          ≡ some (ok (some v))
        → (r : List ℕ) × (parse_value bd bd.max_depth b ≡ done v r)
    by_frame true g = absurd cc
    by_frame false g = by_parsed (parse_value bd bd.max_depth b) g

-- When the value decoder makes a value of some bytes, so does the streaming decoder, and it is the
-- same value: whatever the size from which it streams, if its byte limit is no less than the value
-- decoder's, and a 64-bit count holds that limit and twice the limit on elements, and one.
pub decode_by_streaming-value :
    (b : List ℕ) (bd : Budget) (sb : StreamBudget) (v : Value)
    → Roomy bd sb
    → decode_by_value b bd ≡ some (ok (some v))
    → decode_by_streaming b bd sb ≡ some (ok (some v))
unfolding decode_by_streaming start feed_stream deliver advance close_completed
decode_by_streaming-value b bd sb v room e = by_parsed (decode_by_value-parsed b bd v e)
  where
    s : Streamer
    s = at bd sb [] 0 at_value b

    by_run :
        (r : List ℕ)
        → Delivers bd sb [] [] none s (built [] none) v r
        → stream_loop (suc (work s)) s empty ≡ some (ok (some v))
    by_run r (delivers m w) = stream_loop-Reaches (suc (work s)) (omega arith) w refl

    by_parsed :
        (r : List ℕ) × (parse_value bd bd.max_depth b ≡ done v r)
        → stream_loop (suc (work s)) s empty ≡ some (ok (some v))
    by_parsed p =
        by_run p.0 (value-Delivers bd sb room bd.max_depth [] [] none 0 b p.0 v (omega arith) p.1)
