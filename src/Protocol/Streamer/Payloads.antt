-- ===== src/Protocol/Streamer/Payloads.antt =====
-- The payload of a scalar that is streamed (crates/pr-protocol/src/stream.rs).
use penguin_redis.Prelude.{
  ℕ, suc, ◌-◌, min, ◌≡◌, refl, sym, ◌∙◌, subst, Bool, true, false, Option, none, some, List, [],
  ◌∷◌, ◌++◌, ◌==◌, length, arith, append-nil, length-append, take-length_append, drop-length_append,
}
use penguin_redis.Protocol.Value.{Value}
use penguin_redis.Protocol.Decoder.{Budget, done, take_payload}
use penguin_redis.Protocol.Reassembler.{
  AggKind, scalar_chunk, scalar_end, whole, Reassembler, ScalarKind, scalar_value, deliver, receive,
}
use penguin_redis.Protocol.Streamer.{
  StreamBudget, State, at_value, Pending, Streamer, emitted, stop, left_over, emit_chunk,
  continue_payload, close_payload, by_state, advance, finish_value, close_completed,
}
use penguin_redis.Protocol.Streamer.Runs.{
  Reaches, here, moving, taking, Reaches-trans, inner_chunk, inner_end, inner_whole,
}
use penguin_redis.Protocol.Streamer.Inversions.{take_payload-inverse}

-- A streamer with no event queued.
abbrev pub at : Budget → StreamBudget → List Pending → ℕ → State → List ℕ → Streamer
at bd sb st m x b = record {
  buf = b;
  limits = bd;
  stream = sb;
  stack = st;
  state = x;
  queued = [];
  streamed_so_far = m;
}

-- The same, where the value that was read is the last of some of the aggregates around it.
abbrev pub closed : Budget → StreamBudget → List Pending → ℕ → List ℕ → Streamer
closed bd sb st m b = record (at bd sb (close_completed st).1 m at_value b) {
  queued = (close_completed st).0;
}

abbrev pub Frames : Type 0
Frames = List (AggKind × List Value)

abbrev pub built : Frames → Option Value → Reassembler
built stk fin = record { stack = stk; scalar = none; finished = fin }

abbrev pub holding : Frames → Option Value → ScalarKind → List ℕ → Reassembler
holding stk fin k s = record { stack = stk; scalar = some (k, s); finished = fin }

continue_payload-exact :
    (streamed : Bool) (s : Streamer) (c : ℕ) (d rest : List ℕ)
    → s.buf ≡ c ∷ (d ++ rest)
    → continue_payload streamed (suc (length d)) s
      ≡ stop
          (emitted (scalar_chunk (c ∷ d)) (record s { buf = rest; state = left_over streamed 0 }))
unfolding continue_payload emit_chunk
continue_payload-exact streamed s c d rest e =
    let within : (suc (length d) == 0) ≡ false = ground arith in
    let all : min (suc (length d)) (suc (length (d ++ rest))) ≡ suc (length d) =
      omega (arith, length-append d rest) in
    let nothing : suc (length d) - suc (length d) ≡ 0 = omega arith in
    rw (within, e, all, take-length_append d rest, drop-length_append d rest, nothing) refl

by_state-left_over :
    (streamed : Bool) (n : ℕ) (s : Streamer)
    → by_state (left_over streamed n) s ≡ continue_payload streamed n s
unfolding by_state left_over
by_state-left_over true n s = refl
by_state-left_over false n s = refl

module _ (bd : Budget) (sb : StreamBudget) (st : List Pending) (m : ℕ) (stk : Frames)
    (fin : Option Value) (k : ScalarKind) where
  payload-Reaches_exact :
      (streamed : Bool) (out d r : List ℕ)
      → Reaches
          (at bd sb st m (left_over streamed (length d)) (d ++ r))
          (holding stk fin k out)
          (at bd sb st m (left_over streamed 0) r)
          (holding stk fin k (out ++ d))
  unfolding advance continue_payload receive
  payload-Reaches_exact streamed out [] r =
      subst
        (λ o.
          Reaches (at bd sb st m (left_over streamed 0) r) (holding stk fin k out)
            (at bd sb st m (left_over streamed 0) r) (holding stk fin k o))
        (sym (append-nil out)) here
  payload-Reaches_exact streamed out (c ∷ d) r =
      taking
        (by_state-left_over streamed (suc (length d))
            (at bd sb st m (left_over streamed (suc (length d))) (c ∷ (d ++ r)))
          ∙ continue_payload-exact streamed
              (at bd sb st m (left_over streamed (suc (length d))) (c ∷ (d ++ r))) c d r refl)
        inner_chunk refl here

  -- The payload of a scalar, all of it in the buffer, and what follows it.
  pub payload-Reaches :
      (streamed : Bool) (n : ℕ) (out b d r : List ℕ)
      → take_payload n b ≡ done d r
      → Reaches
          (at bd sb st m (left_over streamed n) b)
          (holding stk fin k out)
          (at bd sb st m (left_over streamed 0) (13 ∷ 10 ∷ r))
          (holding stk fin k (out ++ d))
  payload-Reaches streamed n out b d r h =
      let q = take_payload-inverse n b h in
      rw (q.0, sym q.1) (payload-Reaches_exact streamed out d (13 ∷ 10 ∷ r))

  pub scalar_end-Reaches :
      (out r : List ℕ)
      → Reaches
          (finish_value (at bd sb st m at_value r) scalar_end)
          (holding stk fin k out)
          (closed bd sb st m r)
          (deliver (scalar_value k out) (built stk fin))
  unfolding advance finish_value receive
  scalar_end-Reaches out r = taking refl inner_end refl here

  -- The payload of a scalar whose length was known, to its end.
  pub sized-Reaches_exact :
      (d r : List ℕ)
      → Reaches
          (at bd sb st m (left_over false (length d)) (d ++ (13 ∷ 10 ∷ r)))
          (holding stk fin k [])
          (closed bd sb st m r)
          (deliver (scalar_value k d) (built stk fin))
  unfolding advance continue_payload close_payload by_state left_over
  sized-Reaches_exact d r =
      Reaches-trans (payload-Reaches_exact false [] d (13 ∷ 10 ∷ r))
        (moving refl (scalar_end-Reaches d r))

pub whole-Reaches :
    (bd : Budget) (sb : StreamBudget) (st : List Pending) (m : ℕ) (stk : Frames)
    (fin : Option Value) (v : Value) (r : List ℕ)
    → Reaches
        (finish_value (at bd sb st m at_value r) (whole v))
        (built stk fin)
        (closed bd sb st m r)
        (deliver v (built stk fin))
unfolding advance finish_value receive
whole-Reaches bd sb st m stk fin v r = taking refl inner_whole refl here
