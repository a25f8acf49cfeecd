-- ===== src/Protocol/Streamer/Runs.antt =====
-- The loops of `step` and `decode_by_streaming` (crates/pr-protocol/src/stream.rs), and their fuel.
use penguin_redis.Prelude.{
  ℕ, zero, suc, ◌<◌, ◌≡◌, refl, ap, ◌∙◌, subst, true, Option, some, List, Result, ok, err, arith,
  is_some,
}
use penguin_redis.Protocol.Value.{Value}
use penguin_redis.Protocol.Decoder.{Budget, DecodeError}
use penguin_redis.Protocol.Reassembler.{
  Event, whole, scalar_begin, scalar_chunk, scalar_end, aggregate_end, frame_end, aggregate_begin,
  Reassembler, empty, receive,
}
use penguin_redis.Protocol.Streamer.{
  StreamBudget, Streamer, Outcome, emitted, starved, exhausted, broken, Move, again, stop, advance,
  work, step_loop, step, consume, stream_loop, decode_by_streaming, start, feed_stream,
}
use penguin_redis.Protocol.Streamer.Work.{Less, on, out, waits, breaks}
use penguin_redis.Protocol.Streamer.Progress.{advance-Less}

-- An answer of `step`, with less work behind it than `w`.
pub data Answer (w : ℕ) : Outcome → Type 0 where
  answered : {e : Event} {s : Streamer} → work s < w → Answer w (emitted e s)
  no_more : {s : Streamer} → Answer w (starved s)
  refused : {d : DecodeError} → Answer w (broken d)

Answer-weaken : {v w : ℕ} {o : Outcome} → v < w → Answer v o → Answer w o
Answer-weaken h (answered l) = answered (omega arith)
Answer-weaken h no_more = no_more
Answer-weaken h refused = refused

-- With fuel enough `step` answers.
pub step_loop-Answer : (f : ℕ) (s : Streamer) → work s < f → Answer (work s) (step_loop f s)
unfolding step_loop
step_loop-Answer zero s h = absurd (omega arith)
step_loop-Answer (suc f) s h =
    by_move (advance s) (advance-Less s) λ s' l. step_loop-Answer f s' (omega arith)
  where
    by_move :
        (m : Move)
        → Less (work s) m
        → ((s' : Streamer) → work s' < work s → Answer (work s') (step_loop f s'))
        → Answer (work s) (elim m [ again s' ↦ step_loop f s' | stop o ↦ o ])
    by_move (again s') (on l) k = Answer-weaken l (k s' l)
    by_move (stop (emitted e s')) (out l) k = answered l
    by_move (stop (starved s')) waits k = no_more
    by_move (stop exhausted) l k = elim l [ ]
    by_move (stop (broken d)) breaks k = refused

-- More fuel than enough changes nothing.
step_loop-fuel : (f g : ℕ) (s : Streamer) → work s < f → work s < g → step_loop f s ≡ step_loop g s
unfolding step_loop
step_loop-fuel zero g s h k = absurd (omega arith)
step_loop-fuel (suc f) zero s h k = absurd (omega arith)
step_loop-fuel (suc f) (suc g) s h k =
    by_move (advance s) (advance-Less s) λ s' l. step_loop-fuel f g s' (omega arith) (omega arith)
  where
    by_move :
        (m : Move)
        → Less (work s) m
        → ((s' : Streamer) → work s' < work s → step_loop f s' ≡ step_loop g s')
        → elim m [ again s' ↦ step_loop f s' | stop o ↦ o ]
          ≡ elim m [ again s' ↦ step_loop g s' | stop o ↦ o ]
    by_move (again s') (on l) k = k s' l
    by_move (stop o) l k = refl

again-less : {w : ℕ} {s : Streamer} → Less w (again s) → work s < w
again-less (on l) = l

emitted-less : {w : ℕ} {e : Event} {s : Streamer} → Less w (stop (emitted e s)) → work s < w
emitted-less (out l) = l

again-work : (s s' : Streamer) → advance s ≡ again s' → work s' < work s
again-work s s' e = again-less (subst (Less (work s)) e (advance-Less s))

emitted-work : (s s' : Streamer) (e : Event) → advance s ≡ stop (emitted e s') → work s' < work s
emitted-work s s' e h = emitted-less (subst (Less (work s)) h (advance-Less s))

step-move :
    (s : Streamer) (m : Move)
    → advance s ≡ m
    → step s ≡ elim m [ again s' ↦ step_loop (work s) s' | stop o ↦ o ]
unfolding step step_loop
step-move s m e = ap (λ m'. elim m' [ again s' ↦ step_loop (work s) s' | stop o ↦ o ]) e

step-again : (s s' : Streamer) → advance s ≡ again s' → step s ≡ step s'
unfolding step
step-again s s' e =
    step-move s (again s') e
    ∙ step_loop-fuel (work s) (suc (work s')) s' (again-work s s' e) (omega arith)

step-stop : (s : Streamer) (o : Outcome) → advance s ≡ stop o → step s ≡ o
step-stop s o e = step-move s (stop o) e

-- An event that does not end the frame.
pub data Inner : Event → Type 0 where
  inner_whole : {v : Value} → Inner (whole v)
  inner_begin : {k : _} {n : Option ℕ} → Inner (scalar_begin k n)
  inner_chunk : {b : _} → Inner (scalar_chunk b)
  inner_end : Inner scalar_end
  inner_aggregate : {k : _} {n : Option ℕ} → Inner (aggregate_begin k n)
  inner_close : Inner aggregate_end

abbrev Going : Type 0
Going = Streamer → Reassembler → Option (Result {0, 0} DecodeError (Option Value))

abbrev onward :
    Going
    → Streamer
    → Result {0, 0} DecodeError Reassembler
    → Option (Result {0, 0} DecodeError (Option Value))
onward k s (ok q) = k s q
onward k s (err d) = some (err d)

consume-Inner :
    (k : Going) (q q' : Reassembler) (e : Event) (s : Streamer)
    → Inner e
    → receive e q ≡ ok q'
    → consume k q (emitted e s) ≡ k s q'
unfolding consume
consume-Inner k q q' _ s inner_whole h = ap (onward k s) h
consume-Inner k q q' _ s inner_begin h = ap (onward k s) h
consume-Inner k q q' _ s inner_chunk h = ap (onward k s) h
consume-Inner k q q' _ s inner_end h = ap (onward k s) h
consume-Inner k q q' _ s inner_aggregate h = ap (onward k s) h
consume-Inner k q q' _ s inner_close h = ap (onward k s) h

-- From a streamer, and what is put together so far, to others: by moves, and by events that are
-- taken in.
pub data Reaches : Streamer → Reassembler → Streamer → Reassembler → Type 0 where
  here : {s : Streamer} {q : Reassembler} → Reaches s q s q
  moving :
      {s s' t : Streamer} {q p : Reassembler}
      → advance s ≡ again s'
      → Reaches s' q t p
      → Reaches s q t p
  taking :
      {s s' t : Streamer} {q q' p : Reassembler} {e : Event}
      → advance s ≡ stop (emitted e s')
      → Inner e
      → receive e q ≡ ok q'
      → Reaches s' q' t p
      → Reaches s q t p

pub Reaches-trans :
    {s t u : Streamer} {q p r : Reassembler} → Reaches s q t p → Reaches t p u r → Reaches s q u r
Reaches-trans here k = k
Reaches-trans (moving e h) k = moving e (Reaches-trans h k)
Reaches-trans (taking e i g h) k = taking e i g (Reaches-trans h k)

-- A run that reaches the end of the frame is the answer, with any fuel that is enough.
pub stream_loop-Reaches :
    (f : ℕ) {s t t' : Streamer} {q p : Reassembler}
    → work s < f
    → Reaches s q t p
    → advance t ≡ stop (emitted frame_end t')
    → stream_loop f s q ≡ some (ok p.finished)
unfolding stream_loop consume
stream_loop-Reaches zero h r e = absurd (omega arith)
stream_loop-Reaches (suc f) {s} {t} {t'} {q} {p} h here e =
    ap (consume (stream_loop f) q) (step-stop s _ e)
stream_loop-Reaches (suc f) {s} {t} {t'} {q} {p} h (moving {s' = s'} m r) e =
    ap (consume (stream_loop f) q) (step-again s s' m)
    ∙ stream_loop-Reaches (suc f) (omega (arith, again-work s s' m)) r e
stream_loop-Reaches (suc f) {s} {t} {t'} {q} {p} h (taking {s' = s'} {q' = q'} {e = e'} m i g r) e =
    ap (consume (stream_loop f) q) (step-stop s _ m)
    ∙ consume-Inner (stream_loop f) q q' e' s' i g
    ∙ stream_loop-Reaches f (omega (arith, emitted-work s s' e' m)) r e

stream_loop-some :
    (f : ℕ) (s : Streamer) (q : Reassembler) → work s < f → is_some (stream_loop f s q) ≡ true
unfolding stream_loop consume is_some step
stream_loop-some zero s q h = absurd (omega arith)
stream_loop-some (suc f) s q h =
    by_outcome (step s) (step_loop-Answer (suc (work s)) s (omega arith))
      λ s' q' l. stream_loop-some f s' q' (omega arith)
  where
    Rest : Type 0
    Rest =
        (s' : Streamer) (q' : Reassembler) → work s' < work s → is_some (stream_loop f s' q') ≡ true

    by_received :
        (s' : Streamer) (x : Result {0, 0} DecodeError Reassembler)
        → work s' < work s
        → Rest
        → is_some (onward (stream_loop f) s' x) ≡ true
    by_received s' (ok q') l k = k s' q' l
    by_received s' (err d) l k = refl

    by_outcome :
        (o : Outcome) → Answer (work s) o → Rest → is_some (consume (stream_loop f) q o) ≡ true
    by_outcome (starved s') l k = refl
    by_outcome exhausted l k = elim l [ ]
    by_outcome (broken d) l k = refl
    by_outcome (emitted frame_end s') l k = refl
    by_outcome (emitted (whole v) s') (answered l) k = by_received s' (receive (whole v) q) l k
    by_outcome (emitted (scalar_begin c n) s') (answered l) k =
        by_received s' (receive (scalar_begin c n) q) l k
    by_outcome (emitted (scalar_chunk b) s') (answered l) k =
        by_received s' (receive (scalar_chunk b) q) l k
    by_outcome (emitted scalar_end s') (answered l) k = by_received s' (receive scalar_end q) l k
    by_outcome (emitted aggregate_end s') (answered l) k =
        by_received s' (receive aggregate_end q) l k
    by_outcome (emitted (aggregate_begin c n) s') (answered l) k =
        by_received s' (receive (aggregate_begin c n) q) l k

-- Decoding by streaming comes to an end, whatever the bytes, the budget and the stream budget: with
-- a value, with the word that the frame is not whole, or with an error.
pub decode_by_streaming-answers :
    (bytes : List ℕ) (bd : Budget) (st : StreamBudget)
    → is_some (decode_by_streaming bytes bd st) ≡ true
unfolding decode_by_streaming
decode_by_streaming-answers bytes bd st =
    let s = feed_stream (start bd st) bytes in stream_loop-some (suc (work s)) s empty (omega arith)
