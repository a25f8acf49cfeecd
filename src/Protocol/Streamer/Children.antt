-- ===== src/Protocol/Streamer/Children.antt =====
-- The values of an aggregate that says how many there are (crates/pr-protocol/src/stream.rs), as
-- `repeat` reads them.
use penguin_redis.Prelude.{
  ℕ, zero, suc, ◌+◌, ◌≡◌, refl, sym, ap, ◌∙◌, subst, Option, some, List, [], ◌∷◌, ◌++◌, ok, length,
  append_assoc,
}
use penguin_redis.Protocol.Value.{Value}
use penguin_redis.Protocol.Decoder.{Budget, done, ◌>>=◌, repeat, parse_value}
use penguin_redis.Protocol.Reassembler.{
  AggKind, aggregate_end, Reassembler, deliver, receive, finish_aggregate,
}
use penguin_redis.Protocol.Streamer.{
  StreamBudget, at_value, Pending, Streamer, close_top, close_completed, open_children, advance,
}
use penguin_redis.Protocol.Streamer.Runs.{
  Reaches, here, taking, Reaches-trans, inner_close, inner_aggregate,
}
use penguin_redis.Protocol.Streamer.Inversions.{Came, came, bind-Came, done-fst, done-snd}
use penguin_redis.Protocol.Streamer.Payloads.{at, Frames, built}
use penguin_redis.Protocol.Streamer.Chunks.{Delivers, delivers}

-- What `parse_value` reads with `left` levels to go, the streamer reads as many levels deep.
abbrev pub Child : Budget → StreamBudget → ℕ → Type 0
Child bd sb left =
    (st : List Pending) (stk : Frames) (fin : Option Value) (m : ℕ) (b r : List ℕ) (v : Value)
    → length st + left ≡ bd.max_depth
    → parse_value bd left b ≡ done v r
    → Delivers bd sb st stk fin (at bd sb st m at_value b) (built stk fin) v r

-- The values of an aggregate are read, and its end is queued.
abbrev pub ended : Budget → StreamBudget → List Pending → ℕ → List ℕ → Streamer
ended bd sb st m r = record (at bd sb (close_completed st).1 m at_value r) {
  queued = aggregate_end ∷ (close_completed st).0;
}

pub data Fills (bd : Budget) (sb : StreamBudget) (st : List Pending) (k : AggKind) (stk : Frames)
    (fin : Option Value) (s : Streamer) (q : Reassembler) (vs : List Value) (r : List ℕ)
    : Type 0 where
  fills :
      (m : ℕ)
      → Reaches s q (ended bd sb st m r) (built ((k, vs) ∷ stk) fin)
      → Fills bd sb st k stk fin s q vs r

abbrev pub pend : AggKind → Option ℕ → Pending
pend k n = record { kind = k; remaining = n }

module _ (bd : Budget) (sb : StreamBudget) (st : List Pending) (k : AggKind) (stk : Frames)
    (fin : Option Value) where
  pub end-Delivers :
      (s : Streamer) (q : Reassembler) (vs : List Value) (v : Value) (r : List ℕ)
      → finish_aggregate k vs ≡ ok v
      → Fills bd sb st k stk fin s q vs r
      → Delivers bd sb st stk fin s q v r
  unfolding advance receive
  end-Delivers s q vs v r h (fills m w) =
      delivers m (Reaches-trans w (taking refl inner_close (rw (receive, h) refl) here))

  repeat-Fills :
      (left n : ℕ) (m : ℕ) (items vs : List Value) (b r : List ℕ)
      → Child bd sb left
      → suc (length st) + left ≡ bd.max_depth
      → repeat (parse_value bd left) (suc n) b ≡ done vs r
      → Fills bd sb st k stk fin
          (at bd sb (pend k (some (suc n)) ∷ st) m at_value b)
          (built ((k, items) ∷ stk) fin)
          (items ++ vs)
          r
  unfolding repeat close_completed close_top deliver ◌>>=◌
  repeat-Fills left zero m items vs b r child depth e =
      by_first (bind-Came (parse_value bd left b) _ e)
    where
      by_child :
          (v : Value)
          → v ∷ [] ≡ vs
          → Delivers bd sb
              (pend k (some 1) ∷ st)
              ((k, items) ∷ stk)
              fin
              (at bd sb (pend k (some 1) ∷ st) m at_value b)
              (built ((k, items) ∷ stk) fin)
              v
              r
          → Fills bd sb st k stk fin
              (at bd sb (pend k (some 1) ∷ st) m at_value b)
              (built ((k, items) ∷ stk) fin)
              (items ++ vs)
              r
      by_child v g (delivers m' w) = rw (sym g) (fills m' w)

      by_first :
          Came (parse_value bd left b) (λ v r'. done [] r' >>= λ xs r''. done (v ∷ xs) r'') vs r
          → Fills bd sb st k stk fin
              (at bd sb (pend k (some 1) ∷ st) m at_value b)
              (built ((k, items) ∷ stk) fin)
              (items ++ vs)
              r
      by_first (came v r' l g) = by_child v (done-fst g) (
          child (pend k (some 1) ∷ st) ((k, items) ∷ stk) fin m b r v depth
            (l ∙ ap (done v) (done-snd g)))
  repeat-Fills left (suc n) m items vs b r child depth e =
      by_first (bind-Came (parse_value bd left b) _ e)
        λ m' items' vs' b' e'. repeat-Fills left n m' items' vs' b' r child depth e'
    where
      Goal : List Value → Type 0
      Goal vs' =
          Fills bd sb st k stk fin (at bd sb (pend k (some (suc (suc n))) ∷ st) m at_value b)
            (built ((k, items) ∷ stk) fin) vs' r

      Rest : Type 0
      Rest =
          (m' : ℕ) (items' vs' : List Value) (b' : List ℕ)
          → repeat (parse_value bd left) (suc n) b' ≡ done vs' r
          → Fills bd sb st k stk fin (at bd sb (pend k (some (suc n)) ∷ st) m' at_value b')
              (built ((k, items') ∷ stk) fin) (items' ++ vs') r

      by_rest :
          (m' : ℕ) (items' vs' : List Value) (b' : List ℕ)
          → Reaches
              (at bd sb (pend k (some (suc (suc n))) ∷ st) m at_value b)
              (built ((k, items) ∷ stk) fin)
              (at bd sb (pend k (some (suc n)) ∷ st) m' at_value b')
              (built ((k, items') ∷ stk) fin)
          → Fills bd sb st k stk fin
              (at bd sb (pend k (some (suc n)) ∷ st) m' at_value b')
              (built ((k, items') ∷ stk) fin)
              (items' ++ vs')
              r
          → Goal (items' ++ vs')
      by_rest m' items' vs' b' w (fills m'' w') = fills m'' (Reaches-trans w w')

      by_child :
          (v : Value) (xs : List Value) (b' : List ℕ)
          → v ∷ xs ≡ vs
          → repeat (parse_value bd left) (suc n) b' ≡ done xs r
          → Delivers bd sb
              (pend k (some (suc (suc n))) ∷ st)
              ((k, items) ∷ stk)
              fin
              (at bd sb (pend k (some (suc (suc n))) ∷ st) m at_value b)
              (built ((k, items) ∷ stk) fin)
              v
              b'
          → Rest
          → Goal (items ++ vs)
      by_child v xs b' g e' (delivers m' w) k' =
          subst Goal (append_assoc items (v ∷ []) xs ∙ ap (λ ys. items ++ ys) g)
            (by_rest m' (items ++ v ∷ []) xs b' w (k' m' (items ++ v ∷ []) xs b' e'))

      by_second :
          (v : Value) (b' : List ℕ)
          → parse_value bd left b ≡ done v b'
          → Came (repeat (parse_value bd left) (suc n) b') (λ xs r''. done (v ∷ xs) r'') vs r
          → Rest
          → Goal (items ++ vs)
      by_second v b' l (came xs r'' e' g) k' =
          by_child v xs b' (done-fst g) (e' ∙ ap (done xs) (done-snd g))
            (child (pend k (some (suc (suc n))) ∷ st) ((k, items) ∷ stk) fin m b b' v depth l) k'

      by_first :
          Came
            (parse_value bd left b)
            (λ v b'. repeat (parse_value bd left) (suc n) b' >>= λ xs r''. done (v ∷ xs) r'')
            vs
            r
          → Rest
          → Goal (items ++ vs)
      by_first (came v b' l g) k' =
          by_second v b' l (bind-Came (repeat (parse_value bd left) (suc n) b') _ g) k'

  -- The values of an aggregate, from its opening to its end.
  pub children-Delivers :
      (left n c m : ℕ) (vs : List Value) (v : Value) (b r : List ℕ)
      → Child bd sb left
      → suc (length st) + left ≡ bd.max_depth
      → repeat (parse_value bd left) c b ≡ done vs r
      → finish_aggregate k vs ≡ ok v
      → Delivers bd sb st stk fin
          (open_children (at bd sb st m at_value b) k n c)
          (built stk fin)
          v
          r
  unfolding advance receive open_children repeat
  children-Delivers left n zero m vs v b r child depth e h = rw (sym (done-snd e)) (
      end-Delivers _ _ vs v b h
        (rw (sym (done-fst e)) (fills m (taking refl inner_aggregate refl here))))
  children-Delivers left n (suc c) m vs v b r child depth e h =
      end-Delivers _ _ vs v r h (by_fills (repeat-Fills left c m [] vs b r child depth e))
    where
      by_fills :
          Fills bd sb st k stk fin
            (at bd sb (pend k (some (suc c)) ∷ st) m at_value b)
            (built ((k, []) ∷ stk) fin)
            vs
            r
          → Fills bd sb st k stk fin
              (open_children (at bd sb st m at_value b) k n (suc c))
              (built stk fin)
              vs
              r
      by_fills (fills m' w) = fills m' (taking refl inner_aggregate refl w)
