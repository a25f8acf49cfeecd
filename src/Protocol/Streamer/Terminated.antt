-- ===== src/Protocol/Streamer/Terminated.antt =====
-- The values of an aggregate that goes on to a `.` (crates/pr-protocol/src/stream.rs), as `until`
-- reads them.
use penguin_redis.Prelude.{
  ℕ, zero, suc, ◌+◌, ◌≡◌, refl, sym, ap, ◌∙◌, subst, true, Option, none, List, [], ◌∷◌, ◌++◌, leb,
  ltb, ◌==◌, if◌then◌else◌, length, append_assoc, append-nil,
}
use penguin_redis.Protocol.Value.{Value}
use penguin_redis.Protocol.Decoder.{
  Budget, protocol, budget, Parsed, Parser, done, failed, ◌>>=◌, line, until, pair, parse_value,
}
use penguin_redis.Protocol.Reassembler.{AggKind, Reassembler, deliver}
use penguin_redis.Protocol.Streamer.{
  StreamBudget, at_value, Pending, Streamer, again, close_top, close_completed, advance, by_state,
  next_value, in_streamed, pop_pending, close_streamed, taken,
}
use penguin_redis.Protocol.Streamer.Runs.{Reaches, here, moving, Reaches-trans}
use penguin_redis.Protocol.Streamer.Inversions.{
  Came, came, bind-Came, done-fst, done-snd, Chose, yes, no, if-Chose,
}
use penguin_redis.Protocol.Streamer.Payloads.{at, Frames, built}
use penguin_redis.Protocol.Streamer.Chunks.{Delivers, delivers}
use penguin_redis.Protocol.Streamer.Children.{Child, ended, Fills, fills, pend}

-- The values that some elements stand for, in a row.
abbrev pub flatten : {A : Type 0} → (A → List Value) → List A → List Value
flatten f [] = []
flatten f (x ∷ xs) = f x ++ flatten f xs

pub flatten-snoc :
    {A : Type 0} (f : A → List Value) (xs : List A) (x : A)
    → flatten f (xs ++ x ∷ []) ≡ flatten f xs ++ f x
flatten-snoc f [] x = append-nil (f x)
flatten-snoc f (y ∷ xs) x =
    ap (λ t. f y ++ t) (flatten-snoc f xs x) ∙ sym (append_assoc (f y) (flatten f xs) (f x))

-- What a round of `until` does.
pub data Round {A : Type 0} (bd : Budget) (p : Parser A) (f : ℕ) (out : List A) (c : ℕ) (b : List ℕ)
    (xs : List A) (r : List ℕ) : Type 0 where
  last :
      (l r' : List ℕ)
      → (c == b'.') ≡ true
      → line b ≡ done l r'
      → leb (length l) 0 ≡ true
      → out ≡ xs
      → r' ≡ r
      → Round bd p f out c b xs r
  another :
      (x : A) (r' : List ℕ)
      → p (c ∷ b) ≡ done x r'
      → until bd p f (out ++ x ∷ []) r' ≡ done xs r
      → Round bd p f out c b xs r

until-Round :
    {A : Type 0} (bd : Budget) (p : Parser A) (f : ℕ) (out : List A) (c : ℕ) (b : List ℕ)
    {xs : List A} {r : List ℕ}
    → until bd p (suc f) out (c ∷ b) ≡ done xs r
    → Round bd p f out c b xs r
unfolding until
until-Round {A} bd p f out c b {xs} {r} e = by_dot (if-Chose (c == b'.') e)
  where
    end : List ℕ → List ℕ → Parsed (List A)
    end l r' = if leb (length l) 0 then done out r' else failed protocol

    more : A → List ℕ → Parsed (List A)
    more x r' =
        if ltb bd.max_elements (length (out ++ x ∷ []))
        then failed budget
        else until bd p f (out ++ x ∷ []) r'

    by_end :
        (l r' : List ℕ)
        → (c == b'.') ≡ true
        → line b ≡ done l r'
        → Chose (leb (length l) 0) (done out r') (failed protocol) (done xs r)
        → Round bd p f out c b xs r
    by_end l r' t k (yes z g) = last l r' t k z (done-fst g) (done-snd g)
    by_end l r' t k (no z g) = absurd cc

    by_line : (c == b'.') ≡ true → Came (line b) end xs r → Round bd p f out c b xs r
    by_line t (came l r' k g) = by_end l r' t k (if-Chose (leb (length l) 0) g)

    by_count :
        (x : A) (r' : List ℕ)
        → p (c ∷ b) ≡ done x r'
        → Chose
            (ltb bd.max_elements (length (out ++ x ∷ [])))
            (failed budget)
            (until bd p f (out ++ x ∷ []) r')
            (done xs r)
        → Round bd p f out c b xs r
    by_count x r' k (yes z g) = absurd cc
    by_count x r' k (no z g) = another x r' k g

    by_element : Came (p (c ∷ b)) more xs r → Round bd p f out c b xs r
    by_element (came x r' k g) =
        by_count x r' k (if-Chose (ltb bd.max_elements (length (out ++ x ∷ []))) g)

    by_dot :
        Chose (c == b'.') (line b >>= end) (p (c ∷ b) >>= more) (done xs r)
        → Round bd p f out c b xs r
    by_dot (yes t g) = by_line t (bind-Came (line b) end g)
    by_dot (no t g) = by_element (bind-Came (p (c ∷ b)) more g)

module _ (bd : Budget) (sb : StreamBudget) (st : List Pending) (k : AggKind) (stk : Frames)
    (fin : Option Value) where
  -- The streamer, in the aggregate, and the aggregate so far.
  abbrev pub inside : ℕ → List ℕ → Streamer
  inside m b = at bd sb (pend k none ∷ st) m at_value b

  abbrev pub so_far : List Value → Reassembler
  so_far vs = built ((k, vs) ∷ stk) fin

  pub data Grows (m : ℕ) (b : List ℕ) (items : List Value) (vs : List Value) (r : List ℕ)
      : Type 0 where
    grows :
        (m' : ℕ)
        → Reaches (inside m b) (so_far items) (inside m' r) (so_far (items ++ vs))
        → Grows m b items vs r

  -- What a parser of elements reads, the streamer reads as values.
  abbrev pub Elements : {A : Type 0} → Parser A → (A → List Value) → Type 0
  Elements {A} p f =
      (m : ℕ) (b : List ℕ) (items : List Value) (x : A) (r : List ℕ)
      → p b ≡ done x r
      → Grows m b items (f x) r

  advance-dot :
      (m c : ℕ) (b l r : List ℕ)
      → (c == b'.') ≡ true
      → line b ≡ done l r
      → leb (length l) 0 ≡ true
      → advance (inside m (c ∷ b)) ≡ again (ended bd sb st m r)
  unfolding advance by_state next_value in_streamed close_streamed pop_pending taken
  advance-dot m c b l r h e z = rw (h, e) (rw (taken, z) refl)

  -- The elements up to the terminator, from some that were read before.
  pub until-Fills :
      {A : Type 0} (p : Parser A) (flat : A → List Value) (f m : ℕ) (out xs : List A) (b r : List ℕ)
      → Elements p flat
      → until bd p f out b ≡ done xs r
      → Fills bd sb st k stk fin (inside m b) (so_far (flatten flat out)) (flatten flat xs) r
  unfolding until
  until-Fills p flat zero m out xs b r h e = absurd cc
  until-Fills p flat (suc f) m out xs [] r h e = absurd cc
  until-Fills {A} p flat (suc f) m out xs (c ∷ b) r h e =
      by_round (until-Round bd p f out c b e)
        λ m' out' b' e'. until-Fills p flat f m' out' xs b' r h e'
    where
      Goal : Type 0
      Goal =
          Fills bd sb st k stk fin (inside m (c ∷ b)) (so_far (flatten flat out)) (flatten flat xs)
            r

      by_element :
          (x : A) (r' : List ℕ)
          → Grows m (c ∷ b) (flatten flat out) (flat x) r'
          → ((m' : ℕ)
              → Fills bd sb st k stk fin
                  (inside m' r')
                  (so_far (flatten flat (out ++ x ∷ [])))
                  (flatten flat xs)
                  r)
          → Goal
      by_element x r' (grows m' w) more = by_more (more m')
        where
          by_more :
              Fills bd sb st k stk fin
                (inside m' r')
                (so_far (flatten flat (out ++ x ∷ [])))
                (flatten flat xs)
                r
              → Goal
          by_more (fills m'' w') =
              fills m'' (Reaches-trans w (rw (sym (flatten-snoc flat out x)) w'))

      by_round :
          Round bd p f out c b xs r
          → ((m' : ℕ) (out' : List A) (b' : List ℕ)
              → until bd p f out' b' ≡ done xs r
              → Fills bd sb st k stk fin
                  (inside m' b')
                  (so_far (flatten flat out'))
                  (flatten flat xs)
                  r)
          → Goal
      by_round (last l r' t g z o w) more =
          rw (sym o, sym w) (fills m (moving (advance-dot m c b l r' t g z) here))
      by_round (another x r' g i) more =
          by_element x r' (h m (c ∷ b) (flatten flat out) x r' g) λ m'. more m' (out ++ x ∷ []) r' i

  pub value-Elements :
      (left : ℕ)
      → Child bd sb left
      → suc (length st) + left ≡ bd.max_depth
      → Elements (parse_value bd left) (λ v. v ∷ [])
  unfolding close_completed close_top deliver
  value-Elements left child depth m b items v r e =
      by_child (child (pend k none ∷ st) ((k, items) ∷ stk) fin m b r v depth e)
    where
      by_child :
          Delivers bd sb (pend k none ∷ st) ((k, items) ∷ stk) fin (inside m b) (so_far items) v r
          → Grows m b items (v ∷ []) r
      by_child (delivers m' w) = grows m' w

  pub pair-Elements :
      (p : Parser Value) → Elements p (λ v. v ∷ []) → Elements (pair p) (λ kv. kv.0 ∷ kv.1 ∷ [])
  unfolding pair
  pair-Elements p h m b items kv r e = by_key (bind-Came (p b) _ e)
    where
      by_both :
          (x y : Value) (r' : List ℕ)
          → (x, y) ≡ kv
          → Grows m b items (x ∷ []) r'
          → ((m' : ℕ) → Grows m' r' (items ++ x ∷ []) (y ∷ []) r)
          → Grows m b items (kv.0 ∷ kv.1 ∷ []) r
      by_both x y r' g (grows m' w) more = by_more (more m')
        where
          by_more : Grows m' r' (items ++ x ∷ []) (y ∷ []) r → Grows m b items (kv.0 ∷ kv.1 ∷ []) r
          by_more (grows m'' w') = rw (sym g) (
              grows m'' (
                subst (λ vs. Reaches (inside m b) (so_far items) (inside m'' r) (so_far vs))
                  (append_assoc items (x ∷ []) (y ∷ [])) (Reaches-trans w w')))

      by_value :
          (x : Value) (r' : List ℕ)
          → p b ≡ done x r'
          → Came (p r') (λ y r''. done (x, y) r'') kv r
          → Grows m b items (kv.0 ∷ kv.1 ∷ []) r
      by_value x r' k' (came y r'' g i) =
          by_both x y r' (done-fst i) (h m b items x r' k')
            λ m'. h m' r' (items ++ x ∷ []) y r (g ∙ ap (done y) (done-snd i))

      by_key :
          Came (p b) (λ x r'. p r' >>= λ y r''. done (x, y) r'') kv r
          → Grows m b items (kv.0 ∷ kv.1 ∷ []) r
      by_key (came x r' g i) = by_value x r' g (bind-Came (p r') _ i)
