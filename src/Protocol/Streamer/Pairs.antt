-- ===== src/Protocol/Streamer/Pairs.antt =====
-- Pairs of values as the values in a row: in `repeat` (crates/pr-protocol/src/decoder.rs), and in
-- what the `Reassembler` (crates/pr-protocol/src/stream.rs) makes of the values of an aggregate.
use penguin_redis.Prelude.{
  ℕ, zero, suc, ◌*◌, ◌≡◌, refl, sym, ap, ◌∙◌, some, List, [], ◌∷◌, ◌++◌, ok, arith,
}
use penguin_redis.Protocol.Value.{Value, map_of, attribute, to_pairs}
use penguin_redis.Protocol.Decoder.{Parser, done, ◌>>=◌, repeat, pair}
use penguin_redis.Protocol.Reassembler.{map_kind, attribute_kind, pairs, pop, finish_aggregate}
use penguin_redis.Protocol.Streamer.Inversions.{Came, came, bind-Came, done-fst, done-snd}
use penguin_redis.Protocol.Streamer.Terminated.{flatten}

abbrev pub both : Value × Value → List Value
both kv = kv.0 ∷ kv.1 ∷ []

abbrev pub one : Value → List Value
one v = v ∷ []

pub flatten-one : (vs : List Value) → flatten one vs ≡ vs
flatten-one [] = refl
flatten-one (v ∷ vs) = ap (λ t. v ∷ t) (flatten-one vs)

-- An even list of values, two by two.
pub pairs-flatten : (kvs : List (Value × Value)) → pairs (flatten both kvs) ≡ ok kvs
unfolding pairs
pairs-flatten [] = refl
pairs-flatten ((k, v) ∷ kvs) = rw (pairs-flatten kvs) refl

pub pop-snoc : (vs : List Value) (v : Value) → pop (vs ++ v ∷ []) ≡ some (v, vs)
unfolding pop
pop-snoc [] v = refl
pop-snoc (w ∷ vs) v = rw (pop-snoc vs v) refl

pub finish-map :
    (kvs : List (Value × Value))
    → finish_aggregate map_kind (flatten both kvs) ≡ ok (map_of (to_pairs kvs))
unfolding finish_aggregate
finish-map kvs = rw (finish_aggregate, pairs-flatten kvs) refl

pub finish-attribute :
    (kvs : List (Value × Value)) (v : Value)
    → finish_aggregate attribute_kind (flatten both kvs ++ v ∷ []) ≡ ok (attribute (to_pairs kvs) v)
unfolding finish_aggregate
finish-attribute kvs v =
    rw (finish_aggregate, pop-snoc (flatten both kvs) v) (rw (pairs-flatten kvs) refl)

repeat-two :
    (p : Parser Value) (n : ℕ) (x y : Value) (xs : List Value) (b b' b'' r : List ℕ)
    → p b ≡ done x b'
    → p b' ≡ done y b''
    → repeat p n b'' ≡ done xs r
    → repeat p (suc (suc n)) b ≡ done (x ∷ y ∷ xs) r
unfolding repeat ◌>>=◌
repeat-two p n x y xs b b' b'' r h k l = rw (h, k, l) refl

-- Pairs read one after the other are twice as many values.
pub repeat-flatten :
    (p : Parser Value) (n : ℕ) (kvs : List (Value × Value)) (b r : List ℕ)
    → repeat (pair p) n b ≡ done kvs r
    → repeat p (n * 2) b ≡ done (flatten both kvs) r
unfolding repeat pair
repeat-flatten p zero kvs b r e = rw (sym (done-fst e), sym (done-snd e)) refl
repeat-flatten p (suc n) kvs b r e =
    let twice : suc n * 2 ≡ suc (suc (n * 2)) = omega arith in
    rw twice (by_pair (bind-Came (pair p b) _ e) (repeat-flatten p n))
  where
    Rest : Type 0
    Rest =
        (kvs' : List (Value × Value)) (b' r' : List ℕ)
        → repeat (pair p) n b' ≡ done kvs' r'
        → repeat p (n * 2) b' ≡ done (flatten both kvs') r'

    Goal : Type 0
    Goal = repeat p (suc (suc (n * 2))) b ≡ done (flatten both kvs) r

    by_rest :
        (k v : Value) (kvs' : List (Value × Value)) (b' b'' : List ℕ)
        → p b ≡ done k b'
        → p b' ≡ done v b''
        → (k, v) ∷ kvs' ≡ kvs
        → repeat p (n * 2) b'' ≡ done (flatten both kvs') r
        → Goal
    by_rest k v kvs' b' b'' h l g i =
        rw (sym g) (repeat-two p (n * 2) k v (flatten both kvs') b b' b'' r h l i)

    by_value :
        (k : Value) (kv : Value × Value) (kvs' : List (Value × Value)) (b' b'' : List ℕ)
        → p b ≡ done k b'
        → Came (p b') (λ v r'. done (k, v) r') kv b''
        → kv ∷ kvs' ≡ kvs
        → repeat p (n * 2) b'' ≡ done (flatten both kvs') r
        → Goal
    by_value k kv kvs' b' b'' h (came v r' l i) g j =
        by_rest k v kvs' b' b'' h (l ∙ ap (done v) (done-snd i))
          (ap (λ t. t ∷ kvs') (done-fst i) ∙ g) j

    by_key :
        (kv : Value × Value) (kvs' : List (Value × Value)) (b'' : List ℕ)
        → Came (p b) (λ k r'. p r' >>= λ v r''. done (k, v) r'') kv b''
        → kv ∷ kvs' ≡ kvs
        → repeat p (n * 2) b'' ≡ done (flatten both kvs') r
        → Goal
    by_key kv kvs' b'' (came k b' h i) g j = by_value k kv kvs' b' b'' h (bind-Came (p b') _ i) g j

    by_others :
        (kv : Value × Value) (b'' : List ℕ)
        → pair p b ≡ done kv b''
        → Came (repeat (pair p) n b'') (λ xs r'. done (kv ∷ xs) r') kvs r
        → Rest
        → Goal
    by_others kv b'' h (came kvs' r' i g) more =
        by_key kv kvs' b'' (bind-Came (p b) _ h) (done-fst g)
          (more kvs' b'' r (i ∙ ap (done kvs') (done-snd g)))

    by_pair :
        Came (pair p b) (λ kv b''. repeat (pair p) n b'' >>= λ xs r'. done (kv ∷ xs) r') kvs r
        → Rest
        → Goal
    by_pair (came kv b'' h g) more = by_others kv b'' h (bind-Came (repeat (pair p) n b'') _ g) more

-- A value behind others.
pub repeat-snoc :
    (p : Parser Value) (n : ℕ) (xs : List Value) (v : Value) (b r r' : List ℕ)
    → repeat p n b ≡ done xs r
    → p r ≡ done v r'
    → repeat p (suc n) b ≡ done (xs ++ v ∷ []) r'
unfolding repeat ◌>>=◌
repeat-snoc p zero xs v b r r' e h = rw (sym (done-fst e)) (rw (done-snd e, h) refl)
repeat-snoc p (suc n) xs v b r r' e h =
    by_first (bind-Came (p b) _ e) λ xs' b' e'. repeat-snoc p n xs' v b' r r' e' h
  where
    Rest : Type 0
    Rest =
        (xs' : List Value) (b' : List ℕ)
        → repeat p n b' ≡ done xs' r
        → repeat p (suc n) b' ≡ done (xs' ++ v ∷ []) r'

    by_others :
        (x : Value) (b' : List ℕ)
        → p b ≡ done x b'
        → Came (repeat p n b') (λ ys s. done (x ∷ ys) s) xs r
        → Rest
        → repeat p (suc (suc n)) b ≡ done (xs ++ v ∷ []) r'
    by_others x b' k (came ys s i g) more =
        rw (sym (done-fst g)) (rw (k, more ys b' (i ∙ ap (done ys) (done-snd g))) refl)

    by_first :
        Came (p b) (λ x b'. repeat p n b' >>= λ ys s. done (x ∷ ys) s) xs r
        → Rest
        → repeat p (suc (suc n)) b ≡ done (xs ++ v ∷ []) r'
    by_first (came x b' k g) more = by_others x b' k (bind-Came (repeat p n b') _ g) more
