-- ===== src/Results/Store/Put.antt =====
-- `put`: the three things that it does with a result, and the invariant.
use penguin_redis.Prelude.{
  ℕ, ◌+◌, ◌^◌, ◌≤◌, ◌<◌, ◌≡◌, refl, sym, ap, subst, ◌∙◌, ◌⊎◌, inl, inr, List, [], ◌∷◌, ◌++◌, arith,
  false, ltb, length, append-nil, u64,
}
use penguin_redis.Results.Store.{
  Retained, Items, ResultStore, insert, make_room, refuse, place, put,
}
use penguin_redis.Results.Store.Items.{
  keys, weight, Rising, Rising-suffix, keys-append, weight-append, insert_fresh,
}
use penguin_redis.Results.Store.Invariant.{Inv, Evicted, Needed, make_room-Evicted}

-- The result that `put` keeps.
abbrev pub kept_as : ℕ → List ℕ → ℕ → Retained
kept_as id bytes scope_epoch = record { handle = id; bytes = bytes; scope_epoch = scope_epoch }

-- The store before the result is looked at: its id is handed out.
abbrev pub numbered : ResultStore → ResultStore
numbered s = record s { next_id = u64 (s.next_id + 1) }

-- The result is stored last, behind those that were kept; the oldest made room for it.
pub record Placed (s : ResultStore) (bytes : List ℕ) (scope_epoch : ℕ) (t : ResultStore)
    : Type 0 where
  pub dropped : Items
  pub kept : Items
  pub split : s.items ≡ dropped ++ kept
  pub needed : Needed s.budget.total_bytes (length bytes) dropped kept
  pub items : t.items ≡ kept ++ (s.next_id, kept_as s.next_id bytes scope_epoch) ∷ []
  pub order : t.order ≡ keys t.items
  pub used : t.used ≡ weight t.items
  pub bounded : t.used ≤ t.budget.total_bytes
  pub evicted : t.evicted ≡ s.evicted ++ keys dropped
  pub too_large : t.too_large ≡ s.too_large
  pub budget : t.budget ≡ s.budget
  pub next_id : t.next_id ≡ s.next_id + 1

-- Over the limit for one result: nothing but the id changes.
pub put_refused :
    (s : ResultStore) (bytes : List ℕ) (scope_epoch : ℕ)
    → s.budget.single_bytes < length bytes
    → put s bytes scope_epoch ≡ (
      record s { next_id = u64 (s.next_id + 1); too_large = s.too_large ++ s.next_id ∷ [] },
      s.next_id,
    )
unfolding put
put_refused s bytes scope_epoch h = ground arith

put-roomy :
    (s : ResultStore) (bytes : List ℕ) (scope_epoch : ℕ)
    → length bytes ≤ s.budget.single_bytes
    → put s bytes scope_epoch ≡ (
      place s.next_id bytes scope_epoch (make_room (length bytes) s.order (numbered s)),
      s.next_id,
    )
unfolding put
put-roomy s bytes scope_epoch h = ground arith

loop-Evicted :
    (s : ResultStore) (bytes : List ℕ)
    → Inv s
    → length bytes ≤ s.budget.single_bytes
    → Evicted (length bytes) (numbered s) s.items (make_room (length bytes) s.order (numbered s))
loop-Evicted s bytes v h =
    subst
      (λ o. Evicted (length bytes) (numbered s) s.items (make_room (length bytes) o (numbered s)))
      (sym v.order_keys)
      (make_room-Evicted (length bytes) s.items (numbered s) refl v.used_exact
        (omega (arith, v.used_exact)) (omega arith))

module _ (s t : ResultStore) (bytes : List ℕ) (scope_epoch : ℕ) (i : Inv s)
    (v : Evicted (length bytes) (numbered s) s.items t) where
  kept-Rising : Rising 1 s.next_id v.kept
  kept-Rising =
      Rising-suffix 1 s.next_id v.dropped v.kept (subst (Rising 1 s.next_id) v.split i.rising)

  inserted :
      insert s.next_id (kept_as s.next_id bytes scope_epoch) t.items
      ≡ v.kept ++ (s.next_id, kept_as s.next_id bytes scope_epoch) ∷ []
  inserted = ap (insert s.next_id _) v.items ∙ insert_fresh s.next_id 1 _ v.kept kept-Rising

  place-Placed :
      s.next_id + 1 < 2 ^ 64
      → weight v.kept + length bytes ≤ s.budget.total_bytes
      → Placed s bytes scope_epoch (place s.next_id bytes scope_epoch t)
  unfolding place
  place-Placed n h =
      let total : t.budget.total_bytes ≡ s.budget.total_bytes = ap (λ b. b.total_bytes) v.budget in
      let test : ltb t.budget.total_bytes (u64 (t.used + length bytes)) ≡ false =
        ground (arith, v.used, total, i.words) in
      let whole : u64 (t.used + length bytes)
          ≡ weight (insert s.next_id (kept_as s.next_id bytes scope_epoch) t.items) =
        omega (
          arith,
          v.used,
          i.words,
          ap weight inserted,
          weight-append v.kept ((s.next_id, kept_as s.next_id bytes scope_epoch) ∷ []),
        ) in
      rw (test, place)
        (record {
          dropped = v.dropped;
          kept = v.kept;
          split = v.split;
          needed = v.needed;
          items = inserted;
          order =
              ap (λ o. o ++ s.next_id ∷ []) v.order
              ∙ sym (keys-append v.kept ((s.next_id, kept_as s.next_id bytes scope_epoch) ∷ []))
              ∙ ap keys (sym inserted);
          used = whole;
          bounded = omega (arith, v.used, total, i.words);
          evicted = v.evicted;
          too_large = v.too_large;
          budget = v.budget;
          next_id = v.next_id ∙ (omega arith);
        })

-- A result within both limits is stored: the oldest results are dropped, each because those
-- still there left too little room for the new one, the rest is kept in order, and the new one
-- stands last under the next id.
pub put-Placed :
    (s : ResultStore) (bytes : List ℕ) (scope_epoch : ℕ)
    → Inv s
    → s.next_id + 1 < 2 ^ 64
    → length bytes ≤ s.budget.single_bytes
    → length bytes ≤ s.budget.total_bytes
    → Placed s bytes scope_epoch (put s bytes scope_epoch).0
      × ((put s bytes scope_epoch).1 ≡ s.next_id)
put-Placed s bytes scope_epoch i n h l =
    let v = loop-Evicted s bytes i h in
    rw (put-roomy s bytes scope_epoch h)
      (place-Placed s _ bytes scope_epoch i v n (enough v v.room), refl)
  where
    enough :
        {t : ResultStore} (v : Evicted (length bytes) (numbered s) s.items t)
        → (weight v.kept + length bytes ≤ s.budget.total_bytes) ⊎ (v.kept ≡ [])
        → weight v.kept + length bytes ≤ s.budget.total_bytes
    enough v (inl fine) = fine
    enough v (inr empty) = omega (arith, ap weight empty)

place-refused :
    (s t : ResultStore) (bytes : List ℕ) (scope_epoch : ℕ)
    → Inv s
    → (v : Evicted (length bytes) (numbered s) s.items t) → s.next_id + 1 < 2 ^ 64
    → length bytes ≤ s.budget.single_bytes
    → s.budget.total_bytes < length bytes
    → v.kept ≡ []
    → place s.next_id bytes scope_epoch t ≡ record s {
      next_id = s.next_id + 1;
      items = [];
      order = [];
      used = 0;
      evicted = s.evicted ++ keys s.items;
      too_large = s.too_large ++ s.next_id ∷ [];
    }
unfolding place refuse
place-refused s t bytes scope_epoch i v n h l e =
    ground (arith, ap keys all, ap weight e, ap keys e)
  where
    all : v.dropped ≡ s.items
    all = sym (append-nil v.dropped) ∙ ap (λ k. v.dropped ++ k) (sym e) ∙ sym v.split

-- A result over the whole budget, but not over the limit for one, empties the store and is
-- refused.
pub put_emptied :
    (s : ResultStore) (bytes : List ℕ) (scope_epoch : ℕ)
    → Inv s
    → s.next_id + 1 < 2 ^ 64
    → length bytes ≤ s.budget.single_bytes
    → s.budget.total_bytes < length bytes
    → put s bytes scope_epoch ≡ (
      record s {
        next_id = s.next_id + 1;
        items = [];
        order = [];
        used = 0;
        evicted = s.evicted ++ keys s.items;
        too_large = s.too_large ++ s.next_id ∷ [];
      },
      s.next_id,
    )
put_emptied s bytes scope_epoch i n h l =
    let v = loop-Evicted s bytes i h in
    rw (put-roomy s bytes scope_epoch h)
      (ap (λ t. (t, s.next_id)) (place-refused s _ bytes scope_epoch i v n h l (empty v v.room)))
  where
    empty :
        {t : ResultStore} (v : Evicted (length bytes) (numbered s) s.items t)
        → (weight v.kept + length bytes ≤ s.budget.total_bytes) ⊎ (v.kept ≡ [])
        → v.kept ≡ []
    empty v (inl fine) = absurd (omega arith)
    empty v (inr none_left) = none_left
