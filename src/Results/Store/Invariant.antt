-- ===== src/Results/Store/Invariant.antt =====
-- What holds of a store between two calls, and what the loop of `put` does.
use penguin_redis.Prelude.{
  ℕ, ◌+◌, ◌^◌, ◌≤◌, ◌<◌, ◌≡◌, refl, sym, ap, subst, ◌∙◌, ◌⊎◌, inl, inr, [], ◌∷◌, ◌++◌, arith, ltb,
  append_assoc, append-nil, u64, Bool-cases,
}
use penguin_redis.Results.Store.{
  Budget, Retained, Items, ResultStore, lookup, remove, new, evict, make_room,
}
use penguin_redis.Results.Store.Items.{keys, weight, Rising, Fits}

-- The budgets together fit a `u64`, as the default ones do, so that no sum of `put` wraps.
pub record Inv (s : ResultStore) : Type 0 where
  pub order_keys : s.order ≡ keys s.items
  pub used_exact : s.used ≡ weight s.items
  pub rising : Rising 1 s.next_id s.items
  pub fits : Fits s.budget.single_bytes s.items
  pub bounded : s.used ≤ s.budget.total_bytes
  pub words : s.budget.total_bytes + s.budget.single_bytes < 2 ^ 64

pub new-Inv : (b : Budget) → b.total_bytes + b.single_bytes < 2 ^ 64 → Inv (new b)
unfolding new
new-Inv b h = ground arith

-- Each result dropped left too little room, with those behind it still there.
abbrev pub Needed : ℕ → ℕ → Items → Items → Type 0
Needed limit size [] kept = Unit {0}
Needed limit size (x ∷ d) kept = (limit < weight (x ∷ d ++ kept) + size) × Needed limit size d kept

-- What the loop leaves of the results `m`: the oldest are gone, no more than needed.
pub record Evicted (size : ℕ) (s : ResultStore) (m : Items) (t : ResultStore) : Type 0 where
  pub dropped : Items
  pub kept : Items
  pub split : m ≡ dropped ++ kept
  pub items : t.items ≡ kept
  pub order : t.order ≡ keys kept
  pub used : t.used ≡ weight kept
  pub evicted : t.evicted ≡ s.evicted ++ keys dropped
  pub budget : t.budget ≡ s.budget
  pub next_id : t.next_id ≡ s.next_id
  pub too_large : t.too_large ≡ s.too_large
  pub room : (weight kept + size ≤ s.budget.total_bytes) ⊎ (kept ≡ [])
  pub needed : Needed s.budget.total_bytes size dropped kept

evict_oldest :
    (k : ℕ) (r : Retained) (m : Items) (s : ResultStore)
    → s.items ≡ (k, r) ∷ m
    → s.used ≡ weight ((k, r) ∷ m)
    → s.used < 2 ^ 64
    → evict k s ≡ record s { items = m; used = weight m; evicted = s.evicted ++ k ∷ [] }
unfolding evict lookup remove
evict_oldest k r m s e u l = ground arith

pub make_room-Evicted :
    (size : ℕ) (m : Items) (s : ResultStore)
    → s.items ≡ m
    → s.used ≡ weight m
    → weight m ≤ s.budget.total_bytes
    → s.budget.total_bytes + size < 2 ^ 64
    → Evicted size s m (make_room size (keys m) s)
unfolding make_room
make_room-Evicted size [] s e u l w = record {
  dropped = [];
  kept = [];
  split = refl;
  items = e;
  order = refl;
  used = u;
  evicted = sym (append-nil s.evicted);
  budget = refl;
  next_id = refl;
  too_large = refl;
  room = inr refl;
  needed = tt;
}
make_room-Evicted size ((k, r) ∷ m) s e u l w =
    elim (Bool-cases (ltb s.budget.total_bytes (u64 (s.used + size)))) [
      | inl full ↦
          rw (full, make_room)
            (rw (evict_oldest k r m (record s { order = keys m }) e u (omega arith))
              (more (ground arith) (make_room-Evicted size m after refl refl (omega arith) w)))
      | inr room ↦ rw (room, make_room) (enough (ground arith))
    ]
  where
    after : ResultStore
    after = record s { order = keys m; items = m; used = weight m; evicted = s.evicted ++ k ∷ [] }

    enough :
        weight ((k, r) ∷ m) + size ≤ s.budget.total_bytes
        → Evicted size s ((k, r) ∷ m) (record s { order = k ∷ keys m })
    enough room = record {
      dropped = [];
      kept = (k, r) ∷ m;
      split = refl;
      items = e;
      order = refl;
      used = u;
      evicted = sym (append-nil s.evicted);
      budget = refl;
      next_id = refl;
      too_large = refl;
      room = inl room;
      needed = tt;
    }

    more :
        s.budget.total_bytes < weight ((k, r) ∷ m) + size
        → Evicted size after m (make_room size (keys m) after)
        → Evicted size s ((k, r) ∷ m) (make_room size (keys m) after)
    more full v = record {
      dropped = (k, r) ∷ v.dropped;
      kept = v.kept;
      split = ap (λ t. (k, r) ∷ t) v.split;
      items = v.items;
      order = v.order;
      used = v.used;
      evicted = v.evicted ∙ append_assoc s.evicted (k ∷ []) (keys v.dropped);
      budget = v.budget;
      next_id = v.next_id;
      too_large = v.too_large;
      room = v.room;
      needed = (
        subst (λ (t : Items). s.budget.total_bytes < weight ((k, r) ∷ t) + size) v.split full,
        v.needed,
      );
    }
