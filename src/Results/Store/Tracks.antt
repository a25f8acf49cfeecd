-- ===== src/Results/Store/Tracks.antt =====
-- Every id that a store handed out is kept, evicted or refused, and no other id is.
use penguin_redis.Prelude.{
  ℕ, suc, ◌+◌, ◌^◌, ◌<◌, ◌≡◌, refl, sym, ap, subst, inl, inr, List, [], ◌∷◌, ◌++◌, arith, Bool,
  true, false, not, ◌&&◌, ◌||◌, ltb, ◌==◌, length, u64, Bool-cases, All,
}
use penguin_redis.Results.Store.{
  Budget, Items, ResultStore, remove, contains, new, put, expire_all, doomed, invalidate_scope,
}
use penguin_redis.Results.Store.Items.{keys, Rising, Rising-bounds, keys-append}
use penguin_redis.Results.Store.Invariant.{Inv}
use penguin_redis.Results.Store.Put.{kept_as, Placed, put-Placed, put_refused, put_emptied}
use penguin_redis.Results.Store.Keeps.{without, expire-without, without-Inv}

pub contains-append :
    (xs ys : List ℕ) (id : ℕ) → contains (xs ++ ys) id ≡ (contains xs id || contains ys id)
unfolding contains
contains-append [] ys id = refl
contains-append (x ∷ xs) ys id = ground (arith, contains-append xs ys id)

pub contains_one : (x id : ℕ) → contains (x ∷ []) id ≡ (x == id)
unfolding contains
contains_one x id = ground arith

contains-keys_below :
    (id lo hi : ℕ) (m : Items) → Rising lo hi m → id < lo → contains (keys m) id ≡ false
unfolding contains
contains-keys_below id lo hi [] h l = refl
contains-keys_below id lo hi ((k, r) ∷ m) h l =
    ground (arith, contains-keys_below id (suc k) hi m h.1)

contains-keys-remove :
    (j id lo hi : ℕ) (m : Items)
    → Rising lo hi m
    → contains (keys (remove id m)) j ≡ (contains (keys m) j && not (id == j))
unfolding contains remove
contains-keys-remove j id lo hi [] h = refl
contains-keys-remove j id lo hi ((k, r) ∷ m) h =
    ground
      (arith, contains-keys-remove j id (suc k) hi m h.1, contains-keys_below j (suc k) hi m h.1)

abbrev pub known : ResultStore → ℕ → Bool
known s id = contains (keys s.items) id || (contains s.evicted id || contains s.too_large id)

-- Ids are handed out from 1 on.
abbrev pub issued : ResultStore → ℕ → Bool
issued s id = ltb 0 id && ltb id s.next_id

abbrev pub Tracks : ResultStore → Type 0
Tracks s = (id : ℕ) → known s id ≡ issued s id

pub new-Tracks : (b : Budget) → Tracks (new b)
unfolding new contains
new-Tracks b id = ground arith

module _ (s : ResultStore) (i : Inv s) (n : s.next_id + 1 < 2 ^ 64) (tracks : Tracks s) where
  put_refused-Tracks :
      Tracks (record s { next_id = u64 (s.next_id + 1); too_large = s.too_large ++ s.next_id ∷ [] })
  put_refused-Tracks id = ground (
    arith,
    tracks id,
    contains-append s.too_large (s.next_id ∷ []) id,
    contains_one s.next_id id,
    Rising-bounds 1 s.next_id s.items i.rising,
  )

  put_emptied-Tracks : Tracks (record s {
    next_id = s.next_id + 1;
    items = [];
    order = [];
    used = 0;
    evicted = s.evicted ++ keys s.items;
    too_large = s.too_large ++ s.next_id ∷ [];
  })
  unfolding contains
  put_emptied-Tracks id = ground (
    arith,
    tracks id,
    contains-append s.too_large (s.next_id ∷ []) id,
    contains-append s.evicted (keys s.items) id,
    contains_one s.next_id id,
    Rising-bounds 1 s.next_id s.items i.rising,
  )

  Placed-Tracks :
      (t : ResultStore) (bytes : List ℕ) (scope_epoch : ℕ) → Placed s bytes scope_epoch t → Tracks t
  Placed-Tracks t bytes scope_epoch p id = ground (
    arith,
    tracks id,
    ap (λ m. contains (keys m) id) p.split,
    ap (λ m. contains (keys m) id) p.items,
    ap (λ m. contains m id) p.evicted,
    ap (λ m. contains m id) p.too_large,
    ap (λ m. contains m id) (keys-append p.dropped p.kept),
    ap (λ m. contains m id)
        (keys-append p.kept ((s.next_id, kept_as s.next_id bytes scope_epoch) ∷ [])),
    contains-append (keys p.dropped) (keys p.kept) id,
    contains-append (keys p.kept) (s.next_id ∷ []) id,
    contains-append s.evicted (keys p.dropped) id,
    contains_one s.next_id id,
    p.next_id,
    Rising-bounds 1 s.next_id s.items i.rising,
  )

  pub put-Tracks : (bytes : List ℕ) (scope_epoch : ℕ) → Tracks (put s bytes scope_epoch).0
  put-Tracks bytes scope_epoch = elim (Bool-cases (ltb s.budget.single_bytes (length bytes))) [
    | inl big ↦ rw (put_refused s bytes scope_epoch (ground arith)) put_refused-Tracks
    | inr small ↦ elim (Bool-cases (ltb s.budget.total_bytes (length bytes))) [
      | inl huge ↦
          rw (put_emptied s bytes scope_epoch i n (ground arith) (ground arith)) put_emptied-Tracks
      | inr fine ↦
          Placed-Tracks _ bytes scope_epoch
            (put-Placed s bytes scope_epoch i n (ground arith) (ground arith)).0
    ]
  ]

without-Tracks :
    (id : ℕ) (s : ResultStore) → Inv s → Tracks s → issued s id ≡ true → Tracks (without id s)
without-Tracks id s i tracks h j = ground (
  arith,
  tracks j,
  contains-keys-remove j id 1 s.next_id s.items i.rising,
  contains-append s.evicted (id ∷ []) j,
  contains_one id j,
)

expire_all-Tracks :
    (ids : List ℕ) (s : ResultStore)
    → Inv s
    → Tracks s
    → All (λ id. issued s id ≡ true) ids
    → Tracks (expire_all ids s)
unfolding expire_all
expire_all-Tracks [] s i tracks h = tracks
expire_all-Tracks (id ∷ ids) s i tracks h =
    subst (λ t. Tracks (expire_all ids t)) (sym (expire-without id s i))
      (expire_all-Tracks ids (without id s) (without-Inv id s i) (without-Tracks id s i tracks h.0)
        h.1)

doomed_issued :
    (keep lo hi : ℕ) (m : Items)
    → Rising (suc lo) hi m
    → All (λ id. (ltb 0 id && ltb id hi) ≡ true) (doomed keep m)
unfolding doomed
doomed_issued keep lo hi [] h = tt
doomed_issued keep lo hi ((k, r) ∷ m) h = elim (Bool-cases (r.scope_epoch == keep)) [
  | inl same ↦ rw (same, doomed) (doomed_issued keep k hi m h.1)
  | inr other ↦
      rw (other, doomed)
        (ground (arith, Rising-bounds (suc k) hi m h.1), doomed_issued keep k hi m h.1)
]

pub invalidate_scope-Tracks :
    (s : ResultStore) (keep_epoch : ℕ) → Inv s → Tracks s → Tracks (invalidate_scope s keep_epoch).0
unfolding invalidate_scope
invalidate_scope-Tracks s keep_epoch i tracks =
    expire_all-Tracks (doomed keep_epoch s.items) s i tracks
      (doomed_issued keep_epoch 0 s.next_id s.items i.rising)
