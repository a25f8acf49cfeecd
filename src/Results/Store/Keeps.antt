-- ===== src/Results/Store/Keeps.antt =====
-- Every call keeps the invariant of the store.
use penguin_redis.Prelude.{
  ℕ, ◌+◌, ◌^◌, ◌≤◌, ◌<◌, ◌≡◌, refl, sym, subst, inl, inr, List, [], ◌∷◌, ◌++◌, arith, ltb, length,
  u64, Bool-cases, Option-cases,
}
use penguin_redis.Results.Store.{
  Retained, ResultStore, lookup, remove, put, expire, expire_all, doomed, invalidate_scope,
}
use penguin_redis.Results.Store.Items.{
  keys, weight, Rising, Fits, Rising-bounds, Rising-suffix, Rising-append, Fits-suffix, Fits-append,
  Rising-raise, weight-remove, Rising-remove, Fits-remove, retain_ne-keys, remove_missing,
  weight-remove-le,
}
use penguin_redis.Results.Store.Invariant.{Inv}
use penguin_redis.Results.Store.Put.{kept_as, Placed, put-Placed, put_refused, put_emptied}

put_refused-Inv :
    (s : ResultStore)
    → Inv s
    → s.next_id + 1 < 2 ^ 64
    → Inv (record s { next_id = u64 (s.next_id + 1); too_large = s.too_large ++ s.next_id ∷ [] })
put_refused-Inv s i n = record {
  order_keys = i.order_keys;
  used_exact = i.used_exact;
  rising = Rising-raise 1 s.next_id (u64 (s.next_id + 1)) s.items (omega arith) i.rising;
  fits = i.fits;
  bounded = i.bounded;
  words = i.words;
}

Placed-Inv :
    (s t : ResultStore) (bytes : List ℕ) (scope_epoch : ℕ)
    → Inv s
    → length bytes ≤ s.budget.single_bytes
    → Placed s bytes scope_epoch t
    → Inv t
Placed-Inv s t bytes scope_epoch i h p = record {
  order_keys = p.order;
  used_exact = p.used;
  rising = subst (Rising 1 t.next_id) (sym p.items) (
      Rising-append 1 s.next_id t.next_id new_item p.kept
        (Rising-suffix 1 s.next_id p.dropped p.kept (subst (Rising 1 s.next_id) p.split i.rising))
        (omega arith));
  fits = subst (Fits t.budget.single_bytes) (sym p.items) (
      subst (λ b. Fits b.single_bytes (p.kept ++ (s.next_id, new_item) ∷ [])) (sym p.budget)
        (Fits-append s.budget.single_bytes p.kept ((s.next_id, new_item) ∷ [])
          (Fits-suffix s.budget.single_bytes p.dropped p.kept
            (subst (Fits s.budget.single_bytes) p.split i.fits))
          (refl, h, tt)));
  bounded = p.bounded;
  words = subst (λ b. b.total_bytes + b.single_bytes < 2 ^ 64) (sym p.budget) i.words;
}
  where
    new_item : Retained
    new_item = kept_as s.next_id bytes scope_epoch

-- Every `put` keeps the invariant, while ids are left.
pub put-Inv :
    (s : ResultStore) (bytes : List ℕ) (scope_epoch : ℕ)
    → Inv s
    → s.next_id + 1 < 2 ^ 64
    → Inv (put s bytes scope_epoch).0
put-Inv s bytes scope_epoch i n = elim (Bool-cases (ltb s.budget.single_bytes (length bytes))) [
  | inl big ↦ rw (put_refused s bytes scope_epoch (ground arith)) (put_refused-Inv s i n)
  | inr small ↦ elim (Bool-cases (ltb s.budget.total_bytes (length bytes))) [
    | inl huge ↦
        rw (put_emptied s bytes scope_epoch i n (ground arith) (ground arith))
          (ground (arith, i.words, Rising-bounds 1 s.next_id s.items i.rising))
    | inr fine ↦
        Placed-Inv s _ bytes scope_epoch i (ground arith)
          (put-Placed s bytes scope_epoch i n (ground arith) (ground arith)).0
  ]
]

-- What `invalidate_scope` does with one id.
abbrev pub without : ℕ → ResultStore → ResultStore
without id s = record s {
  order = keys (remove id s.items);
  items = remove id s.items;
  used = weight (remove id s.items);
  evicted = s.evicted ++ id ∷ [];
}

pub expire-without : (id : ℕ) (s : ResultStore) → Inv s → expire id s ≡ without id s
unfolding expire
expire-without id s i = elim (Option-cases (lookup id s.items)) [
  | inl gone ↦
      ground (arith, remove_missing id s.items gone, retain_ne-keys id 1 s.next_id s.items i.rising)
  | inr (r, found) ↦
      ground
        (arith, weight-remove id s.items r found, retain_ne-keys id 1 s.next_id s.items i.rising)
]

pub without-Inv : (id : ℕ) (s : ResultStore) → Inv s → Inv (without id s)
without-Inv id s i = record {
  order_keys = refl;
  used_exact = refl;
  rising = Rising-remove id 1 s.next_id s.items i.rising;
  fits = Fits-remove id s.budget.single_bytes s.items i.fits;
  bounded = omega (arith, weight-remove-le id s.items, i.used_exact, i.bounded);
  words = i.words;
}

expire_all-Inv : (ids : List ℕ) (s : ResultStore) → Inv s → Inv (expire_all ids s)
unfolding expire_all
expire_all-Inv [] s i = i
expire_all-Inv (id ∷ ids) s i =
    expire_all-Inv ids (expire id s) (rw (expire-without id s i) (without-Inv id s i))

-- Dropping what another scope captured keeps the invariant.
pub invalidate_scope-Inv :
    (s : ResultStore) (keep_epoch : ℕ) → Inv s → Inv (invalidate_scope s keep_epoch).0
unfolding invalidate_scope
invalidate_scope-Inv s keep_epoch i = expire_all-Inv (doomed keep_epoch s.items) s i

-- The calls that change a store.
pub data Call : Type 0 where
  puts : List ℕ → ℕ → Call
  invalidates : ℕ → Call

unfoldable pub step : ResultStore → Call → ResultStore
step s (puts bytes scope_epoch) = (put s bytes scope_epoch).0
step s (invalidates keep_epoch) = (invalidate_scope s keep_epoch).0

unfoldable pub run : ResultStore → List Call → ResultStore
run s [] = s
run s (c ∷ cs) = run (step s c) cs
