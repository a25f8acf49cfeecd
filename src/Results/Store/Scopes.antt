-- ===== src/Results/Store/Scopes.antt =====
-- What `invalidate_scope` drops and what it keeps.
use penguin_redis.Prelude.{
  ℕ, suc, ◌<◌, ◌≡◌, refl, sym, subst, ◌∙◌, inl, inr, none, some, List, [], ◌∷◌, arith, false, not,
  ◌||◌, ◌==◌, Option-cases, ok, err, if◌then◌else◌,
}
use penguin_redis.Results.Store.{
  Retained, Items, ResultStore, lookup, contains, get, evicted, expire_all, doomed,
  invalidate_scope,
}
use penguin_redis.Results.Store.Items.{Rising, lookup-remove_self, lookup-remove_ne}
use penguin_redis.Results.Store.Invariant.{Inv}
use penguin_redis.Results.Store.Keeps.{without, expire-without, without-Inv}
use penguin_redis.Results.Store.Tracks.{contains-append}

contains-doomed_below :
    (keep id lo hi : ℕ) (m : Items) → Rising lo hi m → id < lo → contains (doomed keep m) id ≡ false
unfolding contains doomed
contains-doomed_below keep id lo hi [] h l = refl
contains-doomed_below keep id lo hi ((k, r) ∷ m) h l =
    ground (arith, contains-doomed_below keep id (suc k) hi m h.1)

contains-doomed :
    (keep id lo hi : ℕ) (m : Items) (r : Retained)
    → Rising lo hi m
    → lookup id m ≡ some r
    → contains (doomed keep m) id ≡ not (r.scope_epoch == keep)
unfolding contains doomed lookup
contains-doomed keep id lo hi [] r h e = cc
contains-doomed keep id lo hi ((k, x) ∷ m) r h e = ground (
  arith,
  contains-doomed keep id (suc k) hi m r h.1,
  contains-doomed_below keep id (suc k) hi m h.1,
)

lookup-without :
    (id j : ℕ) (s : ResultStore)
    → Inv s
    → lookup j (without id s).items ≡ (if id == j then none else lookup j s.items)
lookup-without id j s i =
    ground
      (arith, lookup-remove_self id 1 s.next_id s.items i.rising, lookup-remove_ne j id s.items)

lookup-expire_all :
    (ids : List ℕ) (id : ℕ) (s : ResultStore)
    → Inv s
    → lookup id (expire_all ids s).items ≡ (if contains ids id then none else lookup id s.items)
unfolding expire_all contains
lookup-expire_all [] id s i = refl
lookup-expire_all (x ∷ ids) id s i =
    subst
      (λ t.
        lookup id (expire_all ids t).items
        ≡ (if contains (x ∷ ids) id then none else lookup id s.items))
      (sym (expire-without x s i))
      (lookup-expire_all ids id (without x s) (without-Inv x s i)
        ∙ ground (arith, lookup-without x id s i))

evicted-expire_all :
    (ids : List ℕ) (id : ℕ) (s : ResultStore)
    → Inv s
    → contains (expire_all ids s).evicted id ≡ (contains s.evicted id || contains ids id)
unfolding expire_all
evicted-expire_all [] id s i = unfold contains in ground arith
evicted-expire_all (x ∷ ids) id s i =
    subst
      (λ t.
        contains (expire_all ids t).evicted id ≡ (contains s.evicted id || contains (x ∷ ids) id))
      (sym (expire-without x s i))
      (evicted-expire_all ids id (without x s) (without-Inv x s i)
        ∙ ground (arith, contains-append s.evicted (x ∷ []) id, contains-append (x ∷ []) ids id))

-- Behind `invalidate_scope` a result of the scope that is kept is still returned, and a result
-- of any other scope is reported as evicted.
pub get-invalidate_scope :
    (s : ResultStore) (keep_epoch id current : ℕ) (r : Retained)
    → Inv s
    → get s id current ≡ ok r
    → get (invalidate_scope s keep_epoch).0 id current
      ≡ (if current == keep_epoch then ok r else err evicted)
unfolding get invalidate_scope
get-invalidate_scope s keep_epoch id current r i g = elim (Option-cases (lookup id s.items)) [
  | inl gone ↦ ground arith
  | inr (x, found) ↦ ground (
    arith,
    lookup-expire_all (doomed keep_epoch s.items) id s i,
    evicted-expire_all (doomed keep_epoch s.items) id s i,
    contains-doomed keep_epoch id 1 s.next_id s.items x i.rising found,
  )
]
