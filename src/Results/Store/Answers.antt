-- ===== src/Results/Store/Answers.antt =====
-- What `get` answers behind each call that changes the store.
use penguin_redis.Prelude.{
  ℕ, ◌+◌, ◌^◌, ◌≤◌, ◌<◌, ◌≡◌, refl, sym, ap, subst, ◌∙◌, ◌⊎◌, inl, inr, none, some, List, [], ◌∷◌,
  ◌++◌, arith, true, ◌||◌, ltb, ◌==◌, length, Bool-cases, Option-cases, ok, err, if◌then◌else◌,
}
use penguin_redis.Results.Store.{
  Retained, Items, ResultStore, lookup, contains, put, get, evicted, too_large, scope_expired,
}
use penguin_redis.Results.Store.Items.{
  keys, Rising, lookup_above, lookup-append_fresh, lookup-append_ne, lookup-suffix, Rising-suffix,
}
use penguin_redis.Results.Store.Invariant.{Inv}
use penguin_redis.Results.Store.Put.{kept_as, Placed, put-Placed, put_refused, put_emptied}
use penguin_redis.Results.Store.Tracks.{Tracks, contains-append, contains_one}

-- A result within both limits is found under the id that `put` returned, byte for byte, in the
-- scope it was captured in, and in any other scope it has expired.
pub get-put :
    (s : ResultStore) (bytes : List ℕ) (scope_epoch current : ℕ)
    → Inv s
    → s.next_id + 1 < 2 ^ 64
    → length bytes ≤ s.budget.single_bytes
    → length bytes ≤ s.budget.total_bytes
    → get (put s bytes scope_epoch).0 (put s bytes scope_epoch).1 current ≡ (
        if scope_epoch == current
        then ok (kept_as s.next_id bytes scope_epoch)
        else err scope_expired)
get-put s bytes scope_epoch current i n h l =
    let (p, e) = put-Placed s bytes scope_epoch i n h l in
    let found : lookup s.next_id (put s bytes scope_epoch).0.items
        ≡ some (kept_as s.next_id bytes scope_epoch) =
      ap (lookup s.next_id) p.items
      ∙ lookup-append_fresh s.next_id 1 _ p.kept (
          Rising-suffix 1 s.next_id p.dropped p.kept
            (subst (Rising 1 s.next_id) p.split i.rising)) in
    rw e (unfold get in rw (found, get) refl)

-- A result over the limit for one is answered for by its size, in every scope, and is never
-- taken for one that was evicted or that never was.
pub get-put_too_large :
    (s : ResultStore) (bytes : List ℕ) (scope_epoch current : ℕ)
    → Inv s
    → Tracks s
    → s.budget.single_bytes < length bytes
    → get (put s bytes scope_epoch).0 (put s bytes scope_epoch).1 current ≡ err too_large
unfolding get
get-put_too_large s bytes scope_epoch current i tracks h = rw (put_refused s bytes scope_epoch h) (
    ground (
      arith,
      tracks s.next_id,
      lookup_above s.next_id 1 s.next_id s.items i.rising (omega arith),
      contains-append s.too_large (s.next_id ∷ []) s.next_id,
      contains_one s.next_id s.next_id,
    ))

-- An id that a list of results holds is found behind a prefix that was dropped, or in it.
lookup-dropped :
    (id : ℕ) (a b : Items) (r : Retained)
    → lookup id (a ++ b) ≡ some r
    → (lookup id b ≡ some r) ⊎ (contains (keys a) id ≡ true)
unfolding lookup contains
lookup-dropped id [] b r e = inl e
lookup-dropped id ((k, x) ∷ a) b r e = ground (arith, lookup-dropped id a b r)

contains-keys :
    (id : ℕ) (m : Items) (r : Retained) → lookup id m ≡ some r → contains (keys m) id ≡ true
unfolding lookup contains
contains-keys id [] r e = cc
contains-keys id ((k, x) ∷ m) r e = ground (arith, contains-keys id m r)

found_below :
    (s : ResultStore) (id : ℕ) (r : Retained) → Inv s → lookup id s.items ≡ some r → id < s.next_id
found_below s id r i e = elim (Bool-cases (ltb id s.next_id)) [
  | inl below ↦ ground arith
  | inr above ↦ cc (e, lookup_above id 1 s.next_id s.items i.rising (ground arith))
]

Placed-old :
    (s t : ResultStore) (bytes : List ℕ) (scope_epoch id : ℕ) (r : Retained)
    → Inv s
    → Placed s bytes scope_epoch t
    → lookup id s.items ≡ some r
    → (lookup id t.items ≡ some r) ⊎ ((lookup id t.items ≡ none) × (contains t.evicted id ≡ true))
Placed-old s t bytes scope_epoch id r i p e =
    let below : id < s.next_id = found_below s id r i e in
    let where_in_t : lookup id t.items ≡ lookup id p.kept =
      ap (lookup id) p.items ∙ lookup-append_ne id s.next_id _ p.kept (λ q. omega arith) in
    let gone : contains t.evicted id ≡ (contains s.evicted id || contains (keys p.dropped) id) =
      ap (λ l. contains l id) p.evicted ∙ contains-append s.evicted (keys p.dropped) id in
    let before : lookup id (p.dropped ++ p.kept) ≡ some r = ap (lookup id) (sym p.split) ∙ e in
    elim (Option-cases (lookup id p.kept)) [
      | inl lost ↦
          inr (where_in_t ∙ lost, ground (arith, gone, lookup-dropped id p.dropped p.kept r before))
      | inr (x, kept) ↦ inl (
          where_in_t
          ∙ kept
          ∙ sym (
              lookup-suffix id 1 s.next_id p.dropped p.kept x
                (subst (Rising 1 s.next_id) p.split i.rising) kept)
          ∙ before)
    ]

-- A result that `get` returned is still returned behind any further `put`, the same bytes in the
-- same scope, or it is reported as evicted: it is never lost silently, nor replaced.
pub get-put_old :
    (s : ResultStore) (bytes : List ℕ) (scope_epoch id current : ℕ) (r : Retained)
    → Inv s
    → s.next_id + 1 < 2 ^ 64
    → get s id current ≡ ok r
    → (get (put s bytes scope_epoch).0 id current ≡ ok r)
      ⊎ (get (put s bytes scope_epoch).0 id current ≡ err evicted)
unfolding get
get-put_old s bytes scope_epoch id current r i n g = elim (Option-cases (lookup id s.items)) [
  | inl gone ↦ ground arith
  | inr (x, found) ↦ elim (Bool-cases (ltb s.budget.single_bytes (length bytes))) [
    | inl big ↦ rw (put_refused s bytes scope_epoch (ground arith)) (inl (ground (arith, found)))
    | inr small ↦ elim (Bool-cases (ltb s.budget.total_bytes (length bytes))) [
      | inl huge ↦ rw (put_emptied s bytes scope_epoch i n (ground arith) (ground arith)) (
          inr (
            ground (
              arith,
              contains-append s.evicted (keys s.items) id,
              contains-keys id s.items x found,
            )))
      | inr fine ↦ ground (
        arith,
        Placed-old s _ bytes scope_epoch id x i
            (put-Placed s bytes scope_epoch i n (ground arith) (ground arith)).0 found,
      )
    ]
  ]
]
