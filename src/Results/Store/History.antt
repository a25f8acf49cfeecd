-- ===== src/Results/Store/History.antt =====
-- A store after any history of calls: its bounds, and the answer for an id it never handed out.
use penguin_redis.Prelude.{
  ℕ, suc, ◌+◌, ◌^◌, ◌≤◌, ◌<◌, ◌≡◌, refl, sym, subst, ◌⊎◌, ◌↔◌, inl, inr, none, List, [], ◌∷◌, arith,
  false, ltb, length, Bool-cases, err,
}
use penguin_redis.Results.Store.{
  Budget, Items, ResultStore, lookup, contains, new, put, get, unknown, expire_all, doomed,
  invalidate_scope,
}
use penguin_redis.Results.Store.Items.{keys}
use penguin_redis.Results.Store.Invariant.{Inv, new-Inv}
use penguin_redis.Results.Store.Put.{put-Placed, put_refused, put_emptied}
use penguin_redis.Results.Store.Keeps.{
  without, expire-without, without-Inv, put-Inv, invalidate_scope-Inv, Call, puts, invalidates,
  step, run,
}
use penguin_redis.Results.Store.Tracks.{
  Tracks, issued, known, new-Tracks, put-Tracks, invalidate_scope-Tracks,
}

put-next_id :
    (s : ResultStore) (bytes : List ℕ) (scope_epoch : ℕ)
    → Inv s
    → s.next_id + 1 < 2 ^ 64
    → (put s bytes scope_epoch).0.next_id ≡ s.next_id + 1
put-next_id s bytes scope_epoch i n = elim (Bool-cases (ltb s.budget.single_bytes (length bytes))) [
  | inl big ↦ rw (put_refused s bytes scope_epoch (ground arith)) (omega arith)
  | inr small ↦ elim (Bool-cases (ltb s.budget.total_bytes (length bytes))) [
    | inl huge ↦ rw (put_emptied s bytes scope_epoch i n (ground arith) (ground arith))
    | inr fine ↦ (put-Placed s bytes scope_epoch i n (ground arith) (ground arith)).0.next_id
  ]
]

expire_all-next_id :
    (ids : List ℕ) (s : ResultStore) → Inv s → (expire_all ids s).next_id ≡ s.next_id
unfolding expire_all
expire_all-next_id [] s i = refl
expire_all-next_id (id ∷ ids) s i =
    subst (λ t. (expire_all ids t).next_id ≡ s.next_id) (sym (expire-without id s i))
      (expire_all-next_id ids (without id s) (without-Inv id s i))

-- The invariant, the tracking of ids, and the ids left for `k` more calls.
record Sound (k : ℕ) (s : ResultStore) : Type 0 where
  inv : Inv s
  tracks : Tracks s
  left : s.next_id + k < 2 ^ 64

step-Sound : (c : Call) (k : ℕ) (s : ResultStore) → Sound (suc k) s → Sound k (step s c)
unfolding step
step-Sound (puts bytes scope_epoch) k s v =
    let n : s.next_id + 1 < 2 ^ 64 = omega (arith, v.left) in
    record {
      inv = put-Inv s bytes scope_epoch v.inv n;
      tracks = put-Tracks s v.inv n v.tracks bytes scope_epoch;
      left = omega (arith, put-next_id s bytes scope_epoch v.inv n, v.left);
    }
step-Sound (invalidates keep_epoch) k s v = record {
  inv = invalidate_scope-Inv s keep_epoch v.inv;
  tracks = invalidate_scope-Tracks s keep_epoch v.inv v.tracks;
  left =
      unfold invalidate_scope in
      omega (arith, expire_all-next_id (doomed keep_epoch s.items) s v.inv, v.left);
}

run-Sound : (cs : List Call) (s : ResultStore) → Sound (length cs) s → Sound 0 (run s cs)
unfolding run
run-Sound [] s v = v
run-Sound (c ∷ cs) s v = run-Sound cs (step s c) (step-Sound c (length cs) s v)

run-new-Sound :
    (b : Budget) (cs : List Call)
    → b.total_bytes + b.single_bytes < 2 ^ 64
    → length cs + 1 < 2 ^ 64
    → Sound 0 (run (new b) cs)
run-new-Sound b cs h l =
    run-Sound cs (new b)
      (record { inv = new-Inv b h; tracks = new-Tracks b; left = unfold new in omega arith })

-- After any history of fewer than 2 ^ 64 - 1 calls, the store satisfies its invariant: the bytes
-- counted are those held, they are within the total budget, every result kept is within the
-- limit for one and stands under its own id, the ids rise in the order of insertion, and the
-- eviction order is the order of the results.
pub run-Inv :
    (b : Budget) (cs : List Call)
    → b.total_bytes + b.single_bytes < 2 ^ 64
    → length cs + 1 < 2 ^ 64
    → Inv (run (new b) cs)
run-Inv b cs h l = (run-new-Sound b cs h l).inv

keys-lookup : (id : ℕ) (m : Items) → (lookup id m ≡ none) ↔ (contains (keys m) id ≡ false)
unfolding lookup contains
keys-lookup id [] = (λ e. refl, λ e. refl)
keys-lookup id ((k, r) ∷ m) = ground (arith, (keys-lookup id m).0, (keys-lookup id m).1)

get-unknown_iff :
    (s : ResultStore) (id scope : ℕ) → (get s id scope ≡ err unknown) ↔ (known s id ≡ false)
unfolding get
get-unknown_iff s id scope = (
  λ e. ground (arith, (keys-lookup id s.items).0),
  λ e. ground (arith, (keys-lookup id s.items).1),
)

-- After any such history, "no such id" is the answer for exactly the ids that were never handed
-- out: 0 and those from the next id on. A result that was evicted or refused is never unknown.
pub run-unknown_iff :
    (b : Budget) (cs : List Call) (id scope : ℕ)
    → b.total_bytes + b.single_bytes < 2 ^ 64
    → length cs + 1 < 2 ^ 64
    → (get (run (new b) cs) id scope ≡ err unknown) ↔ ((id ≡ 0) ⊎ ((run (new b) cs).next_id ≤ id))
run-unknown_iff b cs id scope h l =
    let s = run (new b) cs in
    let tracked : known s id ≡ issued s id = (run-new-Sound b cs h l).tracks id in
    let fate = get-unknown_iff s id scope in
    (λ e. ground (arith, tracked, fate.0 e), λ e. fate.1 (ground (arith, tracked)))
