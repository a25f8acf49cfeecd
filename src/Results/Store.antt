-- ===== src/Results/Store.antt =====
-- crates/pr-results/src/store.rs: the bounded store of results.
--
-- A handle is its number. The `HashMap` is an association list in insertion order: the source
-- observes its order only by the order of `evicted`, which it asks for membership alone. A `u64`
-- keeps its wrap-around (`u64`, and `sub64` for `-=`).
pub mod Items
pub mod Invariant
pub mod Put
pub mod Keeps
pub mod Tracks
pub mod History
pub mod Scopes
pub mod Oversize
pub mod Answers
mod Examples
use penguin_redis.Prelude.{
  ℕ, zero, suc, ◌+◌, ◌-◌, ◌*◌, ◌%◌, ◌^◌, Bool, true, false, not, ◌&&◌, Option, none, some, List, [],
  ◌∷◌, ◌++◌, Result, ok, err, ltb, ◌==◌, if◌then◌else◌, length, u64,
}

pub record Budget : Type 0 where
  pub total_bytes : ℕ
  pub single_bytes : ℕ

abbrev pub default_budget : Budget
default_budget = record { total_bytes = 64 * 1024 * 1024; single_bytes = 16 * 1024 * 1024 }

pub data Unavailable : Type 0 where
  too_large evicted unknown scope_expired : Unavailable

pub record Retained : Type 0 where
  pub handle : ℕ
  pub bytes : List ℕ
  pub scope_epoch : ℕ

pub data OversizeAction : Type 0 where
  prompt : ℕ → OversizeAction
  stream_and_mark stream_only : OversizeAction

pub record OutputContext : Type 0 where
  pub interactive : Bool
  pub declared_len : Option ℕ
  pub output_started : Bool

-- The arm for a length that is declared.
pub oversize_declared : OutputContext → Budget → Option ℕ → OversizeAction
oversize_declared ctx budget none = stream_and_mark
oversize_declared ctx budget (some n) =
    if not ctx.output_started && ltb budget.single_bytes n then prompt n else stream_and_mark

unfoldable pub oversize_action : OutputContext → Budget → OversizeAction
unfolding oversize_declared
oversize_action ctx budget =
    if not ctx.interactive then stream_only else oversize_declared ctx budget ctx.declared_len

-- The map from ids to results.
abbrev pub Items : Type 0
Items = List (ℕ × Retained)

unfoldable pub lookup : ℕ → Items → Option Retained
lookup id [] = none
lookup id ((k, r) ∷ m) = if k == id then some r else lookup id m

unfoldable pub remove : ℕ → Items → Items
remove id [] = []
remove id ((k, r) ∷ m) = if k == id then m else (k, r) ∷ remove id m

unfoldable pub insert : ℕ → Retained → Items → Items
insert id v [] = (id, v) ∷ []
insert id v ((k, r) ∷ m) = if k == id then (id, v) ∷ m else (k, r) ∷ insert id v m

-- `Vec::contains`.
unfoldable pub contains : List ℕ → ℕ → Bool
contains [] id = false
contains (x ∷ xs) id = if x == id then true else contains xs id

-- `retain(|o| o != id)`.
unfoldable pub retain_ne : ℕ → List ℕ → List ℕ
retain_ne id [] = []
retain_ne id (x ∷ xs) = if x == id then retain_ne id xs else x ∷ retain_ne id xs

pub record ResultStore : Type 0 where
  pub budget : Budget
  pub order : List ℕ
  pub items : Items
  pub evicted : List ℕ
  pub too_large : List ℕ
  pub used : ℕ
  pub next_id : ℕ

unfoldable pub new : Budget → ResultStore
new budget = record {
  budget = budget;
  order = [];
  items = [];
  evicted = [];
  too_large = [];
  used = 0;
  next_id = 1;
}

abbrev pub sub64 : ℕ → ℕ → ℕ
sub64 a b = u64 (a + 2 ^ 64 - b)

-- The body of the loop in `put`, behind `self.order.remove(0)`.
pub evict : ℕ → ResultStore → ResultStore
unfolding lookup remove
evict oldest s = elim (lookup oldest s.items) [
  | none ↦ s
  | some old ↦ record s {
    items = remove oldest s.items;
    used = sub64 s.used (length old.bytes);
    evicted = s.evicted ++ oldest ∷ [];
  }
]

-- The loop in `put`: its rounds are bounded by the list `order`, of which each takes one.
pub make_room : ℕ → List ℕ → ResultStore → ResultStore
make_room size [] s = record s { order = [] }
make_room size (oldest ∷ rest) s = elim (ltb s.budget.total_bytes (u64 (s.used + size))) [
  | true ↦ make_room size rest (evict oldest (record s { order = rest }))
  | false ↦ record s { order = oldest ∷ rest }
]

pub refuse : ℕ → ResultStore → ResultStore
refuse id s = record s { too_large = s.too_large ++ id ∷ [] }

-- What `put` does once there is room, or no result left to evict.
pub place : ℕ → List ℕ → ℕ → ResultStore → ResultStore
unfolding insert refuse
place id bytes scope_epoch s =
    if ltb s.budget.total_bytes (u64 (s.used + length bytes)) then refuse id s else record s {
      used = u64 (s.used + length bytes);
      order = s.order ++ id ∷ [];
      items = insert id (record { handle = id; bytes = bytes; scope_epoch = scope_epoch }) s.items;
    }

unfoldable pub put : ResultStore → List ℕ → ℕ → ResultStore × ℕ
unfolding make_room evict place refuse
put s bytes scope_epoch =
    let id = s.next_id in
    let s' = record s { next_id = u64 (id + 1) } in
    if ltb s.budget.single_bytes (length bytes)
    then (refuse id s', id)
    else (place id bytes scope_epoch (make_room (length bytes) s'.order s'), id)

-- The answer for a result that is not among the items.
pub missing : ResultStore → ℕ → Unavailable
unfolding contains
missing s handle =
    if contains s.evicted handle
    then evicted
    else if contains s.too_large handle
    then too_large
    else unknown

unfoldable pub get : ResultStore → ℕ → ℕ → Result Unavailable Retained
unfolding missing lookup
get s handle current_scope = elim (lookup handle s.items) [
  | none ↦ err (missing s handle)
  | some r ↦ if r.scope_epoch == current_scope then ok r else err scope_expired
]

-- The ids whose result was captured in another scope.
pub doomed : ℕ → Items → List ℕ
doomed keep [] = []
doomed keep ((k, r) ∷ m) = if r.scope_epoch == keep then doomed keep m else k ∷ doomed keep m

-- The body of the loop in `invalidate_scope`.
pub expire : ℕ → ResultStore → ResultStore
unfolding lookup remove retain_ne
expire id s =
    let s' : ResultStore = elim (lookup id s.items) [
      | none ↦ s
      | some r ↦ record s { items = remove id s.items; used = sub64 s.used (length r.bytes) }
    ] in
    record s' { order = retain_ne id s'.order; evicted = s'.evicted ++ id ∷ [] }

pub expire_all : List ℕ → ResultStore → ResultStore
unfolding expire
expire_all [] s = s
expire_all (id ∷ ids) s = expire_all ids (expire id s)

unfoldable pub invalidate_scope : ResultStore → ℕ → ResultStore × ℕ
unfolding doomed expire_all
invalidate_scope s keep_epoch =
    let ids = doomed keep_epoch s.items in (expire_all ids s, length ids)
