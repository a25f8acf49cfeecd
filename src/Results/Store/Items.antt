-- ===== src/Results/Store/Items.antt =====
-- The map of the store: ids in rising order, as `put` hands them out.
use penguin_redis.Prelude.{
  ℕ, suc, ◌+◌, ◌≤◌, ◌<◌, ◌≡◌, ◌≢◌, refl, ap, none, some, List, [], ◌∷◌, ◌++◌, arith, length,
}
use penguin_redis.Results.Store.{Retained, Items, lookup, remove, insert, retain_ne}

abbrev pub keys : Items → List ℕ
keys [] = []
keys ((k, r) ∷ m) = k ∷ keys m

-- The bytes that the results hold.
abbrev pub weight : Items → ℕ
weight [] = 0
weight ((k, r) ∷ m) = length r.bytes + weight m

-- The ids rise, from `lo` on and below `hi`.
abbrev pub Rising : ℕ → ℕ → Items → Type 0
Rising lo hi [] = lo ≤ hi
Rising lo hi ((k, r) ∷ m) = (lo ≤ k) × Rising (suc k) hi m

-- Each result names its id, and is within the limit.
abbrev pub Fits : ℕ → Items → Type 0
Fits limit [] = Unit {0}
Fits limit ((k, r) ∷ m) = (r.handle ≡ k) × (length r.bytes ≤ limit) × Fits limit m

pub Rising-mono : (a b hi : ℕ) (m : Items) → a ≤ b → Rising b hi m → Rising a hi m
Rising-mono a b hi [] h k = omega arith
Rising-mono a b hi ((j, r) ∷ m) h k = (omega arith, k.1)

pub Rising-raise : (lo a b : ℕ) (m : Items) → a ≤ b → Rising lo a m → Rising lo b m
Rising-raise lo a b [] h k = omega arith
Rising-raise lo a b ((j, r) ∷ m) h k = (k.0, Rising-raise (suc j) a b m h k.1)

pub Rising-bounds : (lo hi : ℕ) (m : Items) → Rising lo hi m → lo ≤ hi
Rising-bounds lo hi [] h = h
Rising-bounds lo hi ((k, r) ∷ m) h = omega (arith, Rising-bounds (suc k) hi m h.1)

pub lookup_below : (id lo hi : ℕ) (m : Items) → Rising lo hi m → id < lo → lookup id m ≡ none
unfolding lookup
lookup_below id lo hi [] h l = refl
lookup_below id lo hi ((k, r) ∷ m) h l = ground (arith, lookup_below id (suc k) hi m h.1)

pub lookup_above : (id lo hi : ℕ) (m : Items) → Rising lo hi m → hi ≤ id → lookup id m ≡ none
unfolding lookup
lookup_above id lo hi [] h l = refl
lookup_above id lo hi ((k, r) ∷ m) h l =
    ground (arith, lookup_above id (suc k) hi m h.1, Rising-bounds (suc k) hi m h.1)

pub insert_fresh :
    (id lo : ℕ) (v : Retained) (m : Items) → Rising lo id m → insert id v m ≡ m ++ (id, v) ∷ []
unfolding insert
insert_fresh id lo v [] h = refl
insert_fresh id lo v ((k, r) ∷ m) h =
    ground (arith, insert_fresh id (suc k) v m h.1, Rising-bounds (suc k) id m h.1)

pub Rising-append :
    (lo id hi : ℕ) (v : Retained) (m : Items)
    → Rising lo id m
    → id < hi
    → Rising lo hi (m ++ (id, v) ∷ [])
Rising-append lo id hi v [] h l = (h, l)
Rising-append lo id hi v ((k, r) ∷ m) h l = (h.0, Rising-append (suc k) id hi v m h.1 l)

pub Rising-suffix : (lo hi : ℕ) (a b : Items) → Rising lo hi (a ++ b) → Rising lo hi b
Rising-suffix lo hi [] b h = h
Rising-suffix lo hi ((k, r) ∷ a) b h =
    Rising-mono lo (suc k) hi b (omega arith) (Rising-suffix (suc k) hi a b h.1)

pub Fits-suffix : (limit : ℕ) (a b : Items) → Fits limit (a ++ b) → Fits limit b
Fits-suffix limit [] b h = h
Fits-suffix limit ((k, r) ∷ a) b h = Fits-suffix limit a b h.2

pub Fits-append : (limit : ℕ) (a b : Items) → Fits limit a → Fits limit b → Fits limit (a ++ b)
Fits-append limit [] b h k = k
Fits-append limit ((j, r) ∷ a) b h k = (h.0, h.1, Fits-append limit a b h.2 k)

pub keys-append : (a b : Items) → keys (a ++ b) ≡ keys a ++ keys b
keys-append [] b = refl
keys-append ((k, r) ∷ a) b = ap (λ t. k ∷ t) (keys-append a b)

pub weight-append : (a b : Items) → weight (a ++ b) ≡ weight a + weight b
weight-append [] b = omega arith
weight-append ((k, r) ∷ a) b = omega (arith, weight-append a b)

pub lookup-append_fresh :
    (id lo : ℕ) (v : Retained) (m : Items) → Rising lo id m → lookup id (m ++ (id, v) ∷ []) ≡ some v
unfolding lookup
lookup-append_fresh id lo v [] h = ground arith
lookup-append_fresh id lo v ((k, r) ∷ m) h =
    ground (arith, lookup-append_fresh id (suc k) v m h.1, Rising-bounds (suc k) id m h.1)

pub lookup-append_ne :
    (j id : ℕ) (v : Retained) (m : Items) → j ≢ id → lookup j (m ++ (id, v) ∷ []) ≡ lookup j m
unfolding lookup
lookup-append_ne j id v [] h = ground arith
lookup-append_ne j id v ((k, r) ∷ m) h = ground (arith, lookup-append_ne j id v m h)

-- Behind a prefix, an id is found in the rest or in the prefix.
pub lookup-suffix :
    (id lo hi : ℕ) (a b : Items) (r : Retained)
    → Rising lo hi (a ++ b)
    → lookup id b ≡ some r
    → lookup id (a ++ b) ≡ some r
unfolding lookup
lookup-suffix id lo hi [] b r h e = e
lookup-suffix id lo hi ((k, x) ∷ a) b r h e = ground (
  arith,
  lookup-suffix id (suc k) hi a b r h.1 e,
  lookup_below id (suc k) hi b (Rising-suffix (suc k) hi a b h.1),
)

-- Taking a result out.
pub weight-remove :
    (id : ℕ) (m : Items) (r : Retained)
    → lookup id m ≡ some r
    → weight (remove id m) + length r.bytes ≡ weight m
unfolding lookup remove
weight-remove id [] r e = cc
weight-remove id ((k, x) ∷ m) r e = ground (arith, weight-remove id m r)

pub weight-remove-le : (id : ℕ) (m : Items) → weight (remove id m) ≤ weight m
unfolding remove
weight-remove-le id [] = omega arith
weight-remove-le id ((k, x) ∷ m) = ground (arith, weight-remove-le id m)

pub Rising-remove : (id lo hi : ℕ) (m : Items) → Rising lo hi m → Rising lo hi (remove id m)
unfolding remove
Rising-remove id lo hi [] h = h
Rising-remove id lo hi ((k, x) ∷ m) h =
    ground (arith, Rising-remove id (suc k) hi m h.1, Rising-mono lo (suc k) hi m (omega arith) h.1)

pub Fits-remove : (id limit : ℕ) (m : Items) → Fits limit m → Fits limit (remove id m)
unfolding remove
Fits-remove id limit [] h = h
Fits-remove id limit ((k, x) ∷ m) h = ground (arith, Fits-remove id limit m h.2)

retain_ne-keys_below :
    (id lo hi : ℕ) (m : Items) → Rising lo hi m → id < lo → retain_ne id (keys m) ≡ keys m
unfolding retain_ne
retain_ne-keys_below id lo hi [] h l = refl
retain_ne-keys_below id lo hi ((k, x) ∷ m) h l =
    ground (arith, retain_ne-keys_below id (suc k) hi m h.1)

pub retain_ne-keys :
    (id lo hi : ℕ) (m : Items) → Rising lo hi m → retain_ne id (keys m) ≡ keys (remove id m)
unfolding retain_ne remove
retain_ne-keys id lo hi [] h = refl
retain_ne-keys id lo hi ((k, x) ∷ m) h =
    ground (arith, retain_ne-keys id (suc k) hi m h.1, retain_ne-keys_below id (suc k) hi m h.1)

pub lookup-remove_self :
    (id lo hi : ℕ) (m : Items) → Rising lo hi m → lookup id (remove id m) ≡ none
unfolding lookup remove
lookup-remove_self id lo hi [] h = refl
lookup-remove_self id lo hi ((k, x) ∷ m) h =
    ground (arith, lookup-remove_self id (suc k) hi m h.1, lookup_below id (suc k) hi m h.1)

pub lookup-remove_ne : (j id : ℕ) (m : Items) → j ≢ id → lookup j (remove id m) ≡ lookup j m
unfolding lookup remove
lookup-remove_ne j id [] h = refl
lookup-remove_ne j id ((k, x) ∷ m) h = ground (arith, lookup-remove_ne j id m h)

pub remove_missing : (id : ℕ) (m : Items) → lookup id m ≡ none → remove id m ≡ m
unfolding lookup remove
remove_missing id [] e = refl
remove_missing id ((k, x) ∷ m) e = ground (arith, remove_missing id m)
