-- ===== src/Protocol/Value.antt =====
-- crates/pr-protocol/src/value.rs: decoded RESP values.
--
-- `Bytes` is a list of bytes. A vector of values is the type `Values`, and one of pairs `Pairs`.
use penguin_redis.Prelude.{ℕ, ◌+◌, Bool, true, false, List, [], ◌∷◌, max}

-- An `i64`: `negsuc n` is -(n + 1).
pub data ℤ : Type 0 where
  pos negsuc : ℕ → ℤ

pub data NullForm : Type 0 where
  null_bulk null_array null_resp3 : NullForm

mutual
  pub data Value : Type 0 where
    simple error bulk double big_number bulk_error : List ℕ → Value
    integer : ℤ → Value
    null : NullForm → Value
    boolean : Bool → Value
    verbatim : List ℕ → List ℕ → Value
    array set push : Values → Value
    map_of : Pairs → Value
    attribute : Pairs → Value → Value

  pub data Values : Type 0 where
    nil : Values
    cons : Value → Values → Values

  pub data Pairs : Type 0 where
    nil_pair : Pairs
    cons_pair : Value → Value → Pairs → Pairs

unfoldable pub to_values : List Value → Values
to_values [] = nil
to_values (v ∷ vs) = cons v (to_values vs)

unfoldable pub to_pairs : List (Value × Value) → Pairs
to_pairs [] = nil_pair
to_pairs ((k, v) ∷ kvs) = cons_pair k v (to_pairs kvs)

-- `depth`: a leaf is 1 deep, and `max_depth` is `max().unwrap_or(0)`.
unfoldable mutual
  pub depth : Value → ℕ
  depth (array vs) = 1 + max_depth vs
  depth (set vs) = 1 + max_depth vs
  depth (push vs) = 1 + max_depth vs
  depth (map_of kvs) = 1 + max_depth_pairs kvs
  depth (attribute kvs v) = 1 + max (max_depth_pairs kvs) (depth v)
  depth _ = 1

  pub max_depth : Values → ℕ
  max_depth nil = 0
  max_depth (cons v vs) = max (depth v) (max_depth vs)

  pub max_depth_pairs : Pairs → ℕ
  max_depth_pairs nil_pair = 0
  max_depth_pairs (cons_pair k v kvs) = max (max (depth k) (depth v)) (max_depth_pairs kvs)

unfoldable mutual
  pub leaf_count : Value → ℕ
  leaf_count (array vs) = leaf_count_all vs
  leaf_count (set vs) = leaf_count_all vs
  leaf_count (push vs) = leaf_count_all vs
  leaf_count (map_of kvs) = leaf_count_pairs kvs
  leaf_count (attribute kvs v) = leaf_count_pairs kvs + leaf_count v
  leaf_count _ = 1

  pub leaf_count_all : Values → ℕ
  leaf_count_all nil = 0
  leaf_count_all (cons v vs) = leaf_count v + leaf_count_all vs

  pub leaf_count_pairs : Pairs → ℕ
  leaf_count_pairs nil_pair = 0
  leaf_count_pairs (cons_pair k v kvs) = (leaf_count k + leaf_count v) + leaf_count_pairs kvs

unfoldable pub is_push : Value → Bool
is_push (push vs) = true
is_push _ = false
