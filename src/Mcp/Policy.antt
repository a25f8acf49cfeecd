-- ===== src/Mcp/Policy.antt =====
-- crates/pr-mcp/src/policy.rs: what a policy rule may authorise.
--
-- A string is a list of bytes. `to_lossy` is `String::from_utf8_lossy` of the standard library, a
-- parameter. Identifiers and texts for people are not modelled, but for the name of an effect.
pub mod Grants
mod Examples
use penguin_redis.Prelude.{
  ℕ, zero, suc, ◌+◌, Bool, true, false, not, ◌&&◌, ◌||◌, Option, none, some, List, [], ◌∷◌, Result,
  ok, err, ltb, leb, ◌==◌, if◌then◌else◌, codes, length,
}
use penguin_redis.Core.Request.{Effects, CommandRequest}
use penguin_redis.Mcp.Glob.{glob_bytes}

pub record PolicyRule : Type 0 where
  pub id : List ℕ
  pub version : ℕ
  pub key_patterns : List (List ℕ)
  pub max_result_bytes : ℕ
  pub max_calls_per_hour : ℕ

pub data PolicyRefusal : Type 0 where
  not_read_only : List ℕ → PolicyRefusal
  unclassified no_key_patterns no_keys plan_execution_is_always_human : PolicyRefusal
  key_not_listed : List ℕ → PolicyRefusal
  result_too_large rate_limited : ℕ → ℕ → PolicyRefusal

unfoldable pub beyond_read_only : Effects → Option (List ℕ)
beyond_read_only e =
    if e.unknown
    then some (codes "unclassified")
    else if e.writes_data
    then some (codes "a write")
    else if e.destructive
    then some (codes "destructive")
    else if e.consumes
    then some (codes "a consuming read")
    else if e.admin
    then some (codes "administrative")
    else if e.blocks
    then some (codes "potentially blocking")
    else none

-- `glob_match`; without an answer of the matcher, no match.
unfoldable pub glob_match : List ℕ → List ℕ → Bool
unfolding glob_bytes
glob_match pattern key = elim (glob_bytes pattern key) [ some answer ↦ answer | none ↦ false ]

unfoldable pub any_match : List (List ℕ) → List ℕ → Bool
unfolding glob_match
any_match [] key = false
any_match (p ∷ patterns) key = glob_match p key || any_match patterns key

unfoldable pub is_empty {ℓ} : {A : Type ℓ} → List A → Bool
is_empty [] = true
is_empty (a ∷ as') = false

module _ (to_lossy : List ℕ → List ℕ) where
  -- The loop over the keys: the first that no pattern covers.
  unfoldable pub uncovered : List (List ℕ) → List (List ℕ) → Option (List ℕ)
  unfolding any_match
  uncovered patterns [] = none
  uncovered patterns (k ∷ keys) =
      let rest = uncovered patterns keys in
      if not (any_match patterns (to_lossy k)) then some (to_lossy k) else rest

  -- `may_authorise`, behind the effects.
  unfoldable pub may_read :
      PolicyRule → List (List ℕ) → ℕ → ℕ → Result {0, 0} PolicyRefusal (Unit {0})
  unfolding uncovered is_empty
  may_read rule keys estimated_bytes calls_in_last_hour =
      if is_empty rule.key_patterns
      then err no_key_patterns
      else if is_empty keys
      then err no_keys
      else elim (uncovered rule.key_patterns keys) [
        | some key ↦ err (key_not_listed key)
        | none ↦
            if ltb rule.max_result_bytes estimated_bytes
            then err (result_too_large estimated_bytes rule.max_result_bytes)
            else if leb rule.max_calls_per_hour calls_in_last_hour
            then err (rate_limited calls_in_last_hour rule.max_calls_per_hour)
            else ok tt
      ]

  unfoldable pub may_authorise :
      PolicyRule → CommandRequest → List (List ℕ) → ℕ → ℕ → Result {0, 0} PolicyRefusal (Unit {0})
  unfolding beyond_read_only may_read
  may_authorise rule req keys estimated_bytes calls_in_last_hour =
      if req.effects.unknown then err unclassified else elim (beyond_read_only req.effects) [
        | some offending ↦ err (not_read_only offending)
        | none ↦
            if not req.effects.reads_data
            then err (not_read_only (codes "not a data read"))
            else may_read rule keys estimated_bytes calls_in_last_hour
      ]

unfoldable pub may_authorise_plan_execution : PolicyRule → Result {0, 0} PolicyRefusal ⊥
may_authorise_plan_execution rule = err plan_execution_is_always_human
