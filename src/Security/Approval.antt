-- ===== src/Security/Approval.antt =====
-- crates/pr-security/src/approval.rs: an approval binds to exact bytes.
--
-- `blake3` is the parameter of Trust.antt. A `String` is its bytes.
pub mod Guards
pub mod Preview
mod Examples
use penguin_redis.Prelude.{
  decimal, ℕ, ◌+◌, ◌/◌, ◌%◌, Bool, true, false, not, ◌&&◌, ◌||◌, List, [], ◌∷◌, ◌++◌, if◌then◌else◌,
  ltb, leb, ◌==◌, length, codes, bytes_eq, to_le_bytes, hex_digit, Result,
}
use penguin_redis.Prelude.Result.{ok, err}
use penguin_redis.Core.Request.{
  CommandRequest, canonical_bytes, mutates, requires_human_approval_for_writes,
}
use penguin_redis.Security.Trust.{TrustIdentity, hash}

pub record Epochs : Type 0 where
  pub auth_identity : ℕ
  pub policy : ℕ
  pub topology : ℕ

pub data Issuer : Type 0 where
  human : Issuer
  policy : List ℕ → Issuer

pub record ApprovalToken : Type 0 where
  pub profile_uuid : List ℕ
  pub trust_identity_hash : List ℕ
  pub db_index : ℕ
  pub epochs : Epochs
  pub token_request_hash : List ℕ
  pub token_plan_hash : List ℕ
  pub max_actions : ℕ
  pub expires_at_ms : ℕ
  pub issued_by : Issuer

pub data ApprovalRefusal : Type 0 where
  request_mismatch profile_mismatch trust_identity_mismatch db_mismatch epoch_changed expired :
      ApprovalRefusal
  action_budget_exhausted policy_cannot_authorise : ApprovalRefusal

pub record ExecutionContext : Type 0 where
  pub context_profile : List ℕ
  pub trust_identity : TrustIdentity
  pub context_db : ℕ
  pub context_epochs : Epochs
  pub now_ms : ℕ
  pub actions_used : ℕ

unfoldable pub epochs_eq : Epochs → Epochs → Bool
epochs_eq a b =
    a.auth_identity == b.auth_identity && a.policy == b.policy && a.topology == b.topology

unfoldable pub is_policy : Issuer → Bool
is_policy human = false
is_policy (policy id) = true

unfoldable pub request_bytes : CommandRequest → List ℕ
request_bytes req = codes "penguin.request.v1" ++ (0 ∷ canonical_bytes req)

unfoldable pub plan_items : List CommandRequest → List ℕ
plan_items [] = []
plan_items (r ∷ rest) =
    to_le_bytes (length (canonical_bytes r)) ++ (canonical_bytes r ++ plan_items rest)

unfoldable pub plan_bytes : List CommandRequest → List ℕ
plan_bytes reqs = codes "penguin.plan.v1" ++ (0 ∷ (to_le_bytes (length reqs) ++ plan_items reqs))

module _ (blake3 : List ℕ → List ℕ) where
  unfoldable pub request_hash : CommandRequest → List ℕ
  request_hash req = blake3 (request_bytes req)

  unfoldable pub plan_hash : List CommandRequest → List ℕ
  plan_hash reqs = blake3 (plan_bytes reqs)

  unfoldable pub for_request :
      List ℕ → TrustIdentity → ℕ → Epochs → CommandRequest → ℕ → Issuer → ApprovalToken
  for_request profile_uuid identity db_index epochs req expires_at_ms issued_by = record {
    profile_uuid = profile_uuid;
    trust_identity_hash = hash blake3 identity;
    db_index = db_index;
    epochs = epochs;
    token_request_hash = request_hash req;
    token_plan_hash = request_hash req;
    max_actions = 1;
    expires_at_ms = expires_at_ms;
    issued_by = issued_by;
  }

  unfoldable pub authorise :
      ApprovalToken → CommandRequest → ExecutionContext → Result {0, 0} ApprovalRefusal Unit
  authorise token req ctx =
      if not (bytes_eq token.profile_uuid ctx.context_profile)
      then err profile_mismatch
      else if not (bytes_eq token.trust_identity_hash (hash blake3 ctx.trust_identity))
      then err trust_identity_mismatch
      else if not (token.db_index == ctx.context_db)
      then err db_mismatch
      else if not (epochs_eq token.epochs ctx.context_epochs)
      then err epoch_changed
      else if leb token.expires_at_ms ctx.now_ms
      then err expired
      else if leb token.max_actions ctx.actions_used
      then err action_budget_exhausted
      else if not (bytes_eq (request_hash req) token.token_request_hash)
      then err request_mismatch
      else if is_policy token.issued_by
          && (mutates req.effects || requires_human_approval_for_writes req.origin)
      then err policy_cannot_authorise
      else ok tt

unfoldable pub escape_byte : ℕ → List ℕ
escape_byte c =
    if c == b'"'
    then b'\\' ∷ b'"' ∷ []
    else if c == b'\\'
    then b'\\' ∷ b'\\' ∷ []
    else if leb 32 c && leb c 126
    then c ∷ []
    else b'\\' ∷ b'x' ∷ hex_digit (c / 16) ∷ hex_digit (c % 16) ∷ []

unfoldable pub escape_bytes : List ℕ → List ℕ
escape_bytes [] = []
escape_bytes (c ∷ rest) = escape_byte c ++ escape_bytes rest

-- `preview`: a number is below ten to the 20th.
unfoldable pub preview_line : ℕ → List ℕ → List ℕ
preview_line i a =
    codes "argv["
    ++ decimal 20 i
    ++ codes "] len="
    ++ decimal 20 (length a)
    ++ codes " \""
    ++ escape_bytes a
    ++ (b'"' ∷ 10 ∷ [])

unfoldable pub preview_lines : ℕ → List (List ℕ) → List ℕ
preview_lines i [] = []
preview_lines i (a ∷ rest) = preview_line i a ++ preview_lines (i + 1) rest

unfoldable pub preview : CommandRequest → List ℕ
preview req = codes "argc=" ++ decimal 20 (length req.args) ++ (10 ∷ preview_lines 0 req.args)
