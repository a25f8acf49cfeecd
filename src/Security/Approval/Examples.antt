-- ===== src/Security/Approval/Examples.antt =====
-- A token and its context, and the witnesses of the results on approvals.
use penguin_redis.Prelude.{
  ℕ, ◌≡◌, refl, ◌↔◌, ◌⊎◌, List, [], ◌∷◌, arith, codes, none, bytes_eq, to_le_bytes,
}
use penguin_redis.Prelude.Result.{ok, err}
use penguin_redis.Core.Request.{
  CommandRequest, user, read, write, mutates, requires_human_approval_for_writes, default_budget,
  canonical_args, canonical_bytes,
}
use penguin_redis.Security.Trust.{
  TrustIdentity, unix, no_tls, standalone, hash, hash_endpoint, hash_server, hash_tls,
  identity_bytes, username_bytes,
}
use penguin_redis.Security.Approval.{
  ExecutionContext, ApprovalToken, human, policy, is_policy, authorise, for_request, request_bytes,
  request_mismatch, epochs_eq, request_hash,
}
use penguin_redis.Security.Approval.Guards.{
  Authorised, Collision, authorise_iff, authorise-args, for_request-authorise,
}

abbrev identity_hash : List ℕ → List ℕ
identity_hash b = b

abbrev local : TrustIdentity
local = record {
  endpoint = unix (codes "/tmp/redis.sock");
  tls_identity = no_tls;
  server_identity = standalone none;
  auth_identity = record { username = none; secret_ref = [] };
}

abbrev now : ExecutionContext
now = record {
  context_profile = codes "p1";
  trust_identity = local;
  context_db = 0;
  context_epochs = record { auth_identity = 1; policy = 0; topology = 0 };
  now_ms = 1_000;
  actions_used = 0;
}

abbrev delete : CommandRequest
delete = record {
  args = codes "DEL" ∷ codes "player:1" ∷ [];
  origin = user;
  effects = write;
  budget = default_budget;
}

abbrev other : CommandRequest
other = record delete { args = codes "DEL" ∷ codes "player:2" ∷ [] }

abbrev token : ApprovalToken
unfolding for_request
token = for_request identity_hash (codes "p1") local 0 now.context_epochs delete 10_000 human

refused : authorise identity_hash token other now ≡ err request_mismatch
unfolding authorise for_request bytes_eq hash identity_bytes hash_endpoint hash_tls hash_server
    username_bytes epochs_eq request_hash request_bytes canonical_bytes to_le_bytes canonical_args
refused = refl

-- A token from a policy, for a request that reads.
abbrev fetch : CommandRequest
fetch = record delete { args = codes "GET" ∷ codes "player:1" ∷ []; effects = read }

abbrev standing : ApprovalToken
unfolding for_request
standing =
    for_request identity_hash (codes "p1") local 0 now.context_epochs fetch 10_000
      (policy (codes "reads"))

standing-fetch : authorise identity_hash standing fetch now ≡ ok tt
unfolding authorise for_request bytes_eq hash identity_bytes hash_endpoint hash_tls hash_server
    username_bytes epochs_eq request_hash request_bytes canonical_bytes to_le_bytes canonical_args
    is_policy mutates requires_human_approval_for_writes
standing-fetch = refl

authorise_iff_example :
    (authorise identity_hash standing fetch now ≡ ok tt)
    ↔ Authorised identity_hash standing fetch now
authorise_iff_example = authorise_iff identity_hash standing fetch now

delete-authorised :
    authorise identity_hash
      (for_request identity_hash now.context_profile now.trust_identity now.context_db
        now.context_epochs delete 10_000 human)
      delete
      now
    ≡ ok tt
delete-authorised = for_request-authorise identity_hash delete 10_000 now (omega arith) refl

authorise-args_example :
    (delete.args ≡ delete.args)
    ⊎ Collision identity_hash (request_bytes delete) (request_bytes delete)
authorise-args_example =
    authorise-args identity_hash (codes "p1") local 0 now.context_epochs delete 10_000 human delete
      now (omega arith, (omega arith, (omega arith, tt)))
      (omega arith, (omega arith, (omega arith, tt))) delete-authorised
