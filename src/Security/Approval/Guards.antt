-- ===== src/Security/Approval/Guards.antt =====
-- When a token authorises a request.
use penguin_redis.Prelude.{
  ℕ, ◌<◌, ◌≡◌, refl, ◌≢◌, ◌↔◌, ◌⊎◌, inl, inr, true, false, ◌&&◌, ◌||◌, Bool, List, arith, bytes_eq,
  bytes_eq_iff, bytes_eq_sound, Bool-cases,
}
use penguin_redis.Prelude.Result.{ok}
use penguin_redis.Core.Request.{
  CommandRequest, Effects, RequestOrigin, user, tui, recipe, agent, pipe, discovery, mutates,
  requires_human_approval_for_writes,
}
use penguin_redis.Core.Request.Canonical.{FitsWords, canonical_bytes-args}
use penguin_redis.Security.Trust.{TrustIdentity, hash}
use penguin_redis.Security.Approval.{
  Epochs, Issuer, ApprovalToken, ExecutionContext, epochs_eq, is_policy, request_bytes,
  request_hash, for_request, authorise,
}
use penguin_redis.Security.Approval.Issuer.{human, policy}

epochs_eq_iff : (a b : Epochs) → (epochs_eq a b ≡ true) ↔ (a ≡ b)
unfolding epochs_eq
epochs_eq_iff a b = ground arith

-- An effect class of a request that changes nothing.
pub record ChangesNothing (e : Effects) : Type 0 where
  pub no_write : e.writes_data ≡ false
  pub no_consumption : e.consumes ≡ false
  pub no_administration : e.admin ≡ false
  pub no_destruction : e.destructive ≡ false
  pub known : e.unknown ≡ false

-- The origins other than an agent and a pipe.
pub data Attended : RequestOrigin → Type 0 where
  at_prompt : Attended user
  in_tui : Attended tui
  by_recipe : Attended recipe
  by_discovery : Attended discovery

-- Who may have issued a token for a request: a person any, a policy one that changes nothing and
-- comes from neither an agent nor a pipe.
pub data MayIssue (e : Effects) (o : RequestOrigin) : Issuer → Type 0 where
  person : MayIssue e o human
  by_policy : {id : List ℕ} → ChangesNothing e → Attended o → MayIssue e o (policy id)

ChangesNothing-iff : (e : Effects) → (mutates e ≡ false) ↔ ChangesNothing e
unfolding mutates
ChangesNothing-iff e = (
  λ h. record {
    no_write = ground arith;
    no_consumption = ground arith;
    no_administration = ground arith;
    no_destruction = ground arith;
    known = ground arith;
  },
  λ n. rw (n.no_write, n.no_consumption, n.no_administration, n.no_destruction, n.known) refl,
)

Attended-iff : (o : RequestOrigin) → (requires_human_approval_for_writes o ≡ false) ↔ Attended o
unfolding requires_human_approval_for_writes
Attended-iff user = (λ h. at_prompt, λ o. refl)
Attended-iff tui = (λ h. in_tui, λ o. refl)
Attended-iff recipe = (λ h. by_recipe, λ o. refl)
Attended-iff agent = (λ h. absurd cc, λ o. elim o [ ])
Attended-iff pipe = (λ h. absurd cc, λ o. elim o [ ])
Attended-iff discovery = (λ h. by_discovery, λ o. refl)

or-false_iff : (a b : Bool) → ((a || b) ≡ false) ↔ ((a ≡ false) × (b ≡ false))
or-false_iff a b = ground arith

MayIssue-iff :
    (e : Effects) (o : RequestOrigin) (i : Issuer)
    → ((is_policy i && (mutates e || requires_human_approval_for_writes o)) ≡ false)
      ↔ MayIssue e o i
unfolding is_policy
MayIssue-iff e o human = (λ h. person, λ m. refl)
MayIssue-iff e o (policy id) = (allowed, harmless)
  where
    tests :
        ((mutates e || requires_human_approval_for_writes o) ≡ false)
        ↔ ((mutates e ≡ false) × (requires_human_approval_for_writes o ≡ false))
    tests = or-false_iff (mutates e) (requires_human_approval_for_writes o)

    allowed : (mutates e || requires_human_approval_for_writes o) ≡ false → MayIssue e o (policy id)
    allowed h =
        by_policy ((ChangesNothing-iff e).0 (tests.0 h).0) ((Attended-iff o).0 (tests.0 h).1)

    harmless :
        MayIssue e o (policy id) → (mutates e || requires_human_approval_for_writes o) ≡ false
    harmless (by_policy n a) = tests.1 ((ChangesNothing-iff e).1 n, (Attended-iff o).1 a)

-- Everything that has to hold for a token to be good.
pub record Authorised (blake3 : List ℕ → List ℕ) (token : ApprovalToken) (req : CommandRequest)
    (ctx : ExecutionContext) : Type 0 where
  pub profile : token.profile_uuid ≡ ctx.context_profile
  pub identity : token.trust_identity_hash ≡ hash blake3 ctx.trust_identity
  pub database : token.db_index ≡ ctx.context_db
  pub world : token.epochs ≡ ctx.context_epochs
  pub in_time : ctx.now_ms < token.expires_at_ms
  pub in_budget : ctx.actions_used < token.max_actions
  pub bytes : request_hash blake3 req ≡ token.token_request_hash
  pub issuer : MayIssue req.effects req.origin token.issued_by

-- A token authorises a request exactly when the profile, the identity's hash, the database and
-- the epochs are those of the context, it has not expired, it has an action left, the hash of
-- the request is the one in the token, and, if a policy issued it, the request writes, consumes,
-- administers and destroys nothing, is not unknown, and comes from neither an agent nor a pipe.
pub authorise_iff :
    (blake3 : List ℕ → List ℕ) (token : ApprovalToken) (req : CommandRequest)
    (ctx : ExecutionContext)
    → (authorise blake3 token req ctx ≡ ok tt) ↔ Authorised blake3 token req ctx
unfolding authorise
authorise_iff blake3 token req ctx = ground (
  arith,
  bytes_eq_iff token.profile_uuid ctx.context_profile,
  bytes_eq_iff token.trust_identity_hash (hash blake3 ctx.trust_identity),
  epochs_eq_iff token.epochs ctx.context_epochs,
  bytes_eq_iff (request_hash blake3 req) token.token_request_hash,
  MayIssue-iff req.effects req.origin token.issued_by,
)

-- Two different byte strings with one hash.
pub record Collision (blake3 : List ℕ → List ℕ) (a b : List ℕ) : Type 0 where
  pub differ : a ≢ b
  pub collide : blake3 a ≡ blake3 b

same_or_collide :
    (blake3 : List ℕ → List ℕ) (approved req : CommandRequest)
    → FitsWords approved.args
    → FitsWords req.args
    → request_hash blake3 req ≡ request_hash blake3 approved
    → (req.args ≡ approved.args) ⊎ Collision blake3 (request_bytes req) (request_bytes approved)
unfolding request_hash request_bytes
same_or_collide blake3 approved req f g e =
    elim (Bool-cases (bytes_eq (request_bytes req) (request_bytes approved))) [
      | inl same ↦ inl (
          canonical_bytes-args req approved g f
            (ground (arith, bytes_eq_sound (request_bytes req) (request_bytes approved) same)))
      | inr other ↦ inr (record {
        differ = λ p. ground (arith, bytes_eq_iff (request_bytes req) (request_bytes approved));
        collide = e;
      })
    ]

-- A token issued for one request authorises another only if the arguments are the same byte for
-- byte, or the two byte strings hashed are a collision of the hash function.
pub authorise-args :
    (blake3 : List ℕ → List ℕ) (uuid : List ℕ) (identity : TrustIdentity) (db : ℕ) (epochs : Epochs)
    (approved : CommandRequest) (expires_at_ms : ℕ) (issuer : Issuer) (req : CommandRequest)
    (ctx : ExecutionContext)
    → FitsWords approved.args
    → FitsWords req.args
    → authorise blake3
        (for_request blake3 uuid identity db epochs approved expires_at_ms issuer)
        req
        ctx
      ≡ ok tt
    → (req.args ≡ approved.args) ⊎ Collision blake3 (request_bytes req) (request_bytes approved)
unfolding request_hash for_request
authorise-args blake3 uuid identity db epochs approved expires_at_ms issuer req ctx f g h =
    let token = for_request blake3 uuid identity db epochs approved expires_at_ms issuer in
    let good = (authorise_iff blake3 token req ctx).0 h in
    same_or_collide blake3 approved req f g good.bytes

-- The request that was approved is authorised, while nothing it is bound to has changed: in the
-- same profile, identity, database and epochs, before the expiry, as the first action, when a
-- person issued the token.
pub for_request-authorise :
    (blake3 : List ℕ → List ℕ) (approved : CommandRequest) (expires_at_ms : ℕ)
    (ctx : ExecutionContext)
    → ctx.now_ms < expires_at_ms
    → ctx.actions_used ≡ 0
    → authorise blake3
        (for_request blake3 ctx.context_profile ctx.trust_identity ctx.context_db ctx.context_epochs
          approved expires_at_ms human)
        approved
        ctx
      ≡ ok tt
unfolding for_request is_policy request_hash
for_request-authorise blake3 approved expires_at_ms ctx h u =
    (authorise_iff blake3
        (for_request blake3 ctx.context_profile ctx.trust_identity ctx.context_db ctx.context_epochs
          approved expires_at_ms human)
        approved ctx).1
      record {
        profile = refl;
        identity = refl;
        database = refl;
        world = refl;
        in_time = h;
        in_budget = omega arith;
        bytes = refl;
        issuer = person;
      }
