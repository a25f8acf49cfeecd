-- ===== src/Security/Trust/Binding.antt =====
-- Comparing identities against what the hashes of them cover.
use penguin_redis.Prelude.{
  ℕ, ◌≡◌, refl, ap, ap₂, ◌≢◌, ◌↔◌, true, false, Option, none, some, List, [], ◌∷◌, ◌++◌, arith,
  codes, append_assoc, bytes_eq_iff, length, length-append,
}
use penguin_redis.Security.Trust.{
  TrustIdentity, AuthIdentity, ServerIdentity, hash, credential_binding_hash, identity_bytes,
  binding_bytes, hash_server, hash_tls, username_bytes, compare, requires_rebind, auth_eq,
  option_eq, server_changed,
}
use penguin_redis.Security.Trust.RebindVerdict.{auth_identity_changed}
use penguin_redis.Security.Trust.ServerIdentity.{standalone, sentinel, cluster}
use penguin_redis.Security.Trust.Rotation.{tls_eq_iff}

option_eq_iff : (a b : Option (List ℕ)) → (option_eq a b ≡ true) ↔ (a ≡ b)
unfolding option_eq
option_eq_iff none none = ground arith
option_eq_iff none (some b) = ground arith
option_eq_iff (some a) none = ground arith
option_eq_iff (some a) (some b) = ground (arith, bytes_eq_iff a b)

auth_eq_iff : (a b : AuthIdentity) → (auth_eq a b ≡ true) ↔ (a ≡ b)
unfolding auth_eq
auth_eq_iff a b =
    ground (arith, option_eq_iff a.username b.username, bytes_eq_iff a.secret_ref b.secret_ref)

-- One logical service: the same kind, and the same master or the same set of nodes.
unfoldable pub SameService : ServerIdentity → ServerIdentity → Type 0
SameService (standalone r) (standalone s) = Unit
SameService (sentinel m x) (sentinel n y) = m ≡ n
SameService (cluster m x) (cluster n y) = m ≡ n
SameService _ _ = ⊥

server_changed_iff : (s p : ServerIdentity) → (server_changed s p ≡ false) ↔ SameService s p
unfolding server_changed SameService
server_changed_iff (standalone r) (standalone q) = ground arith
server_changed_iff (standalone r) (sentinel b y) = ground arith
server_changed_iff (standalone r) (cluster b y) = ground arith
server_changed_iff (sentinel a x) (standalone q) = ground arith
server_changed_iff (sentinel a x) (sentinel b y) = ground (arith, bytes_eq_iff a b)
server_changed_iff (sentinel a x) (cluster b y) = ground arith
server_changed_iff (cluster a x) (standalone q) = ground arith
server_changed_iff (cluster a x) (sentinel b y) = ground arith
server_changed_iff (cluster a x) (cluster b y) = ground (arith, bytes_eq_iff a b)

-- No rebind is asked for exactly when the principal and the TLS identity are the ones trusted
-- before and the service is the same.
pub compare_iff :
    (t previous : TrustIdentity)
    → (requires_rebind (compare t previous) ≡ false) ↔ (
        (t.auth_identity ≡ previous.auth_identity)
        × (t.tls_identity ≡ previous.tls_identity)
        × SameService t.server_identity previous.server_identity)
unfolding compare requires_rebind
compare_iff t previous = ground (
  arith,
  auth_eq_iff t.auth_identity previous.auth_identity,
  tls_eq_iff t.tls_identity previous.tls_identity,
  server_changed_iff t.server_identity previous.server_identity,
)

hash_server-same : (s p : ServerIdentity) → SameService s p → hash_server s ≡ hash_server p
unfolding hash_server SameService
hash_server-same (standalone r) (standalone q) h = refl
hash_server-same (standalone r) (sentinel b y) h = absurd h
hash_server-same (standalone r) (cluster b y) h = absurd h
hash_server-same (sentinel a x) (standalone q) h = absurd h
hash_server-same (sentinel a x) (cluster b y) h = absurd h
hash_server-same (cluster a x) (standalone q) h = absurd h
hash_server-same (cluster a x) (sentinel b y) h = absurd h
hash_server-same (sentinel a x) (sentinel b y) h = rw h refl
hash_server-same (cluster a x) (cluster b y) h = rw h refl

-- When no rebind is asked for, the credential stays bound: the two identities have one
-- credential binding hash, whatever the hash function.
pub compare-credential_binding_hash :
    (blake3 : List ℕ → List ℕ) (t previous : TrustIdentity)
    → requires_rebind (compare t previous) ≡ false
    → credential_binding_hash blake3 t ≡ credential_binding_hash blake3 previous
unfolding credential_binding_hash binding_bytes
compare-credential_binding_hash blake3 t previous h =
    let q = (compare_iff t previous).0 h in
    ap₂ (λ a b. blake3 (codes "penguin.credential-binding.v1" ++ (0 ∷ []) ++ hash_tls a ++ b)) q.1
      (hash_server-same t.server_identity previous.server_identity q.2)

-- The two identities of `hash_ambiguous`: the letters `x` end the master's name, or begin the
-- user's.
unfoldable pub with_master : TrustIdentity → List ℕ → List ℕ → List ℕ → List ℕ → TrustIdentity
with_master t master set user secret = record t {
  server_identity = sentinel master set;
  auth_identity = record { username = some user; secret_ref = secret };
}

prefix-nil : (x u : List ℕ) → u ≡ x ++ u → x ≡ []
prefix-nil [] u e = refl
prefix-nil (c ∷ x) u e = absurd (omega (arith, length-append x u, ap length e))

-- A longer username is another principal.
auth_eq-prefix :
    (x u secret : List ℕ)
    → x ≢ []
    → auth_eq
        (record { username = some u; secret_ref = secret })
        (record { username = some (x ++ u); secret_ref = secret })
      ≡ false
unfolding auth_eq option_eq
auth_eq-prefix x u secret n = ground (arith, bytes_eq_iff u (x ++ u), prefix-nil x u)

-- The hash that an approval binds to has a second reading: when `x` is not empty, the master
-- `m ++ x` with the user `u` and the master `m` with the user `x ++ u` hash alike, whatever the
-- hash function, while `compare` reports a changed principal.
pub hash_ambiguous :
    (blake3 : List ℕ → List ℕ) (t : TrustIdentity) (m x u set secret : List ℕ)
    → x ≢ []
    → (hash blake3 (with_master t (m ++ x) set u secret)
        ≡ hash blake3 (with_master t m set (x ++ u) secret))
      × (compare (with_master t (m ++ x) set u secret) (with_master t m set (x ++ u) secret)
          ≡ auth_identity_changed)
unfolding hash identity_bytes with_master hash_server username_bytes compare
hash_ambiguous blake3 t m x u set secret n =
    (simp append_assoc, ground (arith, auth_eq-prefix x u secret n))
