-- ===== src/Security/Trust.antt =====
-- crates/pr-security/src/trust.rs: what a credential and an approval are bound to.
--
-- A `String` is its UTF-8 bytes. `blake3` hashes the concatenation of what the hasher was
-- updated with; it is a parameter, and `to_hex` is taken with it. The message texts are not
-- modelled.
pub mod Binding
pub mod Nodes
pub mod Rotation
mod Examples
use penguin_redis.Prelude.{
  decimal, ℕ, ◌+◌, ◌/◌, ◌%◌, zero, suc, Bool, true, false, not, ◌&&◌, ◌||◌, Option, none, some,
  List, [], ◌∷◌, ◌++◌, if◌then◌else◌, ltb, leb, ◌==◌, length, drop, codes, bytes_eq, le_bytes, ◌-◌,
}

pub data Endpoint : Type 0 where
  tcp : List ℕ → ℕ → Endpoint
  unix : List ℕ → Endpoint
  ssh_tunnel : List ℕ → List ℕ → Endpoint

pub data TlsIdentity : Type 0 where
  no_tls : TlsIdentity
  ca : List ℕ → List ℕ → TlsIdentity
  spki_pin : List ℕ → TlsIdentity

pub data ServerIdentity : Type 0 where
  standalone : Option (List ℕ) → ServerIdentity
  sentinel : List ℕ → List ℕ → ServerIdentity
  cluster : List ℕ → List (List ℕ) → ServerIdentity

pub record AuthIdentity : Type 0 where
  pub username : Option (List ℕ)
  pub secret_ref : List ℕ

pub record TrustIdentity : Type 0 where
  pub endpoint : Endpoint
  pub tls_identity : TlsIdentity
  pub server_identity : ServerIdentity
  pub auth_identity : AuthIdentity

pub data Advisory : Type 0 where
  sentinel_set_changed : Advisory

pub data RebindVerdict : Type 0 where
  no_change address_only : RebindVerdict
  advisory_change : Advisory → RebindVerdict
  tls_identity_changed server_identity_changed auth_identity_changed : RebindVerdict

unfoldable pub requires_rebind : RebindVerdict → Bool
requires_rebind no_change = false
requires_rebind address_only = false
requires_rebind (advisory_change a) = false
requires_rebind _ = true

unfoldable pub advisory : RebindVerdict → Option Advisory
advisory (advisory_change a) = some a
advisory _ = none

-- What `hash_endpoint`, `hash_tls` and `hash_server` feed to the hasher.
unfoldable pub hash_endpoint : Endpoint → List ℕ
hash_endpoint (tcp host port) = codes "tcp" ++ (0 ∷ host) ++ le_bytes 2 port
hash_endpoint (unix path) = codes "unix" ++ (0 ∷ path)
hash_endpoint (ssh_tunnel jump remote) = codes "ssh" ++ (0 ∷ jump) ++ (0 ∷ remote)

unfoldable pub hash_tls : TlsIdentity → List ℕ
hash_tls no_tls = codes "tls-none" ++ (0 ∷ [])
hash_tls (ca ca_set_hash server_name) = codes "tls-ca" ++ (0 ∷ ca_set_hash) ++ (0 ∷ server_name)
hash_tls (spki_pin sha256) = codes "tls-spki" ++ (0 ∷ sha256)

unfoldable pub hash_server : ServerIdentity → List ℕ
hash_server (standalone run_id_prefix) = codes "standalone" ++ (0 ∷ [])
hash_server (sentinel master_name sentinel_set_hash) = codes "sentinel" ++ (0 ∷ master_name)
hash_server (cluster node_id_set_hash seed_hosts) = codes "cluster" ++ (0 ∷ node_id_set_hash)

-- `username.as_deref().unwrap_or("")`.
unfoldable pub username_bytes : Option (List ℕ) → List ℕ
username_bytes none = []
username_bytes (some u) = u

unfoldable pub identity_bytes : TrustIdentity → List ℕ
identity_bytes t =
    codes "penguin.trust-identity.v1"
    ++ (0 ∷ [])
    ++ hash_endpoint t.endpoint
    ++ hash_tls t.tls_identity
    ++ hash_server t.server_identity
    ++ username_bytes t.auth_identity.username
    ++ (0 ∷ t.auth_identity.secret_ref)

unfoldable pub binding_bytes : TrustIdentity → List ℕ
binding_bytes t =
    codes "penguin.credential-binding.v1"
    ++ (0 ∷ [])
    ++ hash_tls t.tls_identity
    ++ hash_server t.server_identity

module _ (blake3 : List ℕ → List ℕ) where
  unfoldable pub hash : TrustIdentity → List ℕ
  hash t = blake3 (identity_bytes t)

  unfoldable pub credential_binding_hash : TrustIdentity → List ℕ
  credential_binding_hash t = blake3 (binding_bytes t)

-- The derived `PartialEq`.
unfoldable pub tls_eq : TlsIdentity → TlsIdentity → Bool
tls_eq no_tls no_tls = true
tls_eq (ca c s) (ca d t) = bytes_eq c d && bytes_eq s t
tls_eq (spki_pin p) (spki_pin q) = bytes_eq p q
tls_eq _ _ = false

unfoldable pub option_eq : Option (List ℕ) → Option (List ℕ) → Bool
option_eq none none = true
option_eq (some a) (some b) = bytes_eq a b
option_eq _ _ = false

unfoldable pub auth_eq : AuthIdentity → AuthIdentity → Bool
auth_eq a b = option_eq a.username b.username && bytes_eq a.secret_ref b.secret_ref

unfoldable pub endpoint_eq : Endpoint → Endpoint → Bool
endpoint_eq (tcp h p) (tcp i q) = bytes_eq h i && p == q
endpoint_eq (unix p) (unix q) = bytes_eq p q
endpoint_eq (ssh_tunnel j r) (ssh_tunnel k s) = bytes_eq j k && bytes_eq r s
endpoint_eq _ _ = false

-- The discriminants, and the fields that define the service.
unfoldable pub server_changed : ServerIdentity → ServerIdentity → Bool
server_changed (standalone r) (standalone s) = false
server_changed (sentinel a x) (sentinel b y) = not (bytes_eq a b)
server_changed (cluster a x) (cluster b y) = not (bytes_eq a b)
server_changed _ _ = true

unfoldable pub sentinel_set_differs : ServerIdentity → ServerIdentity → Bool
sentinel_set_differs (sentinel x a) (sentinel y b) = not (bytes_eq a b)
sentinel_set_differs _ _ = false

unfoldable pub compare : TrustIdentity → TrustIdentity → RebindVerdict
compare t previous =
    if not (auth_eq t.auth_identity previous.auth_identity)
    then auth_identity_changed
    else if not (tls_eq t.tls_identity previous.tls_identity)
    then tls_identity_changed
    else if server_changed t.server_identity previous.server_identity
    then server_identity_changed
    else if not (endpoint_eq t.endpoint previous.endpoint)
    then address_only
    else if sentinel_set_differs t.server_identity previous.server_identity
    then advisory_change sentinel_set_changed
    else no_change

pub record RotationWindow : Type 0 where
  pub current : TlsIdentity
  pub previous : Option TlsIdentity
  pub previous_until_ms : ℕ

pub data RotationVerdict : Type 0 where
  current previous_within_window previous_expired unknown : RotationVerdict

unfoldable pub accepts : RotationVerdict → Bool
accepts current = true
accepts previous_within_window = true
accepts _ = false

unfoldable pub settled : TlsIdentity → RotationWindow
settled t = record { current = t; previous = none; previous_until_ms = 0 }

unfoldable pub judge_previous : Option TlsIdentity → ℕ → TlsIdentity → ℕ → RotationVerdict
judge_previous none until presented now_ms = unknown
judge_previous (some p) until presented now_ms =
    if tls_eq p presented && ltb now_ms until
    then previous_within_window
    else if tls_eq p presented
    then previous_expired
    else unknown

unfoldable pub judge : RotationWindow → TlsIdentity → ℕ → RotationVerdict
unfolding judge_previous
judge w presented now_ms =
    if tls_eq presented w.current
    then current
    else judge_previous w.previous w.previous_until_ms presented now_ms

pub data RedirectDecision : Type 0 where
  known within_bounds confirmation_required : RedirectDecision

-- `KnownNodes`: the vector of its nodes.
abbrev pub KnownNodes : Type 0
KnownNodes = List (List ℕ × ℕ)

pub record DiscoveryBounds : Type 0 where
  pub allowed_hosts : List (List ℕ)
  pub allowed_suffixes : List (List ℕ)

unfoldable pub contains : KnownNodes → List ℕ → ℕ → Bool
contains [] host port = false
contains ((h, p) ∷ nodes) host port = (bytes_eq h host && p == port) || contains nodes host port

unfoldable pub any_eq : List (List ℕ) → List ℕ → Bool
any_eq [] host = false
any_eq (h ∷ hs) host = bytes_eq h host || any_eq hs host

-- `format!("{host}:{port}")`: a port has at most five digits.
unfoldable pub host_port : List ℕ → ℕ → List ℕ
host_port host port = host ++ (b':' ∷ decimal 5 port)

-- `str::ends_with`.
unfoldable pub ends_with : List ℕ → List ℕ → Bool
ends_with host suffix =
    leb (length suffix) (length host) && bytes_eq (drop (length host - length suffix) host) suffix

unfoldable pub any_suffix : List (List ℕ) → List ℕ → Bool
any_suffix [] host = false
any_suffix (s ∷ ss) host = ends_with host s || any_suffix ss host

unfoldable pub permits : DiscoveryBounds → List ℕ → ℕ → Bool
permits bounds host port =
    any_eq bounds.allowed_hosts (host_port host port)
    || any_eq bounds.allowed_hosts host
    || any_suffix bounds.allowed_suffixes host

unfoldable pub decide : KnownNodes → DiscoveryBounds → List ℕ → ℕ → RedirectDecision
decide nodes bounds host port =
    if contains nodes host port
    then known
    else if permits bounds host port
    then within_bounds
    else confirmation_required

-- `accept`: whether the node may be used, and the nodes afterwards.
unfoldable pub accept : KnownNodes → RedirectDecision → List ℕ → ℕ → Bool × KnownNodes
accept nodes known host port = (true, nodes)
accept nodes within_bounds host port = (true, nodes ++ ((host, port) ∷ []))
accept nodes confirmation_required host port = (false, nodes)

unfoldable pub accept_confirmed : KnownNodes → List ℕ → ℕ → KnownNodes
accept_confirmed nodes host port =
    if contains nodes host port then nodes else nodes ++ ((host, port) ∷ [])
