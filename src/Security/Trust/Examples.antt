-- ===== src/Security/Trust/Examples.antt =====
-- Identities and nodes, and the witnesses of the results on them.
use penguin_redis.Prelude.{
  decimal, ℕ, ◌≡◌, refl, ◌⊎◌, true, some, none, List, [], ◌∷◌, ◌++◌, arith, codes, bytes_eq,
}
use penguin_redis.Security.Trust.{
  TrustIdentity, RotationWindow, DiscoveryBounds, tcp, no_tls, spki_pin, standalone, compare,
  requires_rebind, credential_binding_hash, hash, judge, accepts, contains, permits,
  auth_identity_changed, address_only, accept, decide, any_eq, any_suffix, auth_eq, endpoint_eq,
  ends_with, host_port, option_eq, server_changed, tls_eq,
}
use penguin_redis.Security.Trust.Binding.{
  compare-credential_binding_hash, with_master, hash_ambiguous,
}
use penguin_redis.Security.Trust.Nodes.{redirect, confirmed, visit_all, visit_all-contains}

abbrev here : TrustIdentity
here = record {
  endpoint = tcp (codes "redis.internal") 6379;
  tls_identity = no_tls;
  server_identity = standalone none;
  auth_identity = record { username = some (codes "dev"); secret_ref = codes "credential:1" };
}

-- The same service after it moved and restarted.
abbrev moved : TrustIdentity
moved = record here {
  endpoint = tcp (codes "10.0.0.7") 6380;
  server_identity = standalone (some (codes "abc"));
}

moved_verdict : compare moved here ≡ address_only
unfolding compare auth_eq option_eq bytes_eq tls_eq server_changed endpoint_eq
moved_verdict = refl

-- A hash function to try the results with: the bytes themselves.
abbrev identity_hash : List ℕ → List ℕ
identity_hash b = b

compare-credential_binding_hash_example :
    credential_binding_hash identity_hash moved ≡ credential_binding_hash identity_hash here
unfolding compare requires_rebind auth_eq option_eq bytes_eq tls_eq server_changed endpoint_eq
compare-credential_binding_hash_example =
    compare-credential_binding_hash identity_hash moved here refl

-- The master "mymaster-a" with the user "dev", and "mymaster" with "-adev".
hash_ambiguous_example :
    (hash identity_hash
        (with_master here (codes "mymaster" ++ codes "-a") [] (codes "dev") (codes "c1"))
      ≡ hash identity_hash
          (with_master here (codes "mymaster") [] (codes "-a" ++ codes "dev") (codes "c1")))
    × (compare
          (with_master here (codes "mymaster" ++ codes "-a") [] (codes "dev") (codes "c1"))
          (with_master here (codes "mymaster") [] (codes "-a" ++ codes "dev") (codes "c1"))
        ≡ auth_identity_changed)
hash_ambiguous_example =
    hash_ambiguous identity_hash here (codes "mymaster") (codes "-a") (codes "dev") [] (codes "c1")
      (λ e. ground arith)

abbrev rotating : RotationWindow
rotating = record {
  current = spki_pin (codes "new");
  previous = some (spki_pin (codes "old"));
  previous_until_ms = 1_000;
}

old_accepted : accepts (judge rotating (spki_pin (codes "old")) 999) ≡ true
unfolding judge accepts tls_eq bytes_eq
old_accepted = refl

abbrev bounds : DiscoveryBounds
bounds = record { allowed_hosts = codes "h:7000" ∷ []; allowed_suffixes = codes ".prod" ∷ [] }

port_permitted : permits bounds (codes "h") 7000 ≡ true
unfolding permits any_eq bytes_eq host_port decimal
port_permitted = refl

-- A redirect out of bounds is not recorded; the confirmed node and the one in bounds are.
visit_all-contains_example :
    (contains [] (codes "n1.prod") 6379 ≡ true)
    ⊎ (permits bounds (codes "n1.prod") 6379 ≡ true)
    ⊎ (confirmed
          (redirect (codes "evil") 6379 ∷ redirect (codes "n1.prod") 6379 ∷ [])
          (codes "n1.prod")
          6379
        ≡ true)
unfolding visit_all contains accept decide permits any_eq bytes_eq host_port any_suffix ends_with
visit_all-contains_example =
    visit_all-contains bounds []
      (redirect (codes "evil") 6379 ∷ redirect (codes "n1.prod") 6379 ∷ []) (codes "n1.prod") 6379
      refl
