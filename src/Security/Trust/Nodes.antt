-- ===== src/Security/Trust/Nodes.antt =====
-- Which nodes are ever recorded, over any history of redirects and confirmations.
use penguin_redis.Prelude.{
  ℕ, ◌≡◌, ap₂, ◌⊎◌, inl, Bool, true, false, ◌&&◌, ◌||◌, List, [], ◌∷◌, ◌++◌, arith, bytes_eq,
  bytes_eq_refl, bytes_eq_sound, ◌==◌, ==_refl,
}
use penguin_redis.Security.Trust.{
  KnownNodes, DiscoveryBounds, contains, permits, decide, accept, accept_confirmed,
}

-- What happens to a set of nodes: the server redirects, or the user confirms.
pub data Event : Type 0 where
  redirect : List ℕ → ℕ → Event
  confirm : List ℕ → ℕ → Event

unfoldable pub visit : DiscoveryBounds → KnownNodes → Event → KnownNodes
visit bounds nodes (redirect host port) = (accept nodes (decide nodes bounds host port) host port).1
visit bounds nodes (confirm host port) = accept_confirmed nodes host port

unfoldable pub visit_all : DiscoveryBounds → KnownNodes → List Event → KnownNodes
unfolding visit
visit_all bounds nodes [] = nodes
visit_all bounds nodes (e ∷ es) = visit_all bounds (visit bounds nodes e) es

-- The user confirmed this node.
unfoldable pub confirmed : List Event → List ℕ → ℕ → Bool
confirmed [] host port = false
confirmed (redirect h p ∷ es) host port = confirmed es host port
confirmed (confirm h p ∷ es) host port = (bytes_eq h host && p == port) || confirmed es host port

contains-append :
    (nodes : KnownNodes) (h : List ℕ) (p : ℕ) (host : List ℕ) (port : ℕ)
    → contains (nodes ++ ((h, p) ∷ [])) host port
      ≡ (contains nodes host port || (bytes_eq h host && p == port))
unfolding contains
contains-append [] h p host port = ground arith
contains-append ((i, q) ∷ nodes) h p host port = ground (arith, contains-append nodes h p host port)

-- The tests of one node compare it with an equal one.
permits-eq :
    (bounds : DiscoveryBounds) (h : List ℕ) (p : ℕ) (host : List ℕ) (port : ℕ)
    → (bytes_eq h host && p == port) ≡ true
    → permits bounds h p ≡ permits bounds host port
permits-eq bounds h p host port e =
    ap₂ (permits bounds) (bytes_eq_sound h host (ground arith)) (ground arith)

visit-contains :
    (bounds : DiscoveryBounds) (nodes : KnownNodes) (e : Event) (host : List ℕ) (port : ℕ)
    → contains (visit bounds nodes e) host port ≡ true
    → (contains nodes host port ≡ true)
      ⊎ (permits bounds host port ≡ true)
      ⊎ (confirmed (e ∷ []) host port ≡ true)
unfolding visit accept accept_confirmed decide confirmed
visit-contains bounds nodes (redirect h p) host port c =
    ground (arith, contains-append nodes h p host port, permits-eq bounds h p host port)
visit-contains bounds nodes (confirm h p) host port c =
    ground (arith, contains-append nodes h p host port)

-- However redirects and confirmations follow each other, a node on record was there at the
-- start, is inside the declared bounds, or was confirmed by the user: no server can add another.
pub visit_all-contains :
    (bounds : DiscoveryBounds) (nodes : KnownNodes) (es : List Event) (host : List ℕ) (port : ℕ)
    → contains (visit_all bounds nodes es) host port ≡ true
    → (contains nodes host port ≡ true)
      ⊎ (permits bounds host port ≡ true)
      ⊎ (confirmed es host port ≡ true)
unfolding visit_all confirmed
visit_all-contains bounds nodes [] host port c = inl c
visit_all-contains bounds nodes (redirect h p ∷ es) host port c = ground (
  arith,
  visit_all-contains bounds (visit bounds nodes (redirect h p)) es host port c,
  visit-contains bounds nodes (redirect h p) host port,
)
visit_all-contains bounds nodes (confirm h p ∷ es) host port c = ground (
  arith,
  visit_all-contains bounds (visit bounds nodes (confirm h p)) es host port c,
  visit-contains bounds nodes (confirm h p) host port,
)

-- A redirect may be followed exactly when its target is on record afterwards.
pub accept-contains :
    (bounds : DiscoveryBounds) (nodes : KnownNodes) (host : List ℕ) (port : ℕ)
    → (accept nodes (decide nodes bounds host port) host port).0
      ≡ contains (visit bounds nodes (redirect host port)) host port
unfolding visit accept decide
accept-contains bounds nodes host port =
    ground (arith, contains-append nodes host port host port, bytes_eq_refl host, ==_refl port)
