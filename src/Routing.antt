-- ===== src/Routing.antt =====
-- crates/pr-routing: where a key lives in a cluster, and redirects.
pub mod Slot
pub mod Redirect
