-- ===== src/Mcp.antt =====
-- crates/pr-mcp: what a policy may approve.
pub mod Glob
pub mod Policy
