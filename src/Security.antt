-- ===== src/Security.antt =====
-- crates/pr-security: identities, and the approvals bound to them.
pub mod Trust
pub mod Approval
