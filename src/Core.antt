-- ===== src/Core.antt =====
-- crates/pr-core: requests, outcomes, signals and session state.
pub mod Session
pub mod Request
pub mod Outcome
pub mod Signal
