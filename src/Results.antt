-- ===== src/Results.antt =====
-- crates/pr-results: what is kept of the results, and of a subscription.
pub mod Store
pub mod Subscription
