-- ===== src/State.antt =====
-- crates/firq-core/src/state.rs: the parts of a scheduler's state, one child for each.
pub mod Dict
pub mod Ledger
pub mod Accounts
pub mod Queued
pub mod Ring
pub mod Tenant
pub mod Stats
pub mod TopTenants
pub mod Signal
pub mod Marked
