-- ===== src/Scheduler.antt =====
-- crates/firq-core/src/scheduler.rs. A method on `&self` is a function from the scheduler to the
-- scheduler, for the calls run one after the other.
pub mod Core
pub mod Counters
pub mod Shutdown
pub mod Quantum
pub mod Purge
pub mod Insert
pub mod Holds
pub mod Valid
pub mod Commit
pub mod Ringed
pub mod Enqueue
pub mod Drop
pub mod Cancel
pub mod Dequeue
pub mod Policy
pub mod Blocking
pub mod Start
pub mod Steps
pub mod Closed
pub mod Activity
pub mod Snapshot
pub mod Active
pub mod Standing
