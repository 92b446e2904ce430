-- ===== src/Runtime.antt =====
-- Durable orchestration (packages/pipeline/eastmed_pipeline/reconciliation_runtime.py): the task
-- queue under leases with fencing epochs, and the budget ledgers.
pub mod State
pub mod Queue
pub mod Tasks
pub mod Machine
pub mod Invariant
pub mod History
pub mod Due
pub mod Claimed
pub mod Refines
pub mod Trace
pub mod Fencing
pub mod Claims
pub mod Counting
pub mod Effects
mod Examples
