-- ===== src/Budget.antt =====
-- The budget ledgers and reservations of
-- packages/pipeline/eastmed_pipeline/reconciliation_runtime.py.
pub mod Ledgers
pub mod Balance
pub mod Closing
pub mod Reserving
pub mod Closed
pub mod Sessions
pub mod Spending
pub mod Lost
mod Examples
