-- ===== src/Expected.antt =====
-- The expected-work ledger and its counting rules
-- (packages/shared/eastmed_shared/reconciliation/ledger.py).
pub mod Ledger
pub mod Outcome
pub mod Distinct
pub mod Collecting
pub mod Counting
pub mod Freshness
pub mod Accepting
mod Examples
