-- ===== src/Contract.antt =====
-- The data contract of an imported record
-- (packages/shared/eastmed_shared/reconciliation/contract.py).
pub mod Fields
pub mod Record
pub mod Conforms
pub mod Accepts
mod Examples
