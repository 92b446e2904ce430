-- ===== src/Control.antt =====
-- The bounded control of failures and operations: recovery selection
-- (packages/shared/eastmed_shared/reconciliation/recovery.py), the runbook registry
-- (packages/shared/eastmed_shared/reconciliation/runbooks.py), canary admission and regression
-- (packages/shared/eastmed_shared/reconciliation/canary.py) and the release gates
-- (packages/shared/eastmed_shared/reconciliation/release.py).
pub mod Floats
pub mod Precision
pub mod Percentile
pub mod Release
pub mod Gates
pub mod Rollback
pub mod Canary
pub mod Recovery
pub mod Registry
pub mod Runbooks
mod Examples
