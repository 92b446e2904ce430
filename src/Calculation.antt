-- ===== src/Calculation.antt =====
-- The deterministic calculator (packages/shared/eastmed_shared/reconciliation/calculator.py) over
-- finite decimals.
pub mod Decimal
pub mod Exact
pub mod Periods
pub mod Fleet
pub mod Disjoint
pub mod Variance
mod Examples
