-- ===== src/Verification.antt =====
-- The independent verifier (packages/shared/eastmed_shared/reconciliation/verifier.py) and what it
-- accepts of the calculator.
pub mod Values
pub mod Verifier
pub mod Accurate
pub mod Sound
pub mod Completes
pub mod Agreement
mod Examples
