-- ===== src/Cases.antt =====
-- The building, committing and verifying of a case
-- (packages/pipeline/eastmed_pipeline/reconciliation_case.py).
pub mod Rows
pub mod Groups
pub mod Build
mod Chosen
pub mod Keyed
pub mod Grades
pub mod Commit
pub mod Entitled
pub mod History
pub mod Single
pub mod Samples
pub mod Examples
