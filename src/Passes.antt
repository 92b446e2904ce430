-- ===== src/Passes.antt =====
-- One scheduler pass over the cases, their tasks and their publications
-- (packages/pipeline/eastmed_pipeline/reconciliation_dispatch.py).
pub mod State
pub mod Schedule
pub mod Stages
pub mod Execute
pub mod Drain
pub mod Held
pub mod StageRule
pub mod Rule
pub mod Ended
pub mod Fresh
pub mod Written
pub mod Drained
pub mod Unfenced
pub mod Settled
pub mod Completed
pub mod Appends
pub mod Adds
pub mod Appended
pub mod Scheduled
pub mod Once
pub mod Again
pub mod Judged
pub mod Reconciled
pub mod Samples
mod Examples
