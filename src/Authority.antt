-- ===== src/Authority.antt =====
-- The authority of machine actions: the policy evaluation of
-- packages/shared/eastmed_shared/reconciliation/policy.py, and the attestations and the dispatch
-- recheck of packages/pipeline/eastmed_pipeline/reconciliation_policy.py.
pub mod Policy
pub mod Attestation
pub mod Attested
pub mod Dispatch
mod Examples
