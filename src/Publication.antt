-- ===== src/Publication.antt =====
-- Private publication (packages/pipeline/eastmed_pipeline/reconciliation_publication.py): the gate
-- on the verdict, the intent and its outbox row, the publication and its read-back.
pub mod State
pub mod Lookups
pub mod Propose
pub mod Outbox
pub mod Publish
pub mod ReadBack
pub mod Gate
pub mod Proposal
pub mod Proposals
pub mod Stale
pub mod Outcome
pub mod Effect
pub mod Once
pub mod Runs
pub mod AtMostOnce
pub mod Replay
pub mod Confirmed
pub mod Unread
pub mod Samples
pub mod Examples
