-- ===== src/Lib.antt =====
-- The reconciliation core of the maritime system: durable workers, budgets, standing authority and
-- the accounting of expected work (packages/pipeline/eastmed_pipeline and
-- packages/shared/eastmed_shared/reconciliation).
--
-- The parts and how they interact. A workflow run is a chain of tasks in a database queue. Workers
-- claim a task under a lease, send heartbeats, and commit or fail the attempt; what they may spend
-- is reserved beforehand against a run budget and two ledgers. An action that leaves the system is
-- attested against a standing grant and rechecked immediately before it is dispatched; a private
-- publication does so from an outbox row, and is read back independently. What is published is a
-- case: imported records pass the data contract, the calculator compares the stored quantities with
-- their plans, and an independent verifier must confirm the result before the gate opens. The cohort
-- of expected jobs is counted from a ledger that was frozen before the reports arrive. A scheduler
-- pass strings the parts together: it opens a run for each validated case, and drives the due tasks
-- through the reconcile stage and the publish stage.
--
-- Files.
--   Prelude: lists, tables under a numeric key, integers, results and texts.
--   Runtime: packages/pipeline/eastmed_pipeline/reconciliation_runtime.py, the task queue.
--     State (the rows and the returned values), Queue (`_due_query`, `find_due_tasks`), Tasks
--     (`create_run`, `enqueue_task`, `reap_expired_tasks`, `claim_task`, `heartbeat`,
--     `commit_stage`, `fail_attempt`), Machine (the table as a state machine), Invariant, Claimed
--     and Refines (each call is made of steps of the machine), History, Trace (interleavings),
--     Fencing, Claims, Counting, Due and Effects.
--   Budget: the ledgers of the same source file: Ledgers (`ensure_ledger`, `reserve_cost`,
--     `settle_cost`, `release_cost`, `mark_uncertain`), Balance, Reserving, Closing, Closed, Sessions
--     (what a session that has loaded its rows flushes), Spending (sequences of calls), Lost.
--   Authority: Policy (policy.py, `evaluate_policy`), Attestation and Dispatch
--     (reconciliation_policy.py, `attest_action` and `authorize_dispatch`); below Dispatch: Standing
--     (the grant and the earlier dispatches in words of their own), Recheck, Once.
--   Expected: ledger.py: Ledger (`classify_outcome`, `summarize_ledger`), Outcome, Distinct,
--     Collecting, Counting, Freshness, Accepting.
--   Publication: reconciliation_publication.py: State, Lookups, Propose (`propose_publication` and
--     the gate on the verdict), Outbox (`find_due_outbox`), Publish (`publish_case`), ReadBack
--     (`reconcile_publication`, `invalidate_pending_publications`), Gate, Proposal, Proposals,
--     Replay, Stale, Outcome, Effect, Once, Runs, AtMostOnce, Confirmed, Unread.
--   Control: Recovery (recovery.py, `select_recovery`), Registry and Runbooks (runbooks.py,
--     `authorize_runbook`), Canary (canary.py, `canary_admission`, `canary_scope_ok`), Rollback
--     (canary.py, `check_canary_regression`, `action_permitted`), Release (release.py,
--     `evaluate_release`), Precision (release.py, `clopper_pearson_lower`), Percentile (release.py,
--     `percentile`), Floats (the floats, a parameter), Gates.
--   Calculation: calculator.py: Decimal (the decimals of Python's standard library), Variance
--     (`fuel_variance`, `planned_actual_delta`), Exact, Periods (`report_period_reconcile`),
--     Disjoint, Fleet (`fleet_summary`).
--   Contract: contract.py: Fields (the readers of one field), Record (`validate_record`),
--     Conforms, Accepts.
--   Verification: verifier.py: Values, Verifier (`verify_case_result`, `finalize_case_status`),
--     Accurate, Sound, Completes, Agreement (with the calculator).
--   Cases: reconciliation_case.py: Rows (`_resolve_current`, `_matching_plans`), Groups, Build
--     (`compute_case_result`, `build_evidence`), Commit (`commit_case_version`,
--     `record_verification_verdict`, `read_back`), Chosen, Keyed, Grades, Single, History, Entitled.
--   Passes: reconciliation_dispatch.py: State, Schedule (`start_case_workflow`,
--     `enqueue_ready_cases`), Stages (`_run_reconcile_stage`, `_run_publish_stage`), Execute
--     (`execute_next`), Drain (`run_reconciliation_pass`), StageRule, Rule, Held, Ended, Fresh and
--     Written (what a claim and a write leave), Scheduled, Once, Again, Judged, Reconciled, Settled,
--     Completed, Appends, Adds, Appended, Drained, Unfenced.
--   Each part has a module Examples with runs on concrete data, and Samples hold shared rows.
--
-- Conventions. A UUID is a number; an insert takes the new key as an argument, and a key that is
-- taken is refused with `integrity_error`. An instant is the microseconds since the epoch in UTC,
-- so a naive value that is read as UTC is the same number; `moment` is the instant that the `now`
-- argument of a call, or the clock, gives. A call is one transaction: where it raises, the store
-- stays as it was. Concurrent workers are a list of calls that follow one another in some order.
-- The source's row locks give that for the claim (SKIP LOCKED) and its `heartbeat`, `commit_stage`
-- and `fail_attempt`, for `reserve_cost`, and for `publish_case` and `reconcile_publication`, which
-- lock the row of the outbox. The others lock nothing, `reap_expired_tasks` among them, so for them
-- the order is an assumption; the budget's closing calls are modelled with the rows that their
-- session has loaded, of which a flush writes the columns that the session has changed, as
-- SQLAlchemy documents. `locked` says which rows SKIP LOCKED passes over. A set is a list that is
-- only tested for membership. The texts of error messages are left out. The check constraints of
-- the tables are errors at the flush.
--
-- Bounds. The loops are over lists of rows, and recursion is structural. `digit_count` counts the
-- digits of n with the fuel n, which is never too little; a pass has the source's own bound
-- `max_steps`.
--
-- Parameters. SHA-256 over sorted JSON, the text of a UUID and its parsing are fields of the records
-- `Platform` and `Hashes`; what `datetime.fromisoformat`, `Decimal` and `int` make of a text are fields
-- of `Parsers` and `Reading`. Nothing is assumed of them. Floats and their operations are a record
-- `Floats`; only the percentile asks for something of their order, that of IEEE numbers. The precision
-- of a float is left open. The loop of the incomplete beta function has the source's 299 rounds, the
-- bisection its 200.
--
-- Decimals. A finite decimal is a sign, its digits and an exponent, and the operations are those
-- of Python's `decimal` in its default context. The bounds on exponents are left out, so where
-- an exponent is beyond them `abs` raises `decimal.Overflow` out of `validate_record` and its
-- callers, and the model rejects the record with `range_exceeded`; what is accepted is the same.
-- A text that `str` prints for a decimal stands for the decimal, since the text determines it,
-- and the ISO text of an instant for the instant.
--
-- Not modelled. The HTTP API, the web console and the scripts; the ingestion, fetching, monitoring and
-- claim extraction of the older intelligence pipeline; the read model and the import adapters; the
-- pilot's report, the telemetry, and the float ratios of the reports. They are input and output, only
-- read, or rest on services that are not part of the repository.
pub mod Prelude
pub mod Runtime
pub mod Budget
pub mod Authority
pub mod Publication
pub mod Control
pub mod Expected
pub mod Contract
pub mod Calculation
pub mod Verification
pub mod Cases
pub mod Passes
