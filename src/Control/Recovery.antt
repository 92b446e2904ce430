-- ===== src/Control/Recovery.antt =====
-- `select_recovery` of packages/shared/eastmed_shared/reconciliation/recovery.py.
use mari_time_system.Prelude.{
  ◌≡◌, refl, String, Option, none, some, List, [], ◌∷◌, Bool, true, false, not, ◌&&◌, ◌↔◌, arith, ℤ,
  ◌≤ℤ◌, leb_ℤ, Bool-cases, inl, inr, if◌then◌else◌, member, Result, ok, err, value_error,
}

pub data TaskFailureKind : Type 0 where
  transient_provider malformed_output provider_outage refusal missing_machine_data integrity_failure
        budget_exhausted :
      TaskFailureKind

pub data RecoveryAction : Type 0 where
  retry failover_alternate wait_for_machine_data disable_capability stop_unresolved : RecoveryAction

abbrev pub runbook_allowlist : List String
runbook_allowlist =
    "retry_same_stage" ∷ "failover_alternate_provider" ∷ "await_machine_data" ∷ "disable_capability"
    ∷ []

-- `_ACTION_RUNBOOK`
abbrev pub action_runbook : RecoveryAction → Option String
action_runbook RecoveryAction.retry = some "retry_same_stage"
action_runbook RecoveryAction.failover_alternate = some "failover_alternate_provider"
action_runbook RecoveryAction.wait_for_machine_data = some "await_machine_data"
action_runbook RecoveryAction.disable_capability = some "disable_capability"
action_runbook RecoveryAction.stop_unresolved = none

pub record RecoveryDecision : Type 0 where
  pub action : RecoveryAction
  pub runbook_id : Option String
  pub reason : String

-- The constructor with `__post_init__`: a runbook that is not on the allowlist raises.
abbrev pub recovery_decision : RecoveryAction → Option String → String → Result RecoveryDecision
recovery_decision action none reason =
    ok (record { action = action; runbook_id = none; reason = reason })
recovery_decision action (some id) reason =
    if member id runbook_allowlist
    then ok (record { action = action; runbook_id = some id; reason = reason })
    else err value_error

-- `_decision`
abbrev pub decision : RecoveryAction → String → Result RecoveryDecision
decision action reason = recovery_decision action (action_runbook action) reason

unfoldable pub select_recovery : TaskFailureKind → ℤ → ℤ → Bool → Bool → Result RecoveryDecision
select_recovery TaskFailureKind.integrity_failure attempts max_attempts alternate in_time =
    decision RecoveryAction.disable_capability "unknown integrity failure disables"
select_recovery TaskFailureKind.budget_exhausted attempts max_attempts alternate in_time =
    decision RecoveryAction.stop_unresolved "cost budget exhausted"
select_recovery TaskFailureKind.missing_machine_data attempts max_attempts alternate in_time =
    if in_time
    then decision RecoveryAction.wait_for_machine_data "await authorized machine data"
    else decision RecoveryAction.stop_unresolved "missing data past deadline"
select_recovery TaskFailureKind.transient_provider attempts max_attempts alternate in_time =
    if not (leb_ℤ max_attempts attempts)
    then decision RecoveryAction.retry "retry transient/malformed within attempt limit"
    else if alternate
    then decision RecoveryAction.failover_alternate "attempts exhausted; use alternate"
    else decision RecoveryAction.stop_unresolved "attempts exhausted; no alternate"
select_recovery TaskFailureKind.malformed_output attempts max_attempts alternate in_time =
    if not (leb_ℤ max_attempts attempts)
    then decision RecoveryAction.retry "retry transient/malformed within attempt limit"
    else if alternate
    then decision RecoveryAction.failover_alternate "attempts exhausted; use alternate"
    else decision RecoveryAction.stop_unresolved "attempts exhausted; no alternate"
select_recovery TaskFailureKind.refusal attempts max_attempts alternate in_time =
    if alternate && not (leb_ℤ max_attempts attempts)
    then decision RecoveryAction.failover_alternate "select authorized alternate path"
    else decision RecoveryAction.stop_unresolved "no useful retry or alternate remains"
select_recovery TaskFailureKind.provider_outage attempts max_attempts alternate in_time =
    if alternate && not (leb_ℤ max_attempts attempts)
    then decision RecoveryAction.failover_alternate "select authorized alternate path"
    else decision RecoveryAction.stop_unresolved "no useful retry or alternate remains"

-- A failure that may be retried with the same payload.
abbrev pub retryable : TaskFailureKind → Bool
retryable TaskFailureKind.transient_provider = true
retryable TaskFailureKind.malformed_output = true
retryable _ = false

-- What every decision keeps to.
pub record Bounded (failure : TaskFailureKind) (attempts max_attempts : ℤ)
    (alternate in_time : Bool) (d : RecoveryDecision) : Type 0 where
  pub registered : d.runbook_id ≡ action_runbook d.action
  pub retry_limited :
      d.action ≡ RecoveryAction.retry → (retryable failure ≡ true) × ¬ (max_attempts ≤ℤ attempts)
  pub failover_available : d.action ≡ RecoveryAction.failover_alternate → alternate ≡ true
  pub waits_in_time :
      (d.action ≡ RecoveryAction.wait_for_machine_data)
      ↔ ((failure ≡ TaskFailureKind.missing_machine_data) × (in_time ≡ true))
  pub disables_integrity :
      (d.action ≡ RecoveryAction.disable_capability) ↔ (failure ≡ TaskFailureKind.integrity_failure)

abbrev decided : RecoveryAction → String → RecoveryDecision
decided action reason = record {
  action = action;
  runbook_id = action_runbook action;
  reason = reason;
}

-- A decision is always reached, and it is bounded: a retry only for a transient or malformed
-- failure with attempts left, a failover only with an alternate, waiting exactly for missing data
-- within its deadline, disabling exactly on an integrity failure, and the runbook of its action.
pub select_recovery-Bounded :
    (failure : TaskFailureKind) (attempts max_attempts : ℤ) (alternate in_time : Bool)
    → (d : RecoveryDecision) × (select_recovery failure attempts max_attempts alternate in_time
        ≡ ok d)
      × Bounded failure attempts max_attempts alternate in_time d
unfolding select_recovery
select_recovery-Bounded TaskFailureKind.integrity_failure attempts max_attempts alternate in_time =
    (
      decided RecoveryAction.disable_capability "unknown integrity failure disables",
      refl,
      ground arith,
    )
select_recovery-Bounded TaskFailureKind.budget_exhausted attempts max_attempts alternate in_time =
    (decided RecoveryAction.stop_unresolved "cost budget exhausted", refl, ground arith)
select_recovery-Bounded TaskFailureKind.missing_machine_data attempts max_attempts alternate
      in_time =
    elim (Bool-cases in_time) [
      | inl early ↦ (
        decided RecoveryAction.wait_for_machine_data "await authorized machine data",
        rw early refl,
        ground arith,
      )
      | inr late ↦ (
        decided RecoveryAction.stop_unresolved "missing data past deadline",
        rw late refl,
        ground arith,
      )
    ]
select_recovery-Bounded TaskFailureKind.transient_provider attempts max_attempts alternate in_time =
    elim (Bool-cases (leb_ℤ max_attempts attempts)) [
      | inr room ↦ (
        decided RecoveryAction.retry "retry transient/malformed within attempt limit",
        rw room refl,
        ground arith,
      )
      | inl spent ↦ elim (Bool-cases alternate) [
        | inl other ↦ (
          decided RecoveryAction.failover_alternate "attempts exhausted; use alternate",
          rw spent (rw other refl),
          ground arith,
        )
        | inr alone ↦ (
          decided RecoveryAction.stop_unresolved "attempts exhausted; no alternate",
          rw spent (rw alone refl),
          ground arith,
        )
      ]
    ]
select_recovery-Bounded TaskFailureKind.malformed_output attempts max_attempts alternate in_time =
    elim (Bool-cases (leb_ℤ max_attempts attempts)) [
      | inr room ↦ (
        decided RecoveryAction.retry "retry transient/malformed within attempt limit",
        rw room refl,
        ground arith,
      )
      | inl spent ↦ elim (Bool-cases alternate) [
        | inl other ↦ (
          decided RecoveryAction.failover_alternate "attempts exhausted; use alternate",
          rw spent (rw other refl),
          ground arith,
        )
        | inr alone ↦ (
          decided RecoveryAction.stop_unresolved "attempts exhausted; no alternate",
          rw spent (rw alone refl),
          ground arith,
        )
      ]
    ]
select_recovery-Bounded TaskFailureKind.refusal attempts max_attempts alternate in_time =
    elim (Bool-cases (alternate && not (leb_ℤ max_attempts attempts))) [
      | inl other ↦ (
        decided RecoveryAction.failover_alternate "select authorized alternate path",
        rw other refl,
        ground arith,
      )
      | inr alone ↦ (
        decided RecoveryAction.stop_unresolved "no useful retry or alternate remains",
        rw alone refl,
        ground arith,
      )
    ]
select_recovery-Bounded TaskFailureKind.provider_outage attempts max_attempts alternate in_time =
    elim (Bool-cases (alternate && not (leb_ℤ max_attempts attempts))) [
      | inl other ↦ (
        decided RecoveryAction.failover_alternate "select authorized alternate path",
        rw other refl,
        ground arith,
      )
      | inr alone ↦ (
        decided RecoveryAction.stop_unresolved "no useful retry or alternate remains",
        rw alone refl,
        ground arith,
      )
    ]
