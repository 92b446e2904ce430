-- ===== src/Control/Rollback.antt =====
-- The regression check of a canary and the configuration's flags, of
-- packages/shared/eastmed_shared/reconciliation/canary.py.
use mari_time_system.Prelude.{
  String, str_append, Option, none, some, List, [], ◌∷◌, map, select, Bool, true, false, not, ◌&&◌,
  ℤ, if◌then◌else◌, Result, ok, ◌>>=◌,
}
use mari_time_system.Control.Floats.{Floats}
use mari_time_system.Control.Release.{
  ReleaseThresholds, ReleaseMetrics, ReleaseCheck, ReleaseVerdict, evaluate_release,
}

pub record RollbackDecision : Type 0 where
  pub rollback : Bool
  pub runbook_id : Option String
  pub reason : String

abbrev pub rollback_canary_runbook : String
rollback_canary_runbook = "rollback_canary"

-- `", ".join(names)`
abbrev pub comma_joined : List String → String
comma_joined [] = ""
comma_joined (s ∷ []) = s
comma_joined (s ∷ t ∷ ss) = str_append s (str_append ", " (comma_joined (t ∷ ss)))

-- The names of the checks that did not pass, in order.
abbrev pub failed_names : List ReleaseCheck → List String
failed_names checks = map (λ c. c.name) (select (λ c. not c.passed) checks)

module _ (floats : Floats) where
  open floats use {Float}

  abbrev pub rollback_decision : ReleaseVerdict Float → RollbackDecision
  rollback_decision verdict =
      if verdict.passed
      then record { rollback = false; runbook_id = none; reason = "within release thresholds" }
      else record {
        rollback = true;
        runbook_id = some rollback_canary_runbook;
        reason = str_append "objective regression: " (comma_joined (failed_names verdict.checks));
      }

  unfoldable pub check_canary_regression :
      ReleaseMetrics Float → Option (ReleaseThresholds Float) → Result RollbackDecision
  check_canary_regression metrics thresholds = do
    verdict ← evaluate_release floats metrics thresholds
    ok (rollback_decision verdict)

-- A frozen set is a list, read by membership only.
pub record ConfigPackage : Type 0 where
  pub operations_enabled : Bool
  pub operations_effects_enabled : Bool
  pub qualified_manifest_id : String
  pub allowed_connector_ids : List String
  pub per_case_budget : ℤ
  pub concurrent_attempt_cap : ℤ
  pub analysis_deadline_seconds : ℤ
  pub data_wait_deadline_seconds : ℤ
  pub outbox_lease_seconds : ℤ
  pub recovery_runbook_version : String

abbrev pub action_permitted : ConfigPackage → Bool → Bool → Bool
action_permitted config effect authority_granted =
    if not config.operations_enabled
    then false
    else if effect && not config.operations_effects_enabled
    then false
    else authority_granted
