-- ===== src/Control/Examples.antt =====
-- Requests to the controller, for recovery.py and runbooks.py, and metrics for release.py and
-- canary.py.
use mari_time_system.Prelude.{
  ℕ, ◌+◌, ◌-◌, ◌*◌, ◌/◌, ◌≡◌, ◌↔◌, refl, [], ◌∷◌, true, pos, negsuc, ok, err, some, none, List,
  String, str_eq, ltb, leb, pos_part, if◌then◌else◌, arith, Error,
}
use mari_time_system.Control.Floats.{Floats}
use mari_time_system.Control.Precision.{clopper_pearson_lower}
use mari_time_system.Control.Percentile.{
  insert, sorted, percentile, IsOrder, IsNearestRank, percentile-IsNearestRank,
}
use mari_time_system.Control.Release.{ReleaseMetrics, release_checks, evaluate_release}
use mari_time_system.Control.Rollback.{check_canary_regression}
use mari_time_system.Control.Gates.{Regression, check_canary_regression-Regression}
use mari_time_system.Control.Canary.{CanaryPrereq, CanaryManifest, canary_admission, answer}
use mari_time_system.Control.Runbooks.{
  authorize_runbook, Admissible, authorize_runbook_iff_Admissible,
}
use mari_time_system.Control.Registry.{
  RunbookPrecondition, RunbookApiCall, RunbookSpec, RunbookRejection,
}

authorize_runbook_iff_Admissible_example :
    ((authorize_runbook "quarantine_source"
        RunbookPrecondition.compromised_evidence_or_revoked_rights
        (RunbookApiCall.block_source ∷ [])
        (pos 12)).admitted
      ≡ true)
    ↔ ((spec : RunbookSpec) × Admissible "quarantine_source"
          RunbookPrecondition.compromised_evidence_or_revoked_rights
          (RunbookApiCall.block_source ∷ [])
          (pos 12)
          spec)
authorize_runbook_iff_Admissible_example =
    authorize_runbook_iff_Admissible "quarantine_source"
      RunbookPrecondition.compromised_evidence_or_revoked_rights (RunbookApiCall.block_source ∷ [])
      (pos 12)

quarantine_admitted :
    (authorize_runbook "quarantine_source"
      RunbookPrecondition.compromised_evidence_or_revoked_rights
      (RunbookApiCall.block_source ∷ [])
      (pos 12)).admitted
    ≡ true
unfolding authorize_runbook
quarantine_admitted = refl

call_refused :
    (authorize_runbook "renew_task_lease" RunbookPrecondition.healthy_heartbeat_current_epoch
      (RunbookApiCall.restart_process ∷ [])
      (pos 1)).rejection
    ≡ some RunbookRejection.api_call_not_allowed
unfolding authorize_runbook
call_refused = refl

negative_refused :
    (authorize_runbook "renew_task_lease" RunbookPrecondition.healthy_heartbeat_current_epoch []
      (negsuc 0)).rejection
    ≡ some RunbookRejection.blast_radius_exceeded
unfolding authorize_runbook
negative_refused = refl

abbrev small_canary : CanaryManifest
small_canary = record {
  tenants = "acme" ∷ [];
  workflows = "reconciliation" ∷ [];
  sources = "portal" ∷ [];
  max_writes = pos 5;
  qualified_manifest_id = "m1";
  rollback_runbook_id = "rollback_canary";
}

abbrev four_passed : List CanaryPrereq
four_passed =
    CanaryPrereq.schema ∷ CanaryPrereq.arithmetic ∷ CanaryPrereq.isolation ∷ CanaryPrereq.fault ∷ []

two_missing :
    (canary_admission small_canary four_passed true).missing_prereqs
    ≡ CanaryPrereq.authority ∷ CanaryPrereq.durability ∷ []
unfolding canary_admission answer
two_missing = refl

-- Amounts in hundredths stand for the floats.
abbrev hundredths_of : String → ℕ
hundredths_of s =
    if str_eq s "0.90"
    then 90
    else if str_eq s "0.99"
    then 99
    else if str_eq s "300.0"
    then 30000
    else if str_eq s "3.0"
    then 300
    else if str_eq s "0.95"
    then 95
    else 0

abbrev hundredths : Floats
hundredths = record {
  Float = ℕ;
  literal = hundredths_of;
  of_int = λ n. 100 * pos_part n;
  ratio = λ a b. 100 * pos_part a / pos_part b;
  plus = λ a b. a + b;
  minus = λ a b. a - b;
  times = λ a b. a * b / 100;
  over = λ a b. 100 * a / b;
  negate = λ a. 0;
  magnitude = λ a. a;
  less = ltb;
  at_most = leb;
  power = λ a b. ok a;
  lgamma = λ a. a;
  exp = λ a. a;
  log = λ a. a;
  ceil = λ a. pos ((a + 99) / 100);
  text = λ a. "x";
  fixed = λ n a. "x";
  text_of_int = λ n. "n";
}

hundredths-IsOrder : IsOrder hundredths (λ v. true)
hundredths-IsOrder = record {
  asymmetric = λ a b h. ground arith;
  not_less_through = λ a b c n h k. ground arith;
}

abbrev latencies : List ℕ
latencies = 300 ∷ 100 ∷ 200 ∷ []

median : percentile hundredths latencies 50 ≡ some 200
unfolding percentile sorted insert
median = refl

percentile-IsNearestRank_example :
    IsNearestRank hundredths latencies 50 (percentile hundredths latencies 50)
percentile-IsNearestRank_example =
    percentile-IsNearestRank hundredths (λ v. true) hundredths-IsOrder latencies 50
      (refl, (refl, (refl, tt)))

impossible_counts : clopper_pearson_lower hundredths (pos 301) (pos 300) 95 ≡ err Error.value_error
unfolding clopper_pearson_lower
impossible_counts = refl

abbrev no_samples : ReleaseMetrics ℕ
no_samples = record {
  expected_jobs = pos 10;
  correct_on_time = pos 9;
  runtime_interventions = pos 0;
  precision_successes = pos 0;
  precision_cases = pos 0;
  p95_latency_seconds = 12000;
  arithmetic_fixtures_pass = true;
  controls_intact = true;
  benefit_multiple = 400;
  continuing_pilots = pos 2;
}

unsampled_is_rolled_back :
    check_canary_regression hundredths no_samples none
    ≡ ok (record {
      rollback = true;
      runbook_id = some "rollback_canary";
      reason = "objective regression: precision_sample_size, precision_lower_bound";
    })
unfolding check_canary_regression evaluate_release release_checks
unsampled_is_rolled_back = refl

check_canary_regression-Regression_example :
    Regression hundredths no_samples none (check_canary_regression hundredths no_samples none)
check_canary_regression-Regression_example =
    check_canary_regression-Regression hundredths no_samples none
