-- ===== src/Cases/Examples.antt =====
-- A job with one report and its plan, and one whose report covers two grades, for
-- packages/pipeline/eastmed_pipeline/reconciliation_case.py.
use mari_time_system.Prelude.{
  ℕ, ◌≡◌, ◌↔◌, refl, String, none, some, List, [], ◌∷◌, Bool, true, false, negsuc, ok,
}
use mari_time_system.Publication.State.{Verdict, Portal}
use mari_time_system.Publication.Propose.{verdict_gate_reason}
use mari_time_system.Calculation.Decimal.{
  digit_count, half_even, half_up, fix, add, sub, mul, strip_zeros, quotient, div, quantize,
}
use mari_time_system.Calculation.Variance.{
  FuelGrade, QuantityUnit, CalcRefusalReason, FuelVarianceResult, calculator_version, rounding_text,
  percentage, variance_of, refusal, fuel_variance,
}
use mari_time_system.Contract.Fields.{
  is_space, strip_start, strip_end, strip, required_str, timestamp, interval, quantity,
}
use mari_time_system.Contract.Record.{
  observation, observations_from, heading, voyage_plan, daily_report, validate_record,
}
use mari_time_system.Verification.Verifier.{
  independent_delta_percent, check_numbers, verify_reconciled, verify_item, verify_items,
  verify_case_result, finalize_case_status,
}
use mari_time_system.Verification.Completes.{Completes}
use mari_time_system.Cases.Rows.{numbered, resolve_current, matching_plans}
use mari_time_system.Cases.Build.{
  ResultJson, CaseResult, VarianceEntry, UnresolvedReason, items_of, reconcile_group,
  reconcile_groups, compute_case_result, build_evidence,
}
use mari_time_system.Cases.Groups.{to_quantity, group_keys}
use mari_time_system.Cases.Grades.{several_grades-unresolved}
use mari_time_system.Cases.Commit.{
  Version, Committed, commit_case_version, verify_case, record_verification_verdict,
}
use mari_time_system.Cases.Entitled.{gate_iff_Completes}
use mari_time_system.Cases.History.{
  Stored, commit_case_version-Stored, record_verification_verdict-once,
}
use mari_time_system.Cases.Single.{single_report-Completes}
use mari_time_system.Cases.Samples.{
  tonnes, reading, burned, plan, burned_gas_oil, sources, job, hashes, case_row, platform,
}

abbrev variance : FuelVarianceResult
variance = record {
  fuel_grade = FuelGrade.vlsfo;
  unit = QuantityUnit.tonne;
  period_start = 100;
  period_end = 200;
  actual_unrounded = tonnes 12500000;
  planned_unrounded = tonnes 10000000;
  delta_unrounded = tonnes 2500000;
  delta = record { negative = false; digits = 250; exponent = negsuc 1 };
  percent_unrounded = some (record { negative = false; digits = 2500; exponent = negsuc 1 });
  percent = some (record { negative = false; digits = 2500; exponent = negsuc 1 });
  percent_reason = none;
  receipt = record {
    function = "fuel_variance";
    formula_version = calculator_version;
    rounding = rounding_text;
    inputs = ("actual", to_quantity burned "1") ∷ ("planned", to_quantity plan "1") ∷ [];
    assumptions = [];
    exclusions = [];
  };
}

plan_found : matching_plans reading.parsers (sources (burned ∷ plan ∷ [])) 7 job burned ≡ plan ∷ []
unfolding matching_plans validate_record heading daily_report voyage_plan observations_from
    observation required_str timestamp interval quantity strip strip_start strip_end is_space
plan_found = refl

single_report-Completes_example :
    (r : CaseResult) × (compute_case_result reading (sources (burned ∷ plan ∷ [])) 7 job hashes
      ≡ ok r)
    × (r.unresolved ≡ false)
    × Completes
        (some (items_of r.result_json.variances))
        (build_evidence reading (sources (burned ∷ plan ∷ [])) 7 job)
        r.unresolved
unfolding matching_plans validate_record heading daily_report voyage_plan observations_from
    observation required_str timestamp interval quantity strip strip_start strip_end is_space
    resolve_current to_quantity fuel_variance refusal variance_of percentage sub add fix half_even
    div quotient strip_zeros mul quantize half_up digit_count
single_report-Completes_example =
    single_report-Completes reading (sources (burned ∷ plan ∷ [])) 7 job burned plan variance
      (record { owned = refl; one_actual = refl; plan_chosen = refl; calculated = refl }) hashes

abbrev evidence_refs : String
evidence_refs = "some"

abbrev result_with : List VarianceEntry → Bool → CaseResult
result_with variances unresolved = record {
  expected_job_id = 3;
  result_json = record {
    result_contract_version = "fleet_result_v1";
    expected_job_id = 3;
    vessel_ref = "x1";
    period_start = 100;
    period_end = 200;
    calculator_version = calculator_version;
    variances = variances;
  };
  content_hash = "entries";
  evidence_hash = evidence_refs;
  unresolved = unresolved;
}

abbrev mixed_result : CaseResult
mixed_result =
    result_with
      (VarianceEntry.unresolved FuelGrade.mgo UnresolvedReason.missing_input
        ∷ VarianceEntry.unresolved FuelGrade.vlsfo
            (UnresolvedReason.calculation CalcRefusalReason.grade_mismatch)
        ∷ [])
      true

-- The plan fits the fuel oil, and the calculation takes the gas oil that was read last.
mixed :
    compute_case_result reading (sources (burned ∷ plan ∷ burned_gas_oil ∷ [])) 7 job hashes
    ≡ ok mixed_result
unfolding compute_case_result reconcile_groups reconcile_group group_keys matching_plans
    validate_record heading daily_report voyage_plan observations_from observation required_str
    timestamp interval quantity strip strip_start strip_end is_space resolve_current numbered
    to_quantity fuel_variance refusal variance_of percentage sub add fix half_even div quotient
    strip_zeros mul quantize half_up digit_count
mixed = refl

several_grades-unresolved_example : mixed_result.unresolved ≡ true
several_grades-unresolved_example =
    several_grades-unresolved reading (sources (burned ∷ plan ∷ burned_gas_oil ∷ [])) 7 job hashes
      FuelGrade.vlsfo FuelGrade.mgo {r = mixed_result} refl refl refl mixed

abbrev one_result : CaseResult
one_result = result_with (VarianceEntry.reconciled variance ∷ []) false

one : compute_case_result reading (sources (burned ∷ plan ∷ [])) 7 job hashes ≡ ok one_result
unfolding compute_case_result reconcile_groups reconcile_group group_keys matching_plans
    validate_record heading daily_report voyage_plan observations_from observation required_str
    timestamp interval quantity strip strip_start strip_end is_space resolve_current numbered
    to_quantity fuel_variance refusal variance_of percentage sub add fix half_even div quotient
    strip_zeros mul quantize half_up digit_count
one = refl

abbrev version : ℕ → ℕ → Version
version id revision = record {
  id = id;
  account_id = 7;
  case_id = 20;
  revision = revision;
  evidence_hash = "some";
  content_hash = "entries";
  result = one_result.result_json;
}

abbrev portal : Portal ResultJson
portal = record {
  authority = record { principals = []; grants = []; attestations = [] };
  cases = case_row ∷ [];
  versions = version 30 1 ∷ [];
  verdicts = [];
  intents = [];
  outbox = [];
  publications = [];
}

commit_case_version-Stored_example :
    (done : Committed) × (s' : Portal ResultJson) × (commit_case_version 31 7 case_row one_result
        portal
      ≡ ok (done, s'))
    × Stored hashes 7 case_row one_result portal s' done
commit_case_version-Stored_example =
    commit_case_version-Stored hashes 31 7 case_row one_result portal reading
      (sources (burned ∷ plan ∷ [])) job one refl

abbrev verdict_row : Verdict
verdict_row = record {
  id = 40;
  account_id = 7;
  case_version_id = 30;
  expected_job_id = 3;
  case_revision = 1;
  content_hash = "entries";
  evidence_hash = "some";
  calculator_version = calculator_version;
  status = "verified";
  checked = 1;
  has_unresolved = false;
  completes = true;
}

abbrev judged : Portal ResultJson
judged = record portal { verdicts = verdict_row ∷ [] }

recorded :
    record_verification_verdict reading
      (sources (burned ∷ plan ∷ []))
      7
      job
      40
      (version 30 1)
      one_result
      portal
    ≡ ok (verdict_row, judged)
unfolding record_verification_verdict verify_case build_evidence group_keys verify_case_result
    verify_items verify_item verify_reconciled check_numbers independent_delta_percent
    finalize_case_status matching_plans validate_record heading daily_report voyage_plan
    observations_from observation required_str timestamp interval quantity strip strip_start
    strip_end is_space resolve_current numbered to_quantity fuel_variance refusal variance_of
    percentage sub add fix half_even div quotient strip_zeros mul quantize half_up digit_count
recorded = refl

record_verification_verdict-once_example :
    record_verification_verdict reading
      (sources (burned ∷ plan ∷ []))
      7
      job
      41
      (version 30 1)
      mixed_result
      judged
    ≡ ok (verdict_row, judged)
record_verification_verdict-once_example =
    record_verification_verdict-once reading (sources (burned ∷ plan ∷ [])) 7 job (version 30 1) 40
      41 one_result mixed_result portal {row = verdict_row} {s' = judged} recorded

gate_iff_Completes_example :
    (verdict_gate_reason platform (λ r. r.calculator_version) verdict_row case_row (version 30 1)
      ≡ none)
    ↔ Completes
        (some (items_of one_result.result_json.variances))
        (build_evidence reading (sources (burned ∷ plan ∷ [])) 7 job)
        false
gate_iff_Completes_example =
    gate_iff_Completes reading (sources (burned ∷ plan ∷ [])) 7 job platform 40 case_row
      (version 30 1) one_result portal {row = verdict_row} {portal' = judged} refl refl
      (record { same_result = refl; same_content = refl; same_evidence = refl }) recorded
