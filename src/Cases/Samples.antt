-- ===== src/Cases/Samples.antt =====
-- The rows of a small case, for packages/pipeline/eastmed_pipeline/reconciliation_case.py.
use mari_time_system.Prelude.{
  String, str_eq, Option, none, some, List, [], ◌∷◌, ℕ, false, pos, negsuc, if◌then◌else◌,
}
use mari_time_system.Authority.Attestation.{Platform}
use mari_time_system.Publication.State.{AutomationStatus, BusinessStatus, Case}
use mari_time_system.Calculation.Decimal.{Decimal}
use mari_time_system.Calculation.Variance.{FuelGrade, QuantityUnit}
use mari_time_system.Contract.Fields.{Raw, ParsedInstant, ParsedDecimal}
use mari_time_system.Contract.Record.{RawItem}
use mari_time_system.Cases.Rows.{Observation, Capture, ExpectedJob, Sources, Reading}
use mari_time_system.Cases.Build.{ResultJson, Hashes, VarianceEntry, EvidenceRef}

abbrev pub tonnes : ℕ → Decimal
tonnes micro = record { negative = false; digits = micro; exponent = negsuc 5 }

abbrev pub reading : Reading
reading = record {
  parsers = record {
    fromisoformat =
        λ s. if str_eq s "day 2" then ParsedInstant.instant 200 else ParsedInstant.instant 100;
    decimal = λ s. ParsedDecimal.finite (tonnes 10000000);
  };
  integer = λ s. if str_eq s "1" then some (pos 1) else if str_eq s "2" then some (pos 2) else none;
}

-- The same fields serve a report and a plan, which read different keys.
abbrev pub field_of : String → String → Raw
field_of kind key =
    if str_eq key "schema_version"
    then Raw.text "fleet_reconciliation_v1"
    else if str_eq key "record_kind"
    then Raw.text kind
    else if str_eq key "period_end"
    then Raw.text "day 2"
    else if str_eq key "effective_to"
    then Raw.text "day 2"
    else if str_eq key "fuel_grade"
    then Raw.text "VLSFO"
    else if str_eq key "unit"
    then Raw.text "tonne"
    else Raw.text "x1"

abbrev pub capture : ℕ → String → String → Capture
capture id kind revision = record {
  id = id;
  account_id = 7;
  source_system = "noon reports";
  external_ref = "r1";
  source_revision = revision;
  payload = record { field = field_of kind; items = some (RawItem.object (field_of kind) ∷ []) };
}

abbrev pub row : ℕ → ℕ → Option ℕ → String → FuelGrade → ℕ → Observation
row id capture_id job field grade micro = record {
  id = id;
  account_id = 7;
  capture_id = capture_id;
  expected_job_id = job;
  field = field;
  fuel_grade = grade;
  value = tonnes micro;
  unit = QuantityUnit.tonne;
  period_start = 100;
  period_end = 200;
}

abbrev pub burned : Observation
burned = row 1 1 (some 3) "fuel_consumed" FuelGrade.vlsfo 12500000

abbrev pub plan : Observation
plan = row 2 2 none "fuel_planned" FuelGrade.vlsfo 10000000

abbrev pub burned_gas_oil : Observation
burned_gas_oil = row 4 1 (some 3) "fuel_consumed" FuelGrade.mgo 800000

abbrev pub sources : List Observation → Sources
sources rows = record {
  captures = capture 1 "daily_report" "1" ∷ capture 2 "voyage_plan" "1" ∷ [];
  observations = rows;
}

abbrev pub job : ExpectedJob
job = record {
  id = 3;
  account_id = 7;
  vessel_ref = "x1";
  voyage_ref = some "x1";
  period_start = 100;
  period_end = 200;
  result_contract_version = "fleet_result_v1";
}

-- Hashes that tell a few results apart.
abbrev pub hashes : Hashes
hashes = record { content = λ r. by_entries r.variances; evidence = λ refs. by_refs refs }
  where
    by_entries : List VarianceEntry → String
    by_entries [] = "empty"
    by_entries (e ∷ es) = "entries"

    by_refs : List EvidenceRef → String
    by_refs [] = "none"
    by_refs (r ∷ rs) = "some"

abbrev pub case_row : Case
case_row = record {
  id = 20;
  account_id = 7;
  expected_job_id = 3;
  automation_status = AutomationStatus.validated;
  business_status = BusinessStatus.pending;
  deadline_at = 900;
}

abbrev pub platform : Platform ResultJson
platform = record {
  canonical_payload_hash = λ r. "entries";
  uuid_text = λ n. "id";
  parse_uuid = λ s. none;
}
