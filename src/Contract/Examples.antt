-- ===== src/Contract/Examples.antt =====
-- A daily report of one item, for packages/shared/eastmed_shared/reconciliation/contract.py.
use mari_time_system.Prelude.{
  ◌≡◌, refl, String, str_eq, none, some, List, [], ◌∷◌, ℕ, false, negsuc, if◌then◌else◌,
}
use mari_time_system.Calculation.Variance.{FuelGrade, QuantityUnit}
use mari_time_system.Contract.Fields.{
  RejectionReason, RecordKind, Raw, accepted, rejected, ParsedInstant, ParsedDecimal, Parsers,
  is_space, strip_start, strip_end, strip, required_str, NormalizedTimestamp, timestamp, interval,
  quantity,
}
use mari_time_system.Contract.Record.{
  RawItem, Payload, SourcePointer, NormalizedRecord, observation, observations_from, heading,
  daily_report, validate_record,
}
use mari_time_system.Contract.Accepts.{Conforms, validate_record-Conforms}

-- Parsers that know three texts.
abbrev sample_parsers : Parsers
sample_parsers = record {
  fromisoformat = λ s.
      if str_eq s "2026-01-02T00:00:00Z"
      then ParsedInstant.instant 200
      else if str_eq s "2026-01-01T00:00:00Z"
      then ParsedInstant.instant 100
      else ParsedInstant.no_instant;
  decimal = λ s.
      if str_eq s "12.500000"
      then ParsedDecimal.finite
          (record { negative = false; digits = 12500000; exponent = negsuc 5 })
      else ParsedDecimal.no_decimal;
}

abbrev item : String → String → Raw
item quantity_text key =
    if str_eq key "item_key"
    then Raw.text "main engine"
    else if str_eq key "fuel_grade"
    then Raw.text "VLSFO"
    else if str_eq key "unit"
    then Raw.text "tonne"
    else if str_eq key "quantity"
    then Raw.text quantity_text
    else Raw.absent

abbrev report_field : String → Raw
report_field key =
    if str_eq key "schema_version"
    then Raw.text "fleet_reconciliation_v1"
    else if str_eq key "record_kind"
    then Raw.text "daily_report"
    else if str_eq key "period_start"
    then Raw.text "2026-01-01T00:00:00Z"
    else if str_eq key "period_end"
    then Raw.text "2026-01-02T00:00:00Z"
    else if str_eq key "recorded_at"
    then Raw.text " 2026-01-02T00:00:00Z "
    else Raw.text "x1"

abbrev report : List String → Payload
report quantities = record { field = report_field; items = some (items quantities) }
  where
    items : List String → List RawItem
    items [] = []
    items (q ∷ qs) = RawItem.object (item q) ∷ items qs

abbrev stamp : ℕ → String → NormalizedTimestamp
stamp t s = record { utc = t; original = s }

abbrev accepted_report : NormalizedRecord
accepted_report = record {
  schema_version = "fleet_reconciliation_v1";
  record_kind = RecordKind.daily_report;
  source_system = "x1";
  external_ref = "x1";
  source_revision = "x1";
  vessel_ref = "x1";
  recorded_at = stamp 200 "2026-01-02T00:00:00Z";
  voyage_ref = some "x1";
  plan_revision = none;
  authority_role = none;
  interval_start = some (stamp 100 "2026-01-01T00:00:00Z");
  interval_end = some (stamp 200 "2026-01-02T00:00:00Z");
  observations =
      record {
        field = "fuel_consumed";
        item_key = "main engine";
        fuel_grade = FuelGrade.vlsfo;
        value = record { negative = false; digits = 12500000; exponent = negsuc 5 };
        unit = QuantityUnit.tonne;
        period_start = stamp 100 "2026-01-01T00:00:00Z";
        period_end = stamp 200 "2026-01-02T00:00:00Z";
        source_pointer = SourcePointer.item_at 0;
      }
      ∷ [];
}

accepts_report :
    validate_record sample_parsers (report ("12.500000" ∷ [])) ≡ accepted accepted_report
unfolding validate_record heading daily_report observations_from observation required_str timestamp
    interval quantity strip strip_start strip_end is_space
accepts_report = refl

refuses_blank :
    validate_record sample_parsers (report (" " ∷ [])) ≡ rejected RejectionReason.absent_quantity
unfolding validate_record heading daily_report observations_from observation required_str timestamp
    interval quantity strip strip_start strip_end is_space
refuses_blank = refl

refuses_repeat :
    validate_record sample_parsers (report ("12.500000" ∷ "12.500000" ∷ []))
    ≡ rejected RejectionReason.duplicate_item_key
unfolding validate_record heading daily_report observations_from observation required_str timestamp
    interval quantity strip strip_start strip_end is_space
refuses_repeat = refl

validate_record-Conforms_example : Conforms accepted_report
validate_record-Conforms_example =
    validate_record-Conforms sample_parsers (report ("12.500000" ∷ [])) accepted_report
      accepts_report
