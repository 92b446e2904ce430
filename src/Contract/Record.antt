-- ===== src/Contract/Record.antt =====
-- `validate_record` of packages/shared/eastmed_shared/reconciliation/contract.py.
use mari_time_system.Prelude.{
  ℕ, ◌+◌, String, str_eq, Option, none, some, List, [], ◌∷◌, not, member,
}
use mari_time_system.Calculation.Decimal.{Decimal}
use mari_time_system.Calculation.Variance.{FuelGrade, QuantityUnit}
use mari_time_system.Contract.Fields.{
  RejectionReason, RecordKind, AuthorityRole, Raw, Checked, accepted, rejected, ◌>>=◌, ◌>>◌,
  reject_if, Parsers, required_str, NormalizedTimestamp, timestamp, interval, record_kind,
  authority_role, fuel_grade, quantity_unit, quantity,
}

-- An element of `items`: an object, read by its keys, or something else.
pub data RawItem : Type 0 where
  not_an_object : RawItem
  object : (String → Raw) → RawItem

-- A decoded record; `items` is `none` where it is missing or no list.
pub record Payload : Type 0 where
  pub field : String → Raw
  pub items : Option (List RawItem)

abbrev pub contract_version : String
contract_version = "fleet_reconciliation_v1"

-- The item's own pointer, or `/items/{index}`.
pub data SourcePointer : Type 0 where
  given : String → SourcePointer
  item_at : ℕ → SourcePointer

-- Every observation has the origin REPORTED and the one normalization version.
pub record NormalizedObservation : Type 0 where
  pub field : String
  pub item_key : String
  pub fuel_grade : FuelGrade
  pub value : Decimal
  pub unit : QuantityUnit
  pub period_start : NormalizedTimestamp
  pub period_end : NormalizedTimestamp
  pub source_pointer : SourcePointer

pub record NormalizedRecord : Type 0 where
  pub schema_version : String
  pub record_kind : RecordKind
  pub source_system : String
  pub external_ref : String
  pub source_revision : String
  pub vessel_ref : String
  pub recorded_at : NormalizedTimestamp
  pub voyage_ref : Option String
  pub plan_revision : Option String
  pub authority_role : Option AuthorityRole
  pub interval_start : Option NormalizedTimestamp
  pub interval_end : Option NormalizedTimestamp
  pub observations : List NormalizedObservation

abbrev pub pointer_of : Raw → ℕ → SourcePointer
pointer_of (Raw.text s) index = SourcePointer.given s
pointer_of _ index = SourcePointer.item_at index

abbrev pub Period : Type 0
Period = NormalizedTimestamp × NormalizedTimestamp

-- The reporting period of a report, the item's own in a plan.
abbrev pub item_period : Parsers → (String → Raw) → Option Period → Checked Period
item_period parsers item (some period) = accepted period
item_period parsers item none = do
  start ← timestamp parsers (item "period_start")
  end_ ← timestamp parsers (item "period_end")
  interval start end_

-- The loop's body, `seen` the item keys so far.
unfoldable pub observation :
    Parsers → String → Option Period → List String → ℕ → RawItem → Checked NormalizedObservation
observation parsers field_name report_period seen index RawItem.not_an_object =
    rejected RejectionReason.malformed_record
observation parsers field_name report_period seen index (RawItem.object item) = do
  key ← required_str (item "item_key")
  reject_if (member key seen) RejectionReason.duplicate_item_key
  grade ← fuel_grade (item "fuel_grade")
  unit ← quantity_unit (item "unit")
  value ← quantity parsers (item "quantity")
  period ← item_period parsers item report_period
  accepted (record {
    field = field_name;
    item_key = key;
    fuel_grade = grade;
    value = value;
    unit = unit;
    period_start = period.0;
    period_end = period.1;
    source_pointer = pointer_of (item "source_pointer") index;
  })

unfoldable pub observations_from :
    Parsers
    → String
    → Option Period
    → List String
    → ℕ
    → List RawItem
    → Checked (List NormalizedObservation)
unfolding observation
observations_from parsers field_name report_period seen index [] = accepted []
observations_from parsers field_name report_period seen index (item ∷ items) = do
  o ← observation parsers field_name report_period seen index item
  rest ← observations_from parsers field_name report_period (o.item_key ∷ seen) (index + 1) items
  accepted (o ∷ rest)

abbrev pub observations :
    Parsers → String → Option Period → Option (List RawItem) → Checked (List NormalizedObservation)
observations parsers field_name report_period (some (item ∷ items)) =
    observations_from parsers field_name report_period [] 0 (item ∷ items)
observations parsers field_name report_period _ = rejected RejectionReason.empty_items

-- What every record has.
pub record Heading : Type 0 where
  pub schema_version : String
  pub record_kind : RecordKind
  pub source_system : String
  pub external_ref : String
  pub source_revision : String
  pub vessel_ref : String
  pub recorded_at : NormalizedTimestamp

unfoldable pub heading : Parsers → Payload → Checked Heading
heading parsers payload = do
  version ← required_str (payload.field "schema_version")
  reject_if (not (str_eq version contract_version)) RejectionReason.unknown_schema_version
  kind ← record_kind (payload.field "record_kind")
  source ← required_str (payload.field "source_system")
  external ← required_str (payload.field "external_ref")
  revision ← required_str (payload.field "source_revision")
  vessel ← required_str (payload.field "vessel_ref")
  recorded ← timestamp parsers (payload.field "recorded_at")
  accepted (record {
    schema_version = version;
    record_kind = kind;
    source_system = source;
    external_ref = external;
    source_revision = revision;
    vessel_ref = vessel;
    recorded_at = recorded;
  })

abbrev pub with_heading :
    Heading
    → Option String
    → Option String
    → Option AuthorityRole
    → Period
    → List NormalizedObservation
    → NormalizedRecord
with_heading h voyage plan role period rows = record {
  schema_version = h.schema_version;
  record_kind = h.record_kind;
  source_system = h.source_system;
  external_ref = h.external_ref;
  source_revision = h.source_revision;
  vessel_ref = h.vessel_ref;
  recorded_at = h.recorded_at;
  voyage_ref = voyage;
  plan_revision = plan;
  authority_role = role;
  interval_start = some period.0;
  interval_end = some period.1;
  observations = rows;
}

-- `_interval` over the timestamps under two keys.
abbrev pub interval_at : Parsers → Payload → String → String → Checked Period
interval_at parsers payload from until = do
  start ← timestamp parsers (payload.field from)
  end_ ← timestamp parsers (payload.field until)
  interval start end_

unfoldable pub membership : Parsers → Payload → Heading → Checked NormalizedRecord
membership parsers payload h = do
  role ← authority_role (payload.field "authority_role")
  period ← interval_at parsers payload "valid_from" "valid_to"
  accepted (with_heading h none none (some role) period [])

unfoldable pub voyage_plan : Parsers → Payload → Heading → Checked NormalizedRecord
voyage_plan parsers payload h = do
  voyage ← required_str (payload.field "voyage_ref")
  plan ← required_str (payload.field "plan_revision")
  period ← interval_at parsers payload "effective_from" "effective_to"
  rows ← observations parsers "fuel_planned" none payload.items
  accepted (with_heading h (some voyage) (some plan) none period rows)

unfoldable pub daily_report : Parsers → Payload → Heading → Checked NormalizedRecord
daily_report parsers payload h = do
  voyage ← required_str (payload.field "voyage_ref")
  period ← interval_at parsers payload "period_start" "period_end"
  rows ← observations parsers "fuel_consumed" (some period) payload.items
  accepted (with_heading h (some voyage) none none period rows)

abbrev pub validate_kind : Parsers → Payload → Heading → RecordKind → Checked NormalizedRecord
validate_kind parsers payload h RecordKind.fleet_membership = membership parsers payload h
validate_kind parsers payload h RecordKind.voyage_plan = voyage_plan parsers payload h
validate_kind parsers payload h RecordKind.daily_report = daily_report parsers payload h

-- `validate_record` on a mapping.
unfoldable pub validate_record : Parsers → Payload → Checked NormalizedRecord
validate_record parsers payload = do
  h ← heading parsers payload
  validate_kind parsers payload h h.record_kind
