-- ===== src/Contract/Fields.antt =====
-- The readers of single fields of packages/shared/eastmed_shared/reconciliation/contract.py.
use Prim.Native.Char.{code}
use mari_time_system.Prelude.{
  ℕ, ◌*◌, ◌^◌, String, str_eq, is_blank, none, some, List, [], ◌∷◌, Bool, true, false, ◌&&◌, ◌||◌,
  ◌==◌, ltb, leb, if◌then◌else◌, find, pos, neg_part, gap_ℤ,
}
use mari_time_system.Calculation.Decimal.{Decimal}
use mari_time_system.Calculation.Variance.{FuelGrade, grade_text, QuantityUnit}

pub data RejectionReason : Type 0 where
  malformed_record unknown_schema_version unknown_record_kind missing_required_field
        invalid_timestamp ambiguous_timestamp interval_order_invalid empty_items duplicate_item_key
        unknown_fuel_grade unsupported_unit absent_quantity invalid_quantity precision_exceeded
        range_exceeded invalid_authority_role :
      RejectionReason

pub data RecordKind : Type 0 where
  fleet_membership voyage_plan daily_report : RecordKind

pub data AuthorityRole : Type 0 where
  owner operator technical_manager charterer : AuthorityRole

-- A decoded value: missing or `null`, a text, or of another type.
pub data Raw : Type 0 where
  absent : Raw
  text : String → Raw
  other : Raw

-- A `_RejectionSignal` ends the validation; its `detail` and `field` are left out.
pub data Checked (A : Type 0) : Type 0 where
  accepted : A → Checked A
  rejected : RejectionReason → Checked A

infixl 5 ◌>>=◌ ◌>>◌
abbrev pub ◌>>=◌ : {A B : Type 0} → Checked A → (A → Checked B) → Checked B
accepted a >>= f = f a
rejected reason >>= f = rejected reason

abbrev pub ◌>>◌ : {B : Type 0} → Checked (Unit {0}) → Checked B → Checked B
m >> k = m >>= λ _. k

-- `if bad: _reject(reason)`
abbrev pub reject_if : Bool → RejectionReason → Checked (Unit {0})
reject_if true reason = rejected reason
reject_if false reason = accepted tt

-- What `datetime.fromisoformat` and `Decimal` make of a text.
pub data ParsedInstant : Type 0 where
  no_instant naive : ParsedInstant
  instant : ℕ → ParsedInstant

pub data ParsedDecimal : Type 0 where
  no_decimal not_finite : ParsedDecimal
  finite : Decimal → ParsedDecimal

-- The parsers of Python's standard library; nothing is assumed of them.
pub record Parsers : Type 0 where
  pub fromisoformat : String → ParsedInstant
  pub decimal : String → ParsedDecimal

-- `str.isspace` on a code point.
unfoldable pub is_space : ℕ → Bool
is_space c =
    leb 9 c && leb c 13
    || leb 28 c && leb c 32
    || c == 133
    || c == 160
    || c == 5760
    || leb 8192 c && leb c 8202
    || c == 8232
    || c == 8233
    || c == 8239
    || c == 8287
    || c == 12288

unfoldable pub strip_start : String → String
strip_start String.[] = ""
strip_start (String.◌∷◌ c s) =
    let rest = strip_start s in if is_space (code c) then rest else String.◌∷◌ c s

unfoldable pub strip_end : String → String
strip_end String.[] = ""
strip_end (String.◌∷◌ c s) =
    let rest = strip_end s in if is_space (code c) && is_blank rest then "" else String.◌∷◌ c rest

-- `str.strip`
unfoldable pub strip : String → String
unfolding is_space strip_start strip_end
strip s = strip_end (strip_start s)

unfoldable pub required_str : Raw → Checked String
required_str (Raw.text s) =
    if is_blank (strip s)
    then rejected RejectionReason.missing_required_field
    else accepted (strip s)
required_str _ = rejected RejectionReason.missing_required_field

pub record NormalizedTimestamp : Type 0 where
  pub utc : ℕ
  pub original : String

abbrev pub with_offset : String → ParsedInstant → Checked NormalizedTimestamp
with_offset s ParsedInstant.no_instant = rejected RejectionReason.invalid_timestamp
with_offset s ParsedInstant.naive = rejected RejectionReason.ambiguous_timestamp
with_offset s (ParsedInstant.instant t) = accepted (record { utc = t; original = s })

unfoldable pub timestamp : Parsers → Raw → Checked NormalizedTimestamp
timestamp parsers (Raw.text s) =
    if is_blank (strip s)
    then rejected RejectionReason.missing_required_field
    else with_offset (strip s) (parsers.fromisoformat (strip s))
timestamp parsers _ = rejected RejectionReason.missing_required_field

unfoldable pub interval :
    NormalizedTimestamp → NormalizedTimestamp → Checked (NormalizedTimestamp × NormalizedTimestamp)
interval start end_ =
    if leb end_.utc start.utc
    then rejected RejectionReason.interval_order_invalid
    else accepted (start, end_)

-- `enum_cls(raw)`: the member with the text.
abbrev pub enum_of : {A : Type 0} → (A → String) → List A → RejectionReason → Raw → Checked A
enum_of value members reason (Raw.text s) = elim (find (λ a. str_eq (value a) s) members) [
  | some a ↦ accepted a
  | none ↦ rejected reason
]
enum_of value members reason _ = rejected reason

abbrev pub kind_text : RecordKind → String
kind_text RecordKind.fleet_membership = "fleet_membership"
kind_text RecordKind.voyage_plan = "voyage_plan"
kind_text RecordKind.daily_report = "daily_report"

abbrev pub record_kind : Raw → Checked RecordKind
record_kind =
    enum_of kind_text
      (RecordKind.fleet_membership ∷ RecordKind.voyage_plan ∷ RecordKind.daily_report ∷ [])
      RejectionReason.unknown_record_kind

abbrev pub role_text : AuthorityRole → String
role_text AuthorityRole.owner = "owner"
role_text AuthorityRole.operator = "operator"
role_text AuthorityRole.technical_manager = "technical_manager"
role_text AuthorityRole.charterer = "charterer"

abbrev pub authority_role : Raw → Checked AuthorityRole
authority_role =
    enum_of role_text
      (AuthorityRole.owner ∷ AuthorityRole.operator ∷ AuthorityRole.technical_manager
        ∷ AuthorityRole.charterer ∷ [])
      RejectionReason.invalid_authority_role

abbrev pub fuel_grade : Raw → Checked FuelGrade
fuel_grade =
    enum_of grade_text
      (FuelGrade.hsfo ∷ FuelGrade.vlsfo ∷ FuelGrade.ulsfo ∷ FuelGrade.lsmgo ∷ FuelGrade.mgo
        ∷ FuelGrade.mdo ∷ FuelGrade.lng ∷ FuelGrade.lpg ∷ FuelGrade.methanol ∷ FuelGrade.biofuel
        ∷ [])
      RejectionReason.unknown_fuel_grade

abbrev pub unit_text : QuantityUnit → String
unit_text QuantityUnit.tonne = "tonne"
unit_text QuantityUnit.kilogram = "kilogram"
unit_text QuantityUnit.cubic_metre = "m3"
unit_text QuantityUnit.litre = "litre"

abbrev pub quantity_unit : Raw → Checked QuantityUnit
quantity_unit =
    enum_of unit_text
      (QuantityUnit.tonne ∷ QuantityUnit.kilogram ∷ QuantityUnit.cubic_metre ∷ QuantityUnit.litre
        ∷ [])
      RejectionReason.unsupported_unit

abbrev pub max_decimal_places : ℕ
max_decimal_places = 6

abbrev pub max_abs_quantity : ℕ
max_abs_quantity = 1000000000

-- `abs(value) > MAX_ABS_QUANTITY`
abbrev pub exceeds_range : Decimal → Bool
exceeds_range d =
    ltb (max_abs_quantity * 10 ^ gap_ℤ (pos 0) d.exponent)
      (d.digits * 10 ^ gap_ℤ d.exponent (pos 0))

abbrev pub bounded_decimal : ParsedDecimal → Checked Decimal
bounded_decimal ParsedDecimal.no_decimal = rejected RejectionReason.invalid_quantity
bounded_decimal ParsedDecimal.not_finite = rejected RejectionReason.invalid_quantity
bounded_decimal (ParsedDecimal.finite d) =
    if ltb max_decimal_places (neg_part d.exponent)
    then rejected RejectionReason.precision_exceeded
    else if exceeds_range d
    then rejected RejectionReason.range_exceeded
    else accepted d

unfoldable pub quantity : Parsers → Raw → Checked Decimal
quantity parsers Raw.absent = rejected RejectionReason.absent_quantity
quantity parsers Raw.other = rejected RejectionReason.invalid_quantity
quantity parsers (Raw.text s) =
    if is_blank (strip s)
    then rejected RejectionReason.absent_quantity
    else bounded_decimal (parsers.decimal (strip s))
