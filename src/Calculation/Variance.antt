-- ===== src/Calculation/Variance.antt =====
-- `fuel_variance` and `planned_actual_delta` of
-- packages/shared/eastmed_shared/reconciliation/calculator.py.
use mari_time_system.Prelude.{
  ℕ, String, str_eq, Option, none, some, List, [], ◌∷◌, Bool, not, ◌&&◌, ◌||◌, ◌==◌, if◌then◌else◌,
  Result, ok, ◌>>=◌,
}
use mari_time_system.Calculation.Decimal.{
  Decimal, sub, mul, div, quantize, is_negative, is_zero, hundred,
}

pub data FuelGrade : Type 0 where
  hsfo vlsfo ulsfo lsmgo mgo mdo lng lpg methanol biofuel : FuelGrade

pub data QuantityUnit : Type 0 where
  tonne kilogram cubic_metre litre : QuantityUnit

-- The place of a grade's text among the sorted texts, LNG before LPG before LSMGO.
abbrev pub grade_index : FuelGrade → ℕ
grade_index FuelGrade.biofuel = 0
grade_index FuelGrade.hsfo = 1
grade_index FuelGrade.lng = 2
grade_index FuelGrade.lpg = 3
grade_index FuelGrade.lsmgo = 4
grade_index FuelGrade.mdo = 5
grade_index FuelGrade.methanol = 6
grade_index FuelGrade.mgo = 7
grade_index FuelGrade.ulsfo = 8
grade_index FuelGrade.vlsfo = 9

abbrev pub unit_index : QuantityUnit → ℕ
unit_index QuantityUnit.kilogram = 0
unit_index QuantityUnit.litre = 1
unit_index QuantityUnit.cubic_metre = 2
unit_index QuantityUnit.tonne = 3

-- The grade's value.
abbrev pub grade_text : FuelGrade → String
grade_text FuelGrade.biofuel = "BIOFUEL"
grade_text FuelGrade.hsfo = "HSFO"
grade_text FuelGrade.lng = "LNG"
grade_text FuelGrade.lpg = "LPG"
grade_text FuelGrade.lsmgo = "LSMGO"
grade_text FuelGrade.mdo = "MDO"
grade_text FuelGrade.methanol = "METHANOL"
grade_text FuelGrade.mgo = "MGO"
grade_text FuelGrade.ulsfo = "ULSFO"
grade_text FuelGrade.vlsfo = "VLSFO"

-- `a is b`
abbrev pub same_grade : FuelGrade → FuelGrade → Bool
same_grade a b = grade_index a == grade_index b

abbrev pub same_unit : QuantityUnit → QuantityUnit → Bool
same_unit a b = unit_index a == unit_index b

pub data CalcRefusalReason : Type 0 where
  missing_input grade_mismatch incompatible_basis interval_mismatch stale_plan negative_quantity
        overlapping_intervals unresolved_revision event_meaning_differs time_base_differs :
      CalcRefusalReason

pub record QuantityInput : Type 0 where
  pub input_id : ℕ
  pub fuel_grade : FuelGrade
  pub value : Decimal
  pub unit : QuantityUnit
  pub period_start : ℕ
  pub period_end : ℕ
  pub revision : String

-- `inputs` holds what the source writes as texts.
pub record CalculationReceipt (Input : Type 0) : Type 0 where
  pub function : String
  pub formula_version : String
  pub rounding : String
  pub inputs : List Input
  pub assumptions : List String
  pub exclusions : List String

abbrev pub calculator_version : String
calculator_version = "recon_calculator_v1"

abbrev pub rounding_text : String
rounding_text = "ROUND_HALF_UP@2"

abbrev pub zero_plan_base : String
zero_plan_base = "ZERO_PLAN_BASE"

-- `_round2`
abbrev pub round2 : Decimal → Result Decimal
round2 = quantize

pub record FuelVarianceResult : Type 0 where
  pub fuel_grade : FuelGrade
  pub unit : QuantityUnit
  pub period_start : ℕ
  pub period_end : ℕ
  pub actual_unrounded : Decimal
  pub planned_unrounded : Decimal
  pub delta_unrounded : Decimal
  pub delta : Decimal
  pub percent_unrounded : Option Decimal
  pub percent : Option Decimal
  pub percent_reason : Option String
  pub receipt : CalculationReceipt (String × QuantityInput)

-- What a registered function returns, if it does not raise.
pub data CalcOutcome (A : Type 0) : Type 0 where
  refused : CalcRefusalReason → CalcOutcome A
  computed : A → CalcOutcome A

-- The percentage before and after rounding, and why it is withheld.
pub record Percentage : Type 0 where
  pub unrounded : Option Decimal
  pub rounded : Option Decimal
  pub reason : Option String

unfoldable pub percentage : Decimal → Decimal → Result Percentage
percentage delta planned =
    if is_zero planned
    then ok (record { unrounded = none; rounded = none; reason = some zero_plan_base })
    else (do
      ratio ← div delta planned
      let unrounded = mul ratio hundred
      rounded ← round2 unrounded
      ok (record { unrounded = some unrounded; rounded = some rounded; reason = none }))

abbrev pub assumptions_for : Option String → List String
assumptions_for none = []
assumptions_for (some reason) = zero_plan_base ∷ []

unfoldable pub variance_of : QuantityInput → QuantityInput → Result FuelVarianceResult
unfolding percentage
variance_of actual planned = do
  let difference = sub actual.value planned.value
  p ← percentage difference planned.value
  shown ← round2 difference
  ok (record {
    fuel_grade = actual.fuel_grade;
    unit = actual.unit;
    period_start = actual.period_start;
    period_end = actual.period_end;
    actual_unrounded = actual.value;
    planned_unrounded = planned.value;
    delta_unrounded = difference;
    delta = shown;
    percent_unrounded = p.unrounded;
    percent = p.rounded;
    percent_reason = p.reason;
    receipt = record {
      function = "fuel_variance";
      formula_version = calculator_version;
      rounding = rounding_text;
      inputs = ("actual", actual) ∷ ("planned", planned) ∷ [];
      assumptions = assumptions_for p.reason;
      exclusions = [];
    };
  })

-- The first condition that fails, in the order of the source.
unfoldable pub refusal : QuantityInput → QuantityInput → Bool → Option CalcRefusalReason
refusal actual planned plan_superseded =
    if plan_superseded
    then some CalcRefusalReason.stale_plan
    else if not (same_grade actual.fuel_grade planned.fuel_grade)
    then some CalcRefusalReason.grade_mismatch
    else if not (same_unit actual.unit planned.unit)
    then some CalcRefusalReason.incompatible_basis
    else if not
        (actual.period_start == planned.period_start && actual.period_end == planned.period_end)
    then some CalcRefusalReason.interval_mismatch
    else if is_negative actual.value || is_negative planned.value
    then some CalcRefusalReason.negative_quantity
    else none

unfoldable pub fuel_variance :
    QuantityInput → Option QuantityInput → Bool → Result (CalcOutcome FuelVarianceResult)
unfolding refusal variance_of
fuel_variance actual none plan_superseded = ok (CalcOutcome.refused CalcRefusalReason.missing_input)
fuel_variance actual (some planned) plan_superseded =
    elim (refusal actual planned plan_superseded) [
      | some reason ↦ ok (CalcOutcome.refused reason)
      | none ↦ variance_of actual planned >>= λ v. ok (CalcOutcome.computed v)
    ]

pub record DeltaResult : Type 0 where
  pub basis : String
  pub unit : QuantityUnit
  pub delta_unrounded : Decimal
  pub delta : Decimal
  pub receipt : CalculationReceipt (String × QuantityInput)

abbrev pub delta_result : String → QuantityInput → QuantityInput → Decimal → Decimal → DeltaResult
delta_result basis planned actual difference shown = record {
  basis = basis;
  unit = planned.unit;
  delta_unrounded = difference;
  delta = shown;
  receipt = record {
    function = "planned_actual_delta";
    formula_version = calculator_version;
    rounding = rounding_text;
    inputs = ("planned", planned) ∷ ("actual", actual) ∷ [];
    assumptions = [];
    exclusions = [];
  };
}

unfoldable pub planned_actual_delta :
    QuantityInput → QuantityInput → String → String → Result (CalcOutcome DeltaResult)
planned_actual_delta planned actual planned_basis actual_basis =
    if not (str_eq planned_basis actual_basis)
    then ok (CalcOutcome.refused CalcRefusalReason.event_meaning_differs)
    else if not (same_unit planned.unit actual.unit)
    then ok (CalcOutcome.refused CalcRefusalReason.time_base_differs)
    else (do
      let difference = sub actual.value planned.value
      shown ← round2 difference
      ok (CalcOutcome.computed (delta_result planned_basis planned actual difference shown)))
