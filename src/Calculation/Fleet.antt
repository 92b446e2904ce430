-- ===== src/Calculation/Fleet.antt =====
-- `fleet_summary` of packages/shared/eastmed_shared/reconciliation/calculator.py.
use mari_time_system.Prelude.{
  ℕ, ◌-◌, String, str_eq, List, [], ◌∷◌, map, length, Bool, true, false, not, ◌&&◌, ◌||◌, ltb, leb,
  if◌then◌else◌, any, select, pos,
}
use mari_time_system.Calculation.Decimal.{Decimal, add}
use mari_time_system.Calculation.Variance.{
  FuelGrade, QuantityUnit, grade_index, unit_index, grade_text, same_grade, same_unit,
  CalculationReceipt, calculator_version, rounding_text,
}

pub record GradeTotal : Type 0 where
  pub fuel_grade : FuelGrade
  pub unit : QuantityUnit
  pub total : Decimal

pub record VesselGradeResult : Type 0 where
  pub vessel_ref : String
  pub fuel_grade : FuelGrade
  pub unit : QuantityUnit
  pub value : Decimal

pub record FleetSummaryResult : Type 0 where
  pub expected_vessels : ℕ
  pub covered_vessels : ℕ
  pub grade_totals : List GradeTotal
  pub excluded_grade_unit_pairs : List String
  pub receipt : CalculationReceipt VesselGradeResult

abbrev pub no_exclusions : List String → Bool
no_exclusions [] = true
no_exclusions (text ∷ texts) = false

-- `FleetSummaryResult.is_complete` and `FleetSummaryResult.missing_vessels`
abbrev pub is_complete : FleetSummaryResult → Bool
is_complete r =
    leb r.expected_vessels r.covered_vessels && no_exclusions r.excluded_grade_unit_pairs

abbrev pub missing_vessels : FleetSummaryResult → ℕ
missing_vessels r = r.expected_vessels - r.covered_vessels

abbrev pub zero_total : Decimal
zero_total = record { negative = false; digits = 0; exponent = pos 0 }

-- `by_key[key] = by_key.get(key, Decimal("0")) + row.value`, a new key at the end
unfoldable pub add_total : VesselGradeResult → List GradeTotal → List GradeTotal
add_total row [] =
    record { fuel_grade = row.fuel_grade; unit = row.unit; total = add zero_total row.value } ∷ []
add_total row (g ∷ gs) =
    if same_grade g.fuel_grade row.fuel_grade && same_unit g.unit row.unit
    then record g { total = add g.total row.value } ∷ gs
    else g ∷ add_total row gs

unfoldable pub totals_from : List GradeTotal → List VesselGradeResult → List GradeTotal
unfolding add_total
totals_from sums [] = sums
totals_from sums (row ∷ rows) = totals_from (add_total row sums) rows

-- The grade is in the rows with another unit, too.
abbrev pub is_mixed : List VesselGradeResult → FuelGrade → QuantityUnit → Bool
is_mixed rows grade unit =
    any (λ r. same_grade r.fuel_grade grade && not (same_unit r.unit unit)) rows

-- The order of the keys' texts.
abbrev pub total_before : GradeTotal → GradeTotal → Bool
total_before a b =
    ltb (grade_index a.fuel_grade) (grade_index b.fuel_grade)
    || same_grade a.fuel_grade b.fuel_grade && leb (unit_index a.unit) (unit_index b.unit)

unfoldable pub insert_total : GradeTotal → List GradeTotal → List GradeTotal
insert_total a [] = a ∷ []
insert_total a (b ∷ bs) = if total_before a b then a ∷ b ∷ bs else b ∷ insert_total a bs

unfoldable pub sort_totals : List GradeTotal → List GradeTotal
unfolding insert_total
sort_totals [] = []
sort_totals (a ∷ rest) = insert_total a (sort_totals rest)

-- The grades of sorted totals, each once.
abbrev pub grades_of : List GradeTotal → List FuelGrade
grades_of [] = []
grades_of (a ∷ []) = a.fuel_grade ∷ []
grades_of (a ∷ b ∷ rest) =
    if same_grade a.fuel_grade b.fuel_grade
    then grades_of (b ∷ rest)
    else a.fuel_grade ∷ grades_of (b ∷ rest)

-- `len(units) > 1`
abbrev pub has_two_units : List VesselGradeResult → FuelGrade → Bool
has_two_units rows grade =
    any (λ r. same_grade r.fuel_grade grade && is_mixed rows grade r.unit) rows

abbrev pub vessels_of : List VesselGradeResult → List String
vessels_of [] = []
vessels_of (row ∷ rows) =
    let rest = vessels_of rows in
    if any (str_eq row.vessel_ref) rest then rest else row.vessel_ref ∷ rest

unfoldable pub fleet_summary : List VesselGradeResult → ℕ → FleetSummaryResult
unfolding totals_from sort_totals
fleet_summary rows expected_vessels =
    let totals = sort_totals (totals_from [] rows) in
    let excluded = map grade_text (select (has_two_units rows) (grades_of totals)) in
    record {
      expected_vessels = expected_vessels;
      covered_vessels = length (vessels_of rows);
      grade_totals = select (λ g. not (any (str_eq (grade_text g.fuel_grade)) excluded)) totals;
      excluded_grade_unit_pairs = excluded;
      receipt = record {
        function = "fleet_summary";
        formula_version = calculator_version;
        rounding = rounding_text;
        inputs = rows;
        assumptions = [];
        exclusions = excluded;
      };
    }
