-- ===== src/Calculation/Examples.antt =====
-- Calculations on concrete quantities, for
-- packages/shared/eastmed_shared/reconciliation/calculator.py.
use mari_time_system.Prelude.{
  ℕ, String, [], ◌∷◌, map, ◌↔◌, Bool, ◌≡◌, refl, some, true, false, negsuc, ok, err,
  arithmetic_error, arith,
}
use mari_time_system.Calculation.Decimal.{
  Decimal, digit_count, half_even, half_up, fix, add, strip_zeros, quotient, div, quantize,
}
use mari_time_system.Calculation.Variance.{
  FuelGrade, QuantityUnit, CalcRefusalReason, QuantityInput, CalcOutcome, DeltaResult, refusal,
  fuel_variance, planned_actual_delta,
}
use mari_time_system.Calculation.Periods.{
  Interval, insert_interval, sort_intervals, covering, report_period_reconcile,
}
use mari_time_system.Calculation.Disjoint.{IsReport, report_period_reconcile_iff_IsReport}
use mari_time_system.Calculation.Fleet.{
  VesselGradeResult, add_total, totals_from, insert_total, sort_totals, fleet_summary,
}
use mari_time_system.Calculation.Exact.{IsExact, planned_actual_delta-IsExact}

abbrev tonnes : Bool → ℕ → Decimal
tonnes negative micro = record { negative = negative; digits = micro; exponent = negsuc 5 }

abbrev input : ℕ → QuantityInput
input micro = record {
  input_id = 1;
  fuel_grade = FuelGrade.vlsfo;
  value = tonnes false micro;
  unit = QuantityUnit.tonne;
  period_start = 100;
  period_end = 200;
  revision = "1";
}

-- 1 / 3 to 28 digits, -1.5 / 4 exactly.
quotients :
    (div (tonnes false 1000000) (tonnes false 3000000)
      ≡ ok (record {
        negative = false;
        digits = 3333333333333333333333333333;
        exponent = negsuc 27;
      }))
    × (div (tonnes true 1500000) (tonnes false 4000000)
        ≡ ok (record { negative = true; digits = 375; exponent = negsuc 2 }))
unfolding div quotient strip_zeros digit_count fix half_even
quotients = (refl, refl)

no_quotient : div (tonnes false 1) (tonnes false 0) ≡ err arithmetic_error
unfolding div
no_quotient = refl

-- 0.125 and -0.125 round away from zero.
ties :
    (quantize (tonnes false 125000)
      ≡ ok (record { negative = false; digits = 13; exponent = negsuc 1 }))
    × (quantize (tonnes true 125000)
        ≡ ok (record { negative = true; digits = 13; exponent = negsuc 1 }))
unfolding quantize half_up digit_count
ties = (refl, refl)

superseded_plan :
    fuel_variance (input 12500000) (some (input 10000000)) true
    ≡ ok (CalcOutcome.refused CalcRefusalReason.stale_plan)
unfolding fuel_variance refusal
superseded_plan = refl

planned_actual_delta-IsExact_example :
    (r : DeltaResult) × (planned_actual_delta (input 10000000) (input 12505000) "bunkers" "bunkers"
      ≡ ok (CalcOutcome.computed r))
    × IsExact (tonnes false 12505000) (tonnes false 10000000) r.delta_unrounded r.delta
planned_actual_delta-IsExact_example =
    planned_actual_delta-IsExact (input 10000000) (input 12505000) "bunkers"
      (record { positive = refl; six_places = refl; small = omega arith })
      (record { positive = refl; six_places = refl; small = omega arith }) refl

abbrev day : ℕ → ℕ → Interval
day start end_ = record { period_start = start; period_end = end_ }

report_period_reconcile_iff_IsReport_example :
    (report_period_reconcile (day 20 30 ∷ day 0 20 ∷ [])
      ≡ CalcOutcome.computed (covering (sort_intervals (day 20 30 ∷ day 0 20 ∷ []))))
    ↔ IsReport (day 20 30 ∷ day 0 20 ∷ [])
report_period_reconcile_iff_IsReport_example =
    report_period_reconcile_iff_IsReport (day 20 30 ∷ day 0 20 ∷ [])

reordered :
    report_period_reconcile (day 20 30 ∷ day 0 20 ∷ [])
    ≡ CalcOutcome.computed (covering (day 0 20 ∷ day 20 30 ∷ []))
unfolding report_period_reconcile sort_intervals insert_interval
reordered = refl

abbrev burned : String → QuantityUnit → ℕ → VesselGradeResult
burned vessel unit micro = record {
  vessel_ref = vessel;
  fuel_grade = FuelGrade.vlsfo;
  unit = unit;
  value = tonnes false micro;
}

-- Two vessels of one grade are summed; a grade in two units is named and left out.
fleets :
    (map
        (λ g. g.total)
        (fleet_summary
          (burned "a" QuantityUnit.tonne 1 ∷ burned "b" QuantityUnit.tonne 2 ∷ [])
          3).grade_totals
      ≡ tonnes false 3 ∷ [])
    × ((fleet_summary
          (burned "a" QuantityUnit.tonne 1 ∷ burned "a" QuantityUnit.litre 2 ∷ [])
          1).excluded_grade_unit_pairs
        ≡ "VLSFO" ∷ [])
unfolding fleet_summary totals_from add_total sort_totals insert_total add fix digit_count
fleets = (refl, refl)
