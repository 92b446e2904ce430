-- ===== src/Verification/Agreement.antt =====
-- The verifier accepts what the calculator computes: calculator.py, `_variance_entry` of
-- packages/pipeline/eastmed_pipeline/reconciliation_case.py, and verifier.py.
use mari_time_system.Prelude.{
  ◌≡◌, refl, ◌∙◌, Option, none, some, List, Bool, true, Result, ok, err, arith,
}
use mari_time_system.Calculation.Decimal.{Decimal, same_value, same_text}
use mari_time_system.Calculation.Variance.{
  CalcRefusalReason, QuantityInput, FuelVarianceResult, CalcOutcome, grade_text, percentage,
  variance_of, refusal, fuel_variance,
}
use mari_time_system.Verification.Verifier.{
  independent_delta_percent, match_evidence, percent_value, get,
}
use mari_time_system.Verification.Values.{Value, same, Variance, EvidenceFact}
use mari_time_system.Verification.Accurate.{Correct}

-- `_variance_entry`: the fields of `to_dict` that the verifier reads, with the status.
abbrev pub variance_entry : FuelVarianceResult → Variance
variance_entry r = record {
  status = Value.text "reconciled";
  fuel_grade = Value.text (grade_text r.fuel_grade);
  period_start = Value.moment r.period_start;
  period_end = Value.moment r.period_end;
  actual = Value.numeral r.actual_unrounded;
  planned = Value.numeral r.planned_unrounded;
  delta = Value.numeral r.delta;
  percent = percent_value r.percent;
}

same_value_refl : (d : Decimal) → same_value d d ≡ true
same_value_refl d = ground arith

same_text_refl : (d : Decimal) → same_text d d ≡ true
same_text_refl d = ground arith

same_percent : (p : Option Decimal) → same (get (percent_value p)) (percent_value p) ≡ true
same_percent none = refl
same_percent (some p) = same_text_refl p

-- What the calculator records, field by field, and that the verifier's formula gives it too.
pub record Recorded (actual planned : QuantityInput) (r : FuelVarianceResult) : Type 0 where
  pub grade : r.fuel_grade ≡ actual.fuel_grade
  pub starts : r.period_start ≡ actual.period_start
  pub ends : r.period_end ≡ actual.period_end
  pub actual_kept : r.actual_unrounded ≡ actual.value
  pub planned_kept : r.planned_unrounded ≡ planned.value
  pub formula : independent_delta_percent actual.value planned.value ≡ ok (r.delta, r.percent)

variance_of-Recorded :
    (actual planned : QuantityInput) (r : FuelVarianceResult)
    → variance_of actual planned ≡ ok r
    → Recorded actual planned r
unfolding variance_of percentage independent_delta_percent
variance_of-Recorded actual planned r h = record {
  grade = ground arith;
  starts = ground arith;
  ends = ground arith;
  actual_kept = ground arith;
  planned_kept = ground arith;
  formula = ground arith;
}

pub fuel_variance-Recorded :
    (actual planned : QuantityInput) (superseded : Bool) (r : FuelVarianceResult)
    → fuel_variance actual (some planned) superseded ≡ ok (CalcOutcome.computed r)
    → (refusal actual planned superseded ≡ none) × Recorded actual planned r
unfolding fuel_variance
fuel_variance-Recorded actual planned superseded r h =
    by_refusal (refusal actual planned superseded) refl (variance_of actual planned) refl
  where
    by_refusal :
        (o : Option CalcRefusalReason)
        → refusal actual planned superseded ≡ o
        → (m : Result FuelVarianceResult) → variance_of actual planned ≡ m
        → (refusal actual planned superseded ≡ none) × Recorded actual planned r
    by_refusal (some reason) q m k = absurd (ground arith)
    by_refusal none q (err e) k = absurd (ground arith)
    by_refusal none q (ok r') k = (q, variance_of-Recorded actual planned r (k ∙ ground arith))

-- A variance that the calculator computes is correct against any evidence in which its grade and
-- interval find an owned, current fact with the two values that it was computed from.
pub variance_entry-Correct :
    (actual planned : QuantityInput) (superseded : Bool) (r : FuelVarianceResult)
    (evidence : List EvidenceFact) (fact : EvidenceFact)
    → fuel_variance actual (some planned) superseded ≡ ok (CalcOutcome.computed r)
    → match_evidence (variance_entry r) evidence ≡ some fact
    → fact.owner_ok ≡ true
    → fact.is_current ≡ true
    → fact.actual ≡ actual.value
    → fact.planned ≡ some planned.value
    → Correct evidence (variance_entry r)
variance_entry-Correct actual planned superseded r evidence fact h found owned current same_actual
      same_planned =
    let recorded = (fuel_variance-Recorded actual planned superseded r h).1 in
    record {
      fact = fact;
      planned = planned.value;
      found = found;
      owned = owned;
      current = current;
      has_plan = same_planned;
      states = record {
        stated_actual = r.actual_unrounded;
        stated_planned = r.planned_unrounded;
        reads_actual = refl;
        reads_planned = refl;
        actual_agrees = rw (recorded.actual_kept, same_actual) (same_value_refl actual.value);
        planned_agrees = rw recorded.planned_kept (same_value_refl planned.value);
      };
      recomputed = record {
        delta = r.delta;
        percent = r.percent;
        formula = rw same_actual recorded.formula;
        delta_shown = same_text_refl r.delta;
        percent_shown = same_percent r.percent;
      };
    }
