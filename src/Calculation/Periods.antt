-- ===== src/Calculation/Periods.antt =====
-- `report_period_reconcile` of packages/shared/eastmed_shared/reconciliation/calculator.py.
use mari_time_system.Prelude.{
  ℕ, List, [], ◌∷◌, Bool, false, ◌&&◌, ◌||◌, any, leb, ltb, ◌==◌, if◌then◌else◌,
}
use mari_time_system.Calculation.Variance.{
  CalcRefusalReason, CalcOutcome, CalculationReceipt, calculator_version, rounding_text,
}

pub record Interval : Type 0 where
  pub period_start : ℕ
  pub period_end : ℕ

pub record PeriodReconcileResult : Type 0 where
  pub covered : List Interval
  pub receipt : CalculationReceipt Interval

-- `period_end <= period_start`
abbrev pub is_empty : Interval → Bool
is_empty i = leb i.period_end i.period_start

-- The order of the keys (period_start, period_end).
abbrev pub starts_before : Interval → Interval → Bool
starts_before i j =
    ltb i.period_start j.period_start
    || i.period_start == j.period_start && leb i.period_end j.period_end

unfoldable pub insert_interval : Interval → List Interval → List Interval
insert_interval i [] = i ∷ []
insert_interval i (j ∷ js) = if starts_before i j then i ∷ j ∷ js else j ∷ insert_interval i js

unfoldable pub sort_intervals : List Interval → List Interval
unfolding insert_interval
sort_intervals [] = []
sort_intervals (i ∷ is) = insert_interval i (sort_intervals is)

-- Some interval starts before the one in front of it ends.
abbrev pub overlap : List Interval → Bool
overlap [] = false
overlap (i ∷ []) = false
overlap (i ∷ j ∷ js) = ltb j.period_start i.period_end || overlap (j ∷ js)

abbrev pub covering : List Interval → PeriodReconcileResult
covering ordered = record {
  covered = ordered;
  receipt = record {
    function = "report_period_reconcile";
    formula_version = calculator_version;
    rounding = rounding_text;
    inputs = ordered;
    assumptions = [];
    exclusions = [];
  };
}

unfoldable pub report_period_reconcile : List Interval → CalcOutcome PeriodReconcileResult
report_period_reconcile [] = CalcOutcome.refused CalcRefusalReason.missing_input
report_period_reconcile (i ∷ is) =
    if any is_empty (i ∷ is)
    then CalcOutcome.refused CalcRefusalReason.unresolved_revision
    else if overlap (sort_intervals (i ∷ is))
    then CalcOutcome.refused CalcRefusalReason.overlapping_intervals
    else CalcOutcome.computed (covering (sort_intervals (i ∷ is)))
