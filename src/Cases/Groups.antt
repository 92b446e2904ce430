-- ===== src/Cases/Groups.antt =====
-- The groups of the actual observations, in `compute_case_result` of
-- packages/pipeline/eastmed_pipeline/reconciliation_case.py.
use mari_time_system.Prelude.{
  ℕ, String, str_eq, Option, none, some, List, [], ◌∷◌, Bool, false, ◌&&◌, ◌||◌, ◌==◌, ltb,
  if◌then◌else◌, select,
}
use mari_time_system.Calculation.Variance.{FuelGrade, grade_index, same_grade, QuantityInput}
use mari_time_system.Cases.Rows.{Observation, ExpectedJob, Sources, actual_field}

unfoldable pub to_quantity : Observation → String → QuantityInput
to_quantity o revision = record {
  input_id = o.id;
  fuel_grade = o.fuel_grade;
  value = o.value;
  unit = o.unit;
  period_start = o.period_start;
  period_end = o.period_end;
  revision = revision;
}

-- The keys of the groups: grade and interval.
pub record GroupKey : Type 0 where
  pub grade : FuelGrade
  pub period_start : ℕ
  pub period_end : ℕ

abbrev pub key_of : Observation → GroupKey
key_of o = record { grade = o.fuel_grade; period_start = o.period_start; period_end = o.period_end }

abbrev pub same_group : GroupKey → GroupKey → Bool
same_group a b =
    same_grade a.grade b.grade && a.period_start == b.period_start && a.period_end == b.period_end

-- The order of the tuples: the grade's text, the start, the end.
abbrev pub before : GroupKey → GroupKey → Bool
before a b =
    ltb (grade_index a.grade) (grade_index b.grade)
    || same_grade a.grade b.grade
      && (ltb a.period_start b.period_start
          || a.period_start == b.period_start && ltb a.period_end b.period_end)

-- `sorted(groups)`: each key once, in order.
abbrev pub insert_key : GroupKey → List GroupKey → List GroupKey
insert_key k [] = k ∷ []
insert_key k (x ∷ xs) =
    let later = insert_key k xs in
    if same_group k x then x ∷ xs else if before k x then k ∷ x ∷ xs else x ∷ later

unfoldable pub group_keys : List Observation → List GroupKey
group_keys [] = []
group_keys (o ∷ os) = insert_key (key_of o) (group_keys os)

abbrev pub group : GroupKey → List Observation → List Observation
group k = select (λ o. same_group (key_of o) k)

abbrev pub has_job : ℕ → Option ℕ → Bool
has_job job none = false
has_job job (some j) = j == job

-- The job's own actual observations.
abbrev pub is_actual : ℕ → ExpectedJob → Observation → Bool
is_actual account job o =
    o.account_id == account && has_job job.id o.expected_job_id && str_eq o.field actual_field

abbrev pub actuals_of : Sources → ℕ → ExpectedJob → List Observation
actuals_of s account job = select (is_actual account job) s.observations

-- What the loop `for actual in actuals` leaves in `actual`: the last row.
abbrev pub last_of : Observation → List Observation → Observation
last_of o [] = o
last_of o (p ∷ os) = last_of p os
