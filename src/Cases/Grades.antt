-- ===== src/Cases/Grades.antt =====
-- A job whose report covers two fuel grades, for `compute_case_result` of
-- packages/pipeline/eastmed_pipeline/reconciliation_case.py.
use mari_time_system.Prelude.{
  ℕ, ◌≡◌, refl, subst, ◌∙◌, inl, inr, ◌⊎◌, Option, none, some, List, [], ◌∷◌, Bool, true, false,
  not, ◌==◌, ==-refl, false≢true, select_passes, any, Bool-cases, Result, ok, err, ◌>>=◌, ◌>>◌,
  raise_if, runtime_error, arith, ok-injective,
}
use mari_time_system.Calculation.Variance.{
  FuelGrade, grade_index, same_grade, CalcRefusalReason, CalcOutcome, QuantityInput, fuel_variance,
}
use mari_time_system.Cases.Rows.{
  Observation, ExpectedJob, Sources, Reading, is_plan_row, revision_of,
}
use mari_time_system.Cases.Build.{
  GroupResult, Hashes, CaseResult, any_open, is_nil, with_plan, with_current, reconcile_group,
  reconcile_groups, reconcile_all, compute_case_result, resolve, plans, case_result,
}
use mari_time_system.Cases.Groups.{
  to_quantity, GroupKey, key_of, same_group, group_keys, group, actuals_of, last_of,
}
use mari_time_system.Cases.Chosen.{resolve_current-All, matching_plans-IsPlan}
use mari_time_system.Cases.Keyed.{
  has_grade, key_grade, or_right, and_left, and_right, other_index, any-group_keys,
}

-- A calculation on two grades is refused.
refused_grade :
    (actual planned : QuantityInput)
    → same_grade actual.fuel_grade planned.fuel_grade ≡ false
    → fuel_variance actual (some planned) false
      ≡ ok (CalcOutcome.refused CalcRefusalReason.grade_mismatch)
unfolding fuel_variance
refused_grade actual planned h = ground arith

module _ (reading : Reading) (s : Sources) (account : ℕ) (job : ExpectedJob)
    (actual : Observation) where
  with_plan_open :
      (current : Observation) (grade : FuelGrade) (ambiguous : Bool) (chosen : Option Observation)
      {g : GroupResult}
      → ((plan : Observation)
          → chosen ≡ some plan
          → same_grade actual.fuel_grade plan.fuel_grade ≡ false)
      → with_plan reading s account job actual current grade ambiguous chosen ≡ ok g
      → g.open_fact ≡ true
  unfolding to_quantity
  with_plan_open current grade ambiguous none differs e =
      subst (λ g. g.open_fact ≡ true) (ok-injective e) refl
  with_plan_open current grade ambiguous (some plan) differs e =
      subst (λ g. g.open_fact ≡ true)
        (ok-injective (
          rw
            (refused_grade (to_quantity actual (revision_of s account current.capture_id))
              (to_quantity plan (revision_of s account plan.capture_id)) (differs plan refl))
            at e))
        refl

  with_current_open :
      (grade : FuelGrade) (ambiguous : Bool) (chosen : Option Observation) {g : GroupResult}
      → ((current : Observation)
          → chosen ≡ some current
          → same_grade current.fuel_grade grade ≡ true)
      → same_grade actual.fuel_grade grade ≡ false
      → with_current reading s account job actual grade ambiguous chosen ≡ ok g
      → g.open_fact ≡ true
  with_current_open grade ambiguous none kept differs e =
      subst (λ g. g.open_fact ≡ true) (ok-injective e) refl
  with_current_open grade ambiguous (some current) kept differs e =
      let resolved = resolve reading s account job (plans reading s account job current) in
      with_plan_open current grade resolved.ambiguous resolved.chosen
        (λ plan chosen. other_grade plan (
          resolve_current-All (λ o. is_plan_row account current o ≡ true) reading.integer
            (revision_of s account) (plans reading s account job current)
            (matching_plans-IsPlan reading.parsers s account job current) chosen))
        e
    where
      other_grade :
          (plan : Observation)
          → is_plan_row account current plan ≡ true
          → same_grade actual.fuel_grade plan.fuel_grade ≡ false
      other_grade plan row =
          other_index (grade_index actual.fuel_grade) (grade_index plan.fuel_grade)
            (grade_index current.fuel_grade) (grade_index grade)
            (and_right _ (same_grade plan.fuel_grade current.fuel_grade) (
              and_left _ (plan.period_start == current.period_start)
                (and_left _ (plan.period_end == current.period_end) row)))
            (kept current refl) differs

  reconcile_group_open :
      (actuals : List Observation) (key : GroupKey) {g : GroupResult}
      → same_grade actual.fuel_grade key.grade ≡ false
      → reconcile_group reading s account job actual actuals key ≡ ok g
      → g.open_fact ≡ true
  unfolding reconcile_group
  reconcile_group_open actuals key differs e =
      let resolved = resolve reading s account job (group key actuals) in
      with_current_open key.grade resolved.ambiguous resolved.chosen
        (λ current chosen. grade_of current (
          resolve_current-All (λ o. same_group (key_of o) key ≡ true) reading.integer
            (revision_of s account) (group key actuals)
            (select_passes (λ o. same_group (key_of o) key) actuals) chosen))
        differs e
    where
      grade_of :
          (o : Observation)
          → same_group (key_of o) key ≡ true
          → same_grade o.fuel_grade key.grade ≡ true
      grade_of o h =
          and_left _ (o.period_start == key.period_start)
            (and_left _ (o.period_end == key.period_end) h)

  reconcile_groups_open :
      (actuals : List Observation) (keys : List GroupKey) {gs : List GroupResult} (h : FuelGrade)
      → same_grade actual.fuel_grade h ≡ false
      → any (key_grade h) keys ≡ true
      → reconcile_groups reading s account job actual actuals keys ≡ ok gs
      → any_open gs ≡ true
  unfolding reconcile_groups
  reconcile_groups_open actuals [] h differs found e = absurd (false≢true found)
  reconcile_groups_open actuals (key ∷ keys) {gs} h differs found e =
      by_parts (reconcile_group reading s account job actual actuals key) refl
        (reconcile_groups reading s account job actual actuals keys) refl e
        (λ (rest : List GroupResult) later r.
          reconcile_groups_open actuals keys {gs = rest} h differs later r)
    where
      by_parts :
          (m : Result GroupResult)
          → reconcile_group reading s account job actual actuals key ≡ m
          → (n : Result (List GroupResult))
          → reconcile_groups reading s account job actual actuals keys ≡ n
          → (m >>= λ g. n >>= λ rest. ok (g ∷ rest)) ≡ ok gs
          → ((rest : List GroupResult)
              → any (key_grade h) keys ≡ true
              → reconcile_groups reading s account job actual actuals keys ≡ ok rest
              → any_open rest ≡ true)
          → any_open gs ≡ true
      by_parts (err x) q n r k ih = absurd (ground arith)
      by_parts (ok g) q (err x) r k ih = absurd (ground arith)
      by_parts (ok g) q (ok rest) r k ih =
          subst (λ gs. any_open gs ≡ true) (ok-injective k)
            (elim (Bool-cases (key_grade h key)) [
              | inl here ↦
                  rw
                    (reconcile_group_open actuals key
                      (other_index (grade_index actual.fuel_grade) (grade_index key.grade)
                        (grade_index key.grade) (grade_index h) (==-refl (grade_index key.grade))
                        here differs)
                      q)
                    refl
              | inr there ↦ or_right g.open_fact (any_open rest) (ih rest (rw there at found) r)
            ])

-- One of two different grades is not the last row's.
other_than_last :
    (last g h : FuelGrade)
    → same_grade g h ≡ false
    → (same_grade last g ≡ false) ⊎ (same_grade last h ≡ false)
other_than_last last g h differ = by_index (grade_index last) (grade_index g) (grade_index h) differ
  where
    by_index : (l a b : ℕ) → (a == b) ≡ false → ((l == a) ≡ false) ⊎ ((l == b) ≡ false)
    by_index l a b d = elim (Bool-cases (l == a)) [
      | inl same ↦ inr (ground arith)
      | inr other ↦ inl other
    ]

module _ (reading : Reading) (s : Sources) (account : ℕ) (job : ExpectedJob) where
  reconcile_all_open :
      (actuals : List Observation) (g h : FuelGrade) {gs : List GroupResult}
      → has_grade g actuals ≡ true
      → has_grade h actuals ≡ true
      → same_grade g h ≡ false
      → reconcile_all reading s account job actuals ≡ ok gs
      → any_open gs ≡ true
  reconcile_all_open [] g h has_g has_h differ e = absurd (false≢true has_g)
  reconcile_all_open (o ∷ os) g h has_g has_h differ e =
      let last = last_of o os in
      elim (other_than_last last.fuel_grade g h differ) [
        | inl not_g ↦
            reconcile_groups_open reading s account job last (o ∷ os) (group_keys (o ∷ os)) g not_g
              (any-group_keys g (o ∷ os) ∙ has_g) e
        | inr not_h ↦
            reconcile_groups_open reading s account job last (o ∷ os) (group_keys (o ∷ os)) h not_h
              (any-group_keys h (o ∷ os) ∙ has_h) e
      ]

  -- If the actual observations of a job carry two different fuel grades, its result is unresolved:
  -- every group is calculated from the last row, whose grade is not that of all groups.
  pub several_grades-unresolved :
      (hashes : Hashes) (g h : FuelGrade) {r : CaseResult}
      → has_grade g (actuals_of s account job) ≡ true
      → has_grade h (actuals_of s account job) ≡ true
      → same_grade g h ≡ false
      → compute_case_result reading s account job hashes ≡ ok r
      → r.unresolved ≡ true
  unfolding compute_case_result
  several_grades-unresolved hashes g h {r} has_g has_h differ e =
      by_parts (not (job.account_id == account)) (reconcile_all reading s account job actuals) refl
        e
    where
      actuals : List Observation
      actuals = actuals_of s account job

      by_parts :
          (foreign : Bool) (m : Result (List GroupResult))
          → reconcile_all reading s account job actuals ≡ m
          → (raise_if foreign runtime_error
              >> (m >>= λ gs. ok (case_result reading s account job hashes (is_nil actuals) gs)))
            ≡ ok r
          → r.unresolved ≡ true
      by_parts true m q k = absurd (ground arith)
      by_parts false (err x) q k = absurd (ground arith)
      by_parts false (ok gs) q k =
          subst (λ r. r.unresolved ≡ true) (ok-injective k)
            (or_right (is_nil actuals) (any_open gs)
              (reconcile_all_open actuals g h has_g has_h differ q))
