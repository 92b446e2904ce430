-- ===== src/Cases/Single.antt =====
-- A job whose report is one observation, for `compute_case_result` and `build_evidence` of
-- packages/pipeline/eastmed_pipeline/reconciliation_case.py.
use mari_time_system.Prelude.{
  ℕ, ◌≡◌, refl, ap, ◌∙◌, eq_refl, some, [], ◌∷◌, true, false, ◌==◌, ==-refl, ok, arith,
}
use mari_time_system.Calculation.Variance.{
  grade_text, grade_index, FuelVarianceResult, CalcOutcome, fuel_variance,
}
use mari_time_system.Verification.Values.{EvidenceFact, same_key, fact_key, variance_key, raw_key}
use mari_time_system.Verification.Sound.{Accurate}
use mari_time_system.Verification.Completes.{Completes}
use mari_time_system.Verification.Agreement.{
  variance_entry, Recorded, fuel_variance-Recorded, variance_entry-Correct,
}
use mari_time_system.Cases.Rows.{
  Observation, ExpectedJob, Sources, Reading, resolve_current, revision_of,
}
use mari_time_system.Cases.Build.{
  VarianceEntry, GroupResult, evidence_ref, Hashes, CaseResult, case_result, items_of, resolve,
  plans, reconcile_group, reconcile_groups, compute_case_result, build_evidence,
}
use mari_time_system.Cases.Groups.{to_quantity, key_of, group, group_keys, actuals_of}

module _ (reading : Reading) (s : Sources) (account : ℕ) (job : ExpectedJob) (o plan : Observation)
    (v : FuelVarianceResult) where
  abbrev only_group : GroupResult
  only_group = record {
    entry = VarianceEntry.reconciled v;
    evidence =
        evidence_ref "actual" o (revision_of s account o.capture_id)
        ∷ evidence_ref "planned" plan (revision_of s account plan.capture_id)
        ∷ [];
    open_fact = false;
  }

  abbrev only_fact : EvidenceFact
  only_fact = record {
    fuel_grade = grade_text o.fuel_grade;
    period_start = o.period_start;
    period_end = o.period_end;
    actual = o.value;
    planned = some plan.value;
    owner_ok = true;
    is_current = true;
  }

  -- One report, its plan resolved, and the calculation not refused.
  pub record IsSingle : Type 0 where
    pub owned : job.account_id ≡ account
    pub one_actual : actuals_of s account job ≡ o ∷ []
    pub plan_chosen :
        (resolve reading s account job (plans reading s account job o)).chosen ≡ some plan
    pub calculated :
        fuel_variance
          (to_quantity o (revision_of s account o.capture_id))
          (some (to_quantity plan (revision_of s account plan.capture_id)))
          false
        ≡ ok (CalcOutcome.computed v)

  group_self : group (key_of o) (o ∷ []) ≡ o ∷ []
  group_self =
      rw (==-refl (grade_index o.fuel_grade), ==-refl o.period_start, ==-refl o.period_end) refl

  module _ (single : IsSingle) where
    group_result : reconcile_group reading s account job o (o ∷ []) (key_of o) ≡ ok only_group
    unfolding reconcile_group resolve_current
    group_result = rw group_self (rw (single.plan_chosen) (rw single.calculated refl))

    evidence_result : build_evidence reading s account job ≡ only_fact ∷ []
    unfolding build_evidence group_keys resolve_current
    evidence_result = rw single.one_actual (rw group_self (rw single.plan_chosen refl))

    result : Hashes → CaseResult
    result hashes = case_result reading s account job hashes false (only_group ∷ [])

    computes :
        (hashes : Hashes) → compute_case_result reading s account job hashes ≡ ok (result hashes)
    unfolding compute_case_result reconcile_groups group_keys result
    computes hashes =
        let own : (job.account_id == account) ≡ true =
          ap (λ a. a == account) single.owned ∙ ==-refl account in
        rw own (rw single.one_actual (rw group_result refl))

    recorded :
        Recorded
          (to_quantity o (revision_of s account o.capture_id))
          (to_quantity plan (revision_of s account plan.capture_id))
          v
    recorded = (fuel_variance-Recorded _ _ false v single.calculated).1

    same_raw : same_key (fact_key only_fact) (raw_key (variance_entry v)) ≡ true
    unfolding to_quantity
    same_raw =
        rw (recorded.grade, recorded.starts, recorded.ends)
          (rw (eq_refl (grade_text o.fuel_grade), ==-refl o.period_start, ==-refl o.period_end)
            refl)

    completes : Completes (some (items_of (VarianceEntry.reconciled v ∷ []))) (only_fact ∷ []) false
    unfolding to_quantity
    completes = record {
      items = items_of (VarianceEntry.reconciled v ∷ []);
      keys = variance_key (variance_entry v) ∷ [];
      listed = refl;
      accurate =
          Accurate.check (variance_entry v) refl refl refl
            (variance_entry-Correct (to_quantity o (revision_of s account o.capture_id))
              (to_quantity plan (revision_of s account plan.capture_id)) false v (only_fact ∷ [])
              only_fact single.calculated (rw same_raw refl) refl refl refl refl)
            Accurate.done;
      some_checked = omega arith;
      covered = ((λ _. rw same_raw refl), tt);
      resolved = refl;
    }

    -- If the report of a job is one observation, its plan is resolved and the calculation is not
    -- refused, then the result is computed, is resolved, and completes against the rebuilt evidence.
    pub single_report-Completes :
        (hashes : Hashes)
        → (r : CaseResult) × (compute_case_result reading s account job hashes ≡ ok r)
          × (r.unresolved ≡ false)
          × Completes
              (some (items_of r.result_json.variances))
              (build_evidence reading s account job)
              r.unresolved
    unfolding result
    single_report-Completes hashes =
        (result hashes, computes hashes, refl, rw evidence_result completes)
