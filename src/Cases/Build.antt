-- ===== src/Cases/Build.antt =====
-- `compute_case_result` and `build_evidence` of
-- packages/pipeline/eastmed_pipeline/reconciliation_case.py.
use mari_time_system.Prelude.{
  ℕ, String, str_eq, Option, none, some, List, [], ◌∷◌, ◌++◌, Bool, true, false, not, ◌&&◌, ◌||◌,
  ◌==◌, leb, if◌then◌else◌, any, Result, ok, ◌>>=◌, ◌>>◌, raise_if, runtime_error,
}
use mari_time_system.Calculation.Decimal.{Decimal}
use mari_time_system.Calculation.Variance.{
  FuelGrade, grade_text, CalcRefusalReason, QuantityInput, FuelVarianceResult, CalcOutcome,
  fuel_variance, calculator_version,
}
use mari_time_system.Verification.Values.{Value, Item, EvidenceFact}
use mari_time_system.Verification.Agreement.{variance_entry}
use mari_time_system.Cases.Rows.{
  Observation, ExpectedJob, Sources, Reading, revision_of, Resolved, resolve_current,
  matching_plans,
}
use mari_time_system.Cases.Groups.{to_quantity, GroupKey, group_keys, group, actuals_of, last_of}

pub data UnresolvedReason : Type 0 where
  missing_input unresolved_revision unresolved_plan_revision : UnresolvedReason
  calculation : CalcRefusalReason → UnresolvedReason

pub data VarianceEntry : Type 0 where
  unresolved : FuelGrade → UnresolvedReason → VarianceEntry
  reconciled : FuelVarianceResult → VarianceEntry

-- `_evidence_ref`
pub record EvidenceRef : Type 0 where
  pub role : String
  pub input : QuantityInput

abbrev pub evidence_ref : String → Observation → String → EvidenceRef
evidence_ref role o revision = record { role = role; input = to_quantity o revision }

-- What one round of the loop over the groups adds.
pub record GroupResult : Type 0 where
  pub entry : VarianceEntry
  pub evidence : List EvidenceRef
  pub open_fact : Bool

abbrev pub unresolved_group : FuelGrade → UnresolvedReason → List EvidenceRef → GroupResult
unresolved_group grade reason evidence = record {
  entry = VarianceEntry.unresolved grade reason;
  evidence = evidence;
  open_fact = true;
}

abbrev pub of_outcome : FuelGrade → List EvidenceRef → CalcOutcome FuelVarianceResult → GroupResult
of_outcome grade evidence (CalcOutcome.refused reason) =
    unresolved_group grade (UnresolvedReason.calculation reason) evidence
of_outcome grade evidence (CalcOutcome.computed r) = record {
  entry = VarianceEntry.reconciled r;
  evidence = evidence;
  open_fact = false;
}

pub record ResultJson : Type 0 where
  pub result_contract_version : String
  pub expected_job_id : ℕ
  pub vessel_ref : String
  pub period_start : ℕ
  pub period_end : ℕ
  pub calculator_version : String
  pub variances : List VarianceEntry

-- SHA-256 over canonical JSON, of the result and of the sorted evidence.
pub record Hashes : Type 0 where
  pub content : ResultJson → String
  pub evidence : List EvidenceRef → String

pub record CaseResult : Type 0 where
  pub expected_job_id : ℕ
  pub result_json : ResultJson
  pub content_hash : String
  pub evidence_hash : String
  pub unresolved : Bool

-- The order of the evidence: by role, "actual" before "planned", then by input.
abbrev pub ref_before : EvidenceRef → EvidenceRef → Bool
ref_before a b =
    str_eq a.role "actual" && not (str_eq b.role "actual")
    || str_eq a.role b.role && leb a.input.input_id b.input.input_id

abbrev pub insert_ref : EvidenceRef → List EvidenceRef → List EvidenceRef
insert_ref r [] = r ∷ []
insert_ref r (x ∷ xs) =
    let later = insert_ref r xs in if ref_before r x then r ∷ x ∷ xs else x ∷ later

abbrev pub sort_refs : List EvidenceRef → List EvidenceRef
sort_refs [] = []
sort_refs (r ∷ rs) = insert_ref r (sort_refs rs)

abbrev pub entries_of : List GroupResult → List VarianceEntry
entries_of [] = []
entries_of (g ∷ gs) = g.entry ∷ entries_of gs

abbrev pub refs_of : List GroupResult → List EvidenceRef
refs_of [] = []
refs_of (g ∷ gs) = g.evidence ++ refs_of gs

abbrev pub any_open : List GroupResult → Bool
any_open = any (λ g. g.open_fact)

abbrev pub is_nil : List Observation → Bool
is_nil [] = true
is_nil (o ∷ os) = false

module _ (reading : Reading) (s : Sources) (account : ℕ) (job : ExpectedJob) where
  abbrev pub resolve : List Observation → Resolved
  resolve = resolve_current reading.integer (revision_of s account)

  abbrev pub revision : Observation → String
  revision o = revision_of s account o.capture_id

  abbrev pub plans : Observation → List Observation
  plans = matching_plans reading.parsers s account job

  -- The calculation takes `actual`, the row that the loop before left, and its evidence names the
  -- current row.
  abbrev pub with_plan :
      Observation → Observation → FuelGrade → Bool → Option Observation → Result GroupResult
  with_plan actual current grade ambiguous none = ok (
      unresolved_group grade
        (if ambiguous
          then UnresolvedReason.unresolved_plan_revision
          else UnresolvedReason.missing_input)
        (evidence_ref "actual" current (revision current) ∷ []))
  with_plan actual current grade ambiguous (some plan) =
      fuel_variance (to_quantity actual (revision current))
        (some (to_quantity plan (revision plan))) false
      >>= λ outcome. ok (
          of_outcome grade
            (evidence_ref "actual" current (revision current)
              ∷ evidence_ref "planned" plan (revision plan)
              ∷ [])
            outcome)

  abbrev pub with_current : Observation → FuelGrade → Bool → Option Observation → Result GroupResult
  with_current actual grade ambiguous none = ok (
      unresolved_group grade
        (if ambiguous then UnresolvedReason.unresolved_revision else UnresolvedReason.missing_input)
        [])
  with_current actual grade ambiguous (some current) =
      let plan = resolve (plans current) in
      with_plan actual current grade plan.ambiguous plan.chosen

  -- One round of `for key in sorted(groups)`.
  unfoldable pub reconcile_group : Observation → List Observation → GroupKey → Result GroupResult
  reconcile_group actual actuals key =
      let current = resolve (group key actuals) in
      with_current actual key.grade current.ambiguous current.chosen

  unfoldable pub reconcile_groups :
      Observation → List Observation → List GroupKey → Result (List GroupResult)
  unfolding reconcile_group
  reconcile_groups actual actuals [] = ok []
  reconcile_groups actual actuals (key ∷ keys) = do
    g ← reconcile_group actual actuals key
    gs ← reconcile_groups actual actuals keys
    ok (g ∷ gs)

  abbrev pub result_of : List GroupResult → ResultJson
  result_of gs = record {
    result_contract_version = job.result_contract_version;
    expected_job_id = job.id;
    vessel_ref = job.vessel_ref;
    period_start = job.period_start;
    period_end = job.period_end;
    calculator_version = calculator_version;
    variances = entries_of gs;
  }

  abbrev pub case_result : Hashes → Bool → List GroupResult → CaseResult
  case_result hashes empty gs = record {
    expected_job_id = job.id;
    result_json = result_of gs;
    content_hash = hashes.content (result_of gs);
    evidence_hash = hashes.evidence (sort_refs (refs_of gs));
    unresolved = empty || any_open gs;
  }

  abbrev pub reconcile_all : List Observation → Result (List GroupResult)
  reconcile_all [] = ok []
  reconcile_all (o ∷ os) = reconcile_groups (last_of o os) (o ∷ os) (group_keys (o ∷ os))

  unfoldable pub compute_case_result : Hashes → Result CaseResult
  unfolding reconcile_groups group_keys
  compute_case_result hashes = do
    raise_if (not (job.account_id == account)) runtime_error
    gs ← reconcile_all (actuals_of s account job)
    ok (case_result hashes (is_nil (actuals_of s account job)) gs)

  abbrev pub planned_value : Option Observation → Option Decimal
  planned_value none = none
  planned_value (some plan) = some plan.value

  abbrev pub facts_of : Bool → Option Observation → List EvidenceFact
  facts_of ambiguous none = []
  facts_of ambiguous (some current) =
      record {
        fuel_grade = grade_text current.fuel_grade;
        period_start = current.period_start;
        period_end = current.period_end;
        actual = current.value;
        planned = planned_value (resolve (plans current)).chosen;
        owner_ok = true;
        is_current = not ambiguous;
      }
      ∷ []

  abbrev pub evidence_from : List Observation → List GroupKey → List EvidenceFact
  evidence_from actuals [] = []
  evidence_from actuals (key ∷ keys) =
      let current = resolve (group key actuals) in
      facts_of current.ambiguous current.chosen ++ evidence_from actuals keys

  unfoldable pub build_evidence : List EvidenceFact
  unfolding group_keys
  build_evidence = evidence_from (actuals_of s account job) (group_keys (actuals_of s account job))

-- An entry as the verifier reads it: an unresolved one has only its grade and its status.
abbrev pub item_of : VarianceEntry → Item
item_of (VarianceEntry.reconciled r) = Item.object (variance_entry r)
item_of (VarianceEntry.unresolved grade reason) = Item.object (record {
  status = Value.text "unresolved";
  fuel_grade = Value.text (grade_text grade);
  period_start = Value.absent;
  period_end = Value.absent;
  actual = Value.absent;
  planned = Value.absent;
  delta = Value.absent;
  percent = Value.absent;
})

abbrev pub items_of : List VarianceEntry → List Item
items_of [] = []
items_of (e ∷ es) = item_of e ∷ items_of es
