-- ===== src/Cases/Chosen.antt =====
-- Where the current row and the plans come from, for
-- packages/pipeline/eastmed_pipeline/reconciliation_case.py.
use mari_time_system.Prelude.{
  ℕ, ◌≡◌, refl, inl, inr, String, Option, none, some, List, [], ◌∷◌, Bool, true, false, ◌&&◌, ◌==◌,
  if◌then◌else◌, All, All-append, All-select, find, ℤ, eq_ℤ, Bool-cases, arith, some-injective,
  subst,
}
use mari_time_system.Contract.Fields.{Checked, accepted, rejected, Parsers}
use mari_time_system.Contract.Record.{NormalizedRecord, validate_record}
use mari_time_system.Cases.Rows.{
  Observation, Capture, ExpectedJob, Sources, number_row, numbered, newest, with_number, only_one,
  by_number, resolve_current, is_plan_row, is_plan_for, joined, plan_pairs, applicable, one_lineage,
  rows_of, is_report_for, plans_for_report, plans_for_capture, own_capture, matching_plans,
}

module _ (P : Observation → Type 0) where
  abbrev On : Observation × ℤ → Type 0
  On pair = P pair.0

  abbrev Paired : Observation × Capture → Type 0
  Paired pair = P pair.0

  number_row-All :
      (o : Observation) (n : Option ℤ) (rest : Option (List (Observation × ℤ)))
      {pairs : List (Observation × ℤ)}
      → P o
      → ((tail : List (Observation × ℤ)) → rest ≡ some tail → All On tail)
      → number_row o n rest ≡ some pairs
      → All On pairs
  number_row-All o none rest h ih e = absurd (ground arith)
  number_row-All o (some n) none h ih e = absurd (ground arith)
  number_row-All o (some n) (some tail) h ih e = subst (All On) (some-injective e) (h, ih tail refl)

  numbered-All :
      (integer : String → Option ℤ) (revision : ℕ → String) (os : List Observation)
      {pairs : List (Observation × ℤ)}
      → All P os
      → numbered integer revision os ≡ some pairs
      → All On pairs
  unfolding numbered
  numbered-All integer revision [] h e = subst (All On) (some-injective e) tt
  numbered-All integer revision (o ∷ os) h e =
      number_row-All o (integer (revision o.capture_id)) (numbered integer revision os) h.0
        (λ tail k. numbered-All integer revision os h.1 k) e

  with_number-All :
      (n : ℤ) (pairs : List (Observation × ℤ)) → All On pairs → All P (with_number n pairs)
  with_number-All n [] h = tt
  with_number-All n ((o, m) ∷ rest) h = elim (Bool-cases (eq_ℤ m n)) [
    | inl same ↦ rw same (h.0, with_number-All n rest h.1)
    | inr differ ↦ rw differ (with_number-All n rest h.1)
  ]

  only_one-All :
      (os : List Observation) {c : Observation} → All P os → (only_one os).chosen ≡ some c → P c
  only_one-All [] h e = absurd (ground arith)
  only_one-All (o ∷ []) h e = subst P (some-injective e) h.0
  only_one-All (o ∷ p ∷ os) h e = absurd (ground arith)

  by_number-All :
      (m : Option (List (Observation × ℤ))) {c : Observation}
      → ((pairs : List (Observation × ℤ)) → m ≡ some pairs → All On pairs)
      → (by_number m).chosen ≡ some c
      → P c
  by_number-All none h e = absurd (ground arith)
  by_number-All (some []) h e = absurd (ground arith)
  by_number-All (some ((o, n) ∷ rest)) h e =
      only_one-All (with_number (newest n rest) ((o, n) ∷ rest))
        (with_number-All (newest n rest) ((o, n) ∷ rest) (h ((o, n) ∷ rest) refl)) e

  -- The current row is one of the rows.
  pub resolve_current-All :
      (integer : String → Option ℤ) (revision : ℕ → String) (os : List Observation)
      {c : Observation}
      → All P os
      → (resolve_current integer revision os).chosen ≡ some c
      → P c
  unfolding resolve_current
  resolve_current-All integer revision [] h e = absurd (ground arith)
  resolve_current-All integer revision (o ∷ []) h e = subst P (some-injective e) h.0
  resolve_current-All integer revision (o ∷ p ∷ os) h e =
      by_number-All (numbered integer revision (o ∷ p ∷ os))
        (λ pairs k. numbered-All integer revision (o ∷ p ∷ os) h k) e

  joined-All : (cs : List Capture) (o : Observation) → P o → All Paired (joined cs o)
  joined-All [] o h = tt
  joined-All (c ∷ cs) o h =
      elim (Bool-cases (c.id == o.capture_id && c.account_id == o.account_id)) [
        | inl fits ↦ rw fits (h, joined-All cs o h)
        | inr differs ↦ rw differs (joined-All cs o h)
      ]

  rows_of-All : (pairs : List (Observation × Capture)) → All Paired pairs → All P (rows_of pairs)
  rows_of-All [] h = tt
  rows_of-All ((o, c) ∷ rest) h = (h.0, rows_of-All rest h.1)

module _ (parsers : Parsers) (s : Sources) (account : ℕ) (job : ExpectedJob)
    (actual : Observation) where
  abbrev IsPlan : Observation → Type 0
  IsPlan o = is_plan_row account actual o ≡ true

  plan_pairs-IsPlan : (os : List Observation) → All (Paired IsPlan) (plan_pairs s account actual os)
  plan_pairs-IsPlan [] = tt
  plan_pairs-IsPlan (o ∷ os) =
      All-append (Paired IsPlan) (if is_plan_row account actual o then joined s.captures o else [])
        (plan_pairs s account actual os)
        (elim (Bool-cases (is_plan_row account actual o)) [
          | inl fits ↦ rw fits (joined-All IsPlan s.captures o fits)
          | inr differs ↦ rw differs tt
        ])
        (plan_pairs-IsPlan os)

  plans_for_report-IsPlan :
      (m : Checked NormalizedRecord) → All IsPlan (plans_for_report parsers s account job actual m)
  plans_for_report-IsPlan (rejected reason) = tt
  plans_for_report-IsPlan (accepted report) =
      let pairs = plan_pairs s account actual s.observations in
      let fits : Observation × Capture → Bool =
        λ pair. is_plan_for job report actual (validate_record parsers pair.1.payload) in
      guarded (is_report_for job report && one_lineage (applicable parsers job report actual pairs))
        (rows_of (applicable parsers job report actual pairs))
        (rows_of-All IsPlan (applicable parsers job report actual pairs)
          (All-select (Paired IsPlan) fits pairs (plan_pairs-IsPlan s.observations)))
    where
      guarded :
          (b : Bool) (os : List Observation) → All IsPlan os → All IsPlan (if b then os else [])
      guarded true os h = h
      guarded false os h = tt

  plans_for_capture-IsPlan :
      (m : Option Capture) → All IsPlan (plans_for_capture parsers s account job actual m)
  plans_for_capture-IsPlan none = tt
  plans_for_capture-IsPlan (some c) = plans_for_report-IsPlan (validate_record parsers c.payload)

  -- Every plan is the account's, of the actual row's grade and over its interval.
  pub matching_plans-IsPlan : All IsPlan (matching_plans parsers s account job actual)
  unfolding matching_plans
  matching_plans-IsPlan =
      plans_for_capture-IsPlan (find (own_capture account actual.capture_id) s.captures)
