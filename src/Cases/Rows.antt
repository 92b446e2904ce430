-- ===== src/Cases/Rows.antt =====
-- The rows that packages/pipeline/eastmed_pipeline/reconciliation_case.py reads, and the choice among
-- their revisions.
use mari_time_system.Prelude.{
  ℕ, String, str_eq, Option, none, some, List, [], ◌∷◌, ◌++◌, Bool, true, false, not, ◌&&◌, ◌||◌,
  ◌==◌, leb, if◌then◌else◌, is_some, select, find, all, ℤ, eq_ℤ, leb_ℤ,
}
use mari_time_system.Calculation.Decimal.{Decimal}
use mari_time_system.Calculation.Variance.{FuelGrade, same_grade, QuantityUnit}
use mari_time_system.Contract.Fields.{Checked, accepted, rejected, Parsers, NormalizedTimestamp}
use mari_time_system.Contract.Record.{Payload, NormalizedRecord, validate_record}

-- recon_observations
pub record Observation : Type 0 where
  pub id : ℕ
  pub account_id : ℕ
  pub capture_id : ℕ
  pub expected_job_id : Option ℕ
  pub field : String
  pub fuel_grade : FuelGrade
  pub value : Decimal
  pub unit : QuantityUnit
  pub period_start : ℕ
  pub period_end : ℕ

-- recon_source_captures
pub record Capture : Type 0 where
  pub id : ℕ
  pub account_id : ℕ
  pub source_system : String
  pub external_ref : String
  pub source_revision : String
  pub payload : Payload

-- recon_expected_jobs
pub record ExpectedJob : Type 0 where
  pub id : ℕ
  pub account_id : ℕ
  pub vessel_ref : String
  pub voyage_ref : Option String
  pub period_start : ℕ
  pub period_end : ℕ
  pub result_contract_version : String

-- What a case is built from.
pub record Sources : Type 0 where
  pub captures : List Capture
  pub observations : List Observation

-- `int` on a text, `none` where it raises; of Python's standard library, like the other parsers.
pub record Reading : Type 0 where
  pub parsers : Parsers
  pub integer : String → Option ℤ

abbrev pub actual_field : String
actual_field = "fuel_consumed"

abbrev pub plan_field : String
plan_field = "fuel_planned"

abbrev pub own_capture : ℕ → ℕ → Capture → Bool
own_capture account capture_id c = c.account_id == account && c.id == capture_id

abbrev pub revision_or_empty : Option Capture → String
revision_or_empty none = ""
revision_or_empty (some c) = c.source_revision

-- `_revision_by_capture(...).get(capture_id, "")`
abbrev pub revision_of : Sources → ℕ → ℕ → String
revision_of s account capture_id =
    revision_or_empty (find (own_capture account capture_id) s.captures)

abbrev pub number_row :
    Observation → Option ℤ → Option (List (Observation × ℤ)) → Option (List (Observation × ℤ))
number_row o (some n) (some rest) = some ((o, n) ∷ rest)
number_row o _ _ = none

-- Each row with the number of its revision; one text that is no number fails for all.
unfoldable pub numbered :
    (String → Option ℤ) → (ℕ → String) → List Observation → Option (List (Observation × ℤ))
numbered integer revision [] = some []
numbered integer revision (o ∷ os) =
    number_row o (integer (revision o.capture_id)) (numbered integer revision os)

-- `max` over the numbers, from the first on.
abbrev pub newest : ℤ → List (Observation × ℤ) → ℤ
newest n [] = n
newest n ((o, m) ∷ rest) = newest (if leb_ℤ m n then n else m) rest

abbrev pub with_number : ℤ → List (Observation × ℤ) → List Observation
with_number n [] = []
with_number n ((o, m) ∷ rest) = if eq_ℤ m n then o ∷ with_number n rest else with_number n rest

-- The current row, and whether the rows are ambiguous.
pub record Resolved : Type 0 where
  pub chosen : Option Observation
  pub ambiguous : Bool

abbrev pub only_one : List Observation → Resolved
only_one (o ∷ []) = record { chosen = some o; ambiguous = false }
only_one _ = record { chosen = none; ambiguous = true }

abbrev pub by_number : Option (List (Observation × ℤ)) → Resolved
by_number (some ((o, n) ∷ rest)) = only_one (with_number (newest n rest) ((o, n) ∷ rest))
by_number _ = record { chosen = none; ambiguous = true }

unfoldable pub resolve_current : (String → Option ℤ) → (ℕ → String) → List Observation → Resolved
unfolding numbered
resolve_current integer revision [] = record { chosen = none; ambiguous = false }
resolve_current integer revision (o ∷ []) = record { chosen = some o; ambiguous = false }
resolve_current integer revision (o ∷ p ∷ os) = by_number (numbered integer revision (o ∷ p ∷ os))

abbrev pub same_optional : Option String → Option String → Bool
same_optional none none = true
same_optional (some s) (some t) = str_eq s t
same_optional _ _ = false

-- `interval_start <= start and interval_end >= end`, false where an end is missing
abbrev pub covers : Option NormalizedTimestamp → Option NormalizedTimestamp → ℕ → ℕ → Bool
covers (some from) (some until) start end_ = leb from.utc start && leb end_ until.utc
covers _ _ start end_ = false

abbrev pub is_plan_for :
    ExpectedJob → NormalizedRecord → Observation → Checked NormalizedRecord → Bool
is_plan_for job report actual (rejected reason) = false
is_plan_for job report actual (accepted plan) =
    str_eq plan.vessel_ref job.vessel_ref
    && same_optional plan.voyage_ref report.voyage_ref
    && covers plan.interval_start plan.interval_end actual.period_start actual.period_end

abbrev pub is_plan_row : ℕ → Observation → Observation → Bool
is_plan_row account actual o =
    o.account_id == account
    && str_eq o.field plan_field
    && same_grade o.fuel_grade actual.fuel_grade
    && o.period_start == actual.period_start
    && o.period_end == actual.period_end

-- The captures that the join gives a row, with the row.
abbrev pub joined : List Capture → Observation → List (Observation × Capture)
joined [] o = []
joined (c ∷ cs) o =
    if c.id == o.capture_id && c.account_id == o.account_id
    then (o, c) ∷ joined cs o
    else joined cs o

abbrev pub plan_pairs : Sources → ℕ → Observation → List Observation → List (Observation × Capture)
plan_pairs s account actual [] = []
plan_pairs s account actual (o ∷ os) =
    (if is_plan_row account actual o then joined s.captures o else [])
    ++ plan_pairs s account actual os

abbrev pub applicable :
    Parsers
    → ExpectedJob
    → NormalizedRecord
    → Observation
    → List (Observation × Capture)
    → List (Observation × Capture)
applicable parsers job report actual =
    select (λ pair. is_plan_for job report actual (validate_record parsers pair.1.payload))

-- `len(lineages) <= 1`
abbrev pub one_lineage : List (Observation × Capture) → Bool
one_lineage [] = true
one_lineage ((o, c) ∷ rest) =
    all
      (λ pair.
        str_eq pair.1.source_system c.source_system && str_eq pair.1.external_ref c.external_ref)
      rest

abbrev pub rows_of : List (Observation × Capture) → List Observation
rows_of [] = []
rows_of ((o, c) ∷ rest) = o ∷ rows_of rest

abbrev pub is_report_for : ExpectedJob → NormalizedRecord → Bool
is_report_for job report =
    str_eq report.vessel_ref job.vessel_ref
    && (not (is_some job.voyage_ref) || same_optional report.voyage_ref job.voyage_ref)

abbrev pub plans_for_report :
    Parsers → Sources → ℕ → ExpectedJob → Observation → Checked NormalizedRecord → List Observation
plans_for_report parsers s account job actual (rejected reason) = []
plans_for_report parsers s account job actual (accepted report) =
    let matches =
      applicable parsers job report actual (plan_pairs s account actual s.observations) in
    if is_report_for job report && one_lineage matches then rows_of matches else []

abbrev pub plans_for_capture :
    Parsers → Sources → ℕ → ExpectedJob → Observation → Option Capture → List Observation
plans_for_capture parsers s account job actual none = []
plans_for_capture parsers s account job actual (some c) =
    plans_for_report parsers s account job actual (validate_record parsers c.payload)

unfoldable pub matching_plans : Parsers → Sources → ℕ → ExpectedJob → Observation → List Observation
matching_plans parsers s account job actual =
    plans_for_capture parsers s account job actual
      (find (own_capture account actual.capture_id) s.captures)
