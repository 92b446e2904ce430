-- ===== src/Expected/Ledger.antt =====
-- The types, `classify_outcome` and `summarize_ledger` of
-- packages/shared/eastmed_shared/reconciliation/ledger.py.
use mari_time_system.Prelude.{
  ℕ, ◌+◌, String, Option, none, some, List, [], ◌∷◌, Bool, true, false, not, ◌&&◌, ◌==◌, str_eq,
  if◌then◌else◌, find, any, length, member, ℤ, pos, negsuc, Result, ok, err, value_error, key_error,
  ◌>>=◌, ◌>>◌, raise_if,
}

pub data JobOutcome : Type 0 where
  correct_on_time correct_late incorrect unresolved missing unsupported pending_before_deadline :
      JobOutcome

-- The fields that the counting reads; the contract fields of a job are carried by its importer.
pub record ExpectedJob : Type 0 where
  pub expected_job_id : String
  pub tenant_id : String
  pub vessel_ref : String
  pub period_start : ℕ
  pub period_end : ℕ
  pub due_at : ℕ

pub record JobObservation : Type 0 where
  pub expected_job_id : String
  pub outcome : JobOutcome
  pub human_intervention : Bool
  pub arrived : Bool

unfoldable pub classify_outcome : Bool → Bool → Bool → Bool → Bool → Bool → JobOutcome
classify_outcome supported arrived resolved correct on_time deadline_passed =
    if not supported
    then JobOutcome.unsupported
    else if not arrived
    then (if deadline_passed then JobOutcome.missing else JobOutcome.pending_before_deadline)
    else if not resolved
    then (if deadline_passed then JobOutcome.unresolved else JobOutcome.pending_before_deadline)
    else if not correct
    then JobOutcome.incorrect
    else if on_time
    then JobOutcome.correct_on_time
    else JobOutcome.correct_late

abbrev pub outcome_index : JobOutcome → ℕ
outcome_index JobOutcome.correct_on_time = 0
outcome_index JobOutcome.correct_late = 1
outcome_index JobOutcome.incorrect = 2
outcome_index JobOutcome.unresolved = 3
outcome_index JobOutcome.missing = 4
outcome_index JobOutcome.unsupported = 5
outcome_index JobOutcome.pending_before_deadline = 6

-- `a is b`
abbrev pub same_outcome : JobOutcome → JobOutcome → Bool
same_outcome a b = outcome_index a == outcome_index b

-- `by_outcome` gives 0 for an outcome that the dictionary does not hold.
pub record CompletionSummary : Type 0 where
  pub expected_jobs : ℕ
  pub correct_on_time_zero_touch : ℕ
  pub human_touch_jobs : ℕ
  pub arrived_jobs : ℕ
  pub out_of_contract_arrivals : ℕ
  pub by_outcome : JobOutcome → ℕ

-- The loop over the jobs: their ids, each once.
unfoldable pub collect_jobs : List String → List ExpectedJob → Result (List String)
collect_jobs ids [] = ok ids
collect_jobs ids (job ∷ jobs) =
    let rest = collect_jobs (job.expected_job_id ∷ ids) jobs in
    if member job.expected_job_id ids then err value_error else rest

-- `by_id.get(job_id)`
abbrev pub observation_of : String → List JobObservation → Option JobObservation
observation_of id = find (λ o. str_eq o.expected_job_id id)

-- `job_id in seen`
abbrev pub observed : String → List JobObservation → Bool
observed id = any (λ o. str_eq o.expected_job_id id)

-- The loop over the observations: `seen` and `by_id` together, each known job at most once.
unfoldable pub collect_observations :
    List String → List JobObservation → List JobObservation → Result (List JobObservation)
collect_observations ids by_id [] = ok by_id
collect_observations ids by_id (o ∷ os) =
    let rest = collect_observations ids (o ∷ by_id) os in
    if not (member o.expected_job_id ids)
    then err value_error
    else if observed o.expected_job_id by_id
    then err value_error
    else rest

pub record Tally : Type 0 where
  pub counts : JobOutcome → ℕ
  pub correct_zero_touch : ℕ
  pub human_touch : ℕ
  pub arrived : ℕ

abbrev pub one_when : Bool → ℕ
one_when true = 1
one_when false = 0

abbrev pub zero_touch : JobObservation → Bool
zero_touch o = same_outcome o.outcome JobOutcome.correct_on_time && not o.human_intervention

-- The body of the counting loop.
abbrev pub add_observation : JobObservation → Tally → Tally
add_observation o t = record {
  counts = λ k. t.counts k + one_when (same_outcome o.outcome k);
  correct_zero_touch = t.correct_zero_touch + one_when (zero_touch o);
  human_touch = t.human_touch + one_when o.human_intervention;
  arrived = t.arrived + one_when o.arrived;
}

unfoldable pub count_jobs : List String → List JobObservation → Tally → Result Tally
count_jobs [] by_id t = ok t
count_jobs (id ∷ ids) by_id t = elim (observation_of id by_id) [
  | none ↦ err key_error
  | some o ↦ count_jobs ids by_id (add_observation o t)
]

abbrev pub empty_tally : Tally
empty_tally = record { counts = λ k. 0; correct_zero_touch = 0; human_touch = 0; arrived = 0 }

abbrev pub summary_of : ℕ → ℕ → Tally → CompletionSummary
summary_of jobs arrivals t = record {
  expected_jobs = jobs;
  correct_on_time_zero_touch = t.correct_zero_touch;
  human_touch_jobs = t.human_touch;
  arrived_jobs = t.arrived;
  out_of_contract_arrivals = arrivals;
  by_outcome = t.counts;
}

-- The part after the check of `out_of_contract_arrivals`.
unfoldable pub summarize_checked :
    List ExpectedJob → List JobObservation → ℕ → Result CompletionSummary
unfolding collect_jobs collect_observations count_jobs
summarize_checked jobs observations arrivals = do
  ids ← collect_jobs [] jobs
  by_id ← collect_observations ids [] observations
  raise_if (any (λ id. not (observed id by_id)) ids) value_error
  t ← count_jobs ids by_id empty_tally
  ok (summary_of (length ids) arrivals t)

unfoldable pub summarize_ledger :
    List ExpectedJob → List JobObservation → ℤ → Result CompletionSummary
unfolding summarize_checked
summarize_ledger jobs observations (negsuc n) = err value_error
summarize_ledger jobs observations (pos arrivals) = summarize_checked jobs observations arrivals
