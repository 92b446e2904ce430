-- ===== src/Expected/Examples.antt =====
-- A cohort of three jobs, for ledger.py.
use mari_time_system.Prelude.{
  ℕ, ◌+◌, ◌≡◌, ◌↔◌, refl, String, List, [], ◌∷◌, Bool, true, false, pos, negsuc, ok, err,
  value_error,
}
use mari_time_system.Expected.Ledger.{
  JobOutcome, ExpectedJob, JobObservation, CompletionSummary, same_outcome, one_when,
  summarize_ledger,
}
use mari_time_system.Expected.Accepting.{Accounted, summarize_ledger_iff_Accounted}

abbrev job : String → ExpectedJob
job id = record {
  expected_job_id = id;
  tenant_id = "acme";
  vessel_ref = "v1";
  period_start = 0;
  period_end = 10;
  due_at = 20;
}

abbrev seen : String → JobOutcome → Bool → JobObservation
seen id outcome touched = record {
  expected_job_id = id;
  outcome = outcome;
  human_intervention = touched;
  arrived = true;
}

abbrev cohort : List ExpectedJob
cohort = job "a" ∷ job "b" ∷ job "c" ∷ []

abbrev results : List JobObservation
results =
    seen "b" JobOutcome.correct_on_time false
    ∷ seen "c" JobOutcome.correct_on_time true
    ∷ seen "a" JobOutcome.incorrect false
    ∷ []

abbrev totals : CompletionSummary
totals = record {
  expected_jobs = 3;
  correct_on_time_zero_touch = 1;
  human_touch_jobs = 1;
  arrived_jobs = 3;
  out_of_contract_arrivals = 2;
  by_outcome = λ k.
      0
      + one_when (same_outcome JobOutcome.correct_on_time k)
      + one_when (same_outcome JobOutcome.correct_on_time k)
      + one_when (same_outcome JobOutcome.incorrect k);
}

totals-found : summarize_ledger cohort results (pos 2) ≡ ok totals
unfolding summarize_ledger
totals-found = refl

job_missing : summarize_ledger (job "d" ∷ cohort) results (pos 2) ≡ err value_error
unfolding summarize_ledger
job_missing = refl

summarize_ledger_iff_Accounted_example :
    ((n : ℕ)
      → ((s : CompletionSummary) × (summarize_ledger cohort results (pos n) ≡ ok s))
        ↔ Accounted cohort results)
    × ((n : ℕ) (s : CompletionSummary) → ¬ (summarize_ledger cohort results (negsuc n) ≡ ok s))
summarize_ledger_iff_Accounted_example = summarize_ledger_iff_Accounted cohort results
