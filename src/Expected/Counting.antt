-- ===== src/Expected/Counting.antt =====
-- What `summarize_ledger` of ledger.py counts.
use mari_time_system.Prelude.{
  ℕ, ◌+◌, ◌≤◌, ◌≡◌, refl, sym, ap, ◌∙◌, List, [], ◌∷◌, Bool, arith, if◌then◌else◌, total, count,
  length, ℤ, pos, ok,
}
use mari_time_system.Expected.Ledger.{
  JobOutcome, same_outcome, ExpectedJob, JobObservation, CompletionSummary, one_when, zero_touch,
  empty_tally, summarize_ledger,
}
use mari_time_system.Expected.Distinct.{Distinct, weight_of, weights-agree}
use mari_time_system.Expected.Collecting.{
  collect_jobs-Distinct, Collected, collect_observations-Collected, Adds, count_jobs-Adds,
  Summarized, summarize_ledger-Summarized,
}

total-count :
    {A : Type 0} → (p : A → Bool) (xs : List A) → total (λ x. one_when (p x)) xs ≡ count p xs
total-count p [] = refl
total-count p (x ∷ xs) = ground (arith, total-count p xs)

total-length : (os : List JobObservation) → total (λ o. 1) os ≡ length os
total-length [] = refl
total-length (o ∷ os) = omega (arith, total-length os)

-- The jobs over all outcomes.
abbrev pub all_outcomes : (JobOutcome → ℕ) → ℕ
all_outcomes f =
    f JobOutcome.correct_on_time
    + f JobOutcome.correct_late
    + f JobOutcome.incorrect
    + f JobOutcome.unresolved
    + f JobOutcome.missing
    + f JobOutcome.unsupported
    + f JobOutcome.pending_before_deadline

one_outcome : (k : JobOutcome) → all_outcomes (λ j. if same_outcome k j then 1 else 0) ≡ 1
one_outcome JobOutcome.correct_on_time = refl
one_outcome JobOutcome.correct_late = refl
one_outcome JobOutcome.incorrect = refl
one_outcome JobOutcome.unresolved = refl
one_outcome JobOutcome.missing = refl
one_outcome JobOutcome.unsupported = refl
one_outcome JobOutcome.pending_before_deadline = refl

outcomes-partition :
    (os : List JobObservation)
    → all_outcomes (λ k. count (λ o. same_outcome o.outcome k) os) ≡ length os
outcomes-partition [] = refl
outcomes-partition (o ∷ os) = omega (arith, one_outcome o.outcome, outcomes-partition os)

untouched-le :
    (os : List JobObservation)
    → count zero_touch os + count (λ o. o.human_intervention) os ≤ length os
untouched-le [] = omega arith
untouched-le (o ∷ os) = ground (arith, untouched-le os)

-- The summary counts the observations themselves, and accounts for every job.
pub record CountsAll (jobs : List ExpectedJob) (os : List JobObservation) (arrivals : ℤ)
    (s : CompletionSummary) : Type 0 where
  pub denominator : s.expected_jobs ≡ length jobs
  pub all_observed : length os ≡ length jobs
  pub outcome_counts : (k : JobOutcome) → s.by_outcome k ≡ count (λ o. same_outcome o.outcome k) os
  pub correct_counts : s.correct_on_time_zero_touch ≡ count zero_touch os
  pub human_counts : s.human_touch_jobs ≡ count (λ o. o.human_intervention) os
  pub arrived_counts : s.arrived_jobs ≡ count (λ o. o.arrived) os
  pub arrivals_kept : pos s.out_of_contract_arrivals ≡ arrivals
  pub partition : all_outcomes s.by_outcome ≡ s.expected_jobs
  pub disjoint : s.correct_on_time_zero_touch + s.human_touch_jobs ≤ s.expected_jobs

-- A summary is one of the whole cohort: the denominator is the number of jobs and of observations;
-- each figure is the number of observations that it names; the outcomes partition the jobs; and
-- the jobs with a human touch are never among the correct ones that are counted.
pub summarize_ledger-CountsAll :
    (jobs : List ExpectedJob) (os : List JobObservation) (arrivals : ℤ) (s : CompletionSummary)
    → summarize_ledger jobs os arrivals ≡ ok s
    → CountsAll jobs os arrivals s
summarize_ledger-CountsAll jobs os arrivals s e =
    let (n, given, same) = run.counted in
    let counts : (k : JobOutcome) → s.by_outcome k ≡ count (λ o. same_outcome o.outcome k) os = λ k.
      ap (λ x. x.by_outcome k) same
      ∙ adds.by_outcome k
      ∙ counted_in (λ o. same_outcome o.outcome k) in
    let zero : s.correct_on_time_zero_touch ≡ count zero_touch os =
      ap (λ x. x.correct_on_time_zero_touch) same ∙ adds.zero_touches ∙ counted_in zero_touch in
    let touched : s.human_touch_jobs ≡ count (λ o. o.human_intervention) os =
      ap (λ x. x.human_touch_jobs) same ∙ adds.touches ∙ counted_in (λ o. o.human_intervention) in
    let size : s.expected_jobs ≡ length jobs =
      omega (arith, ap (λ x. x.expected_jobs) same, distinct.1) in
    let seen : length os ≡ length jobs =
      omega (arith, adds.all_found, agree (λ o. 1), total-length os, distinct.1) in
    record {
      denominator = size;
      all_observed = seen;
      outcome_counts = counts;
      correct_counts = zero;
      human_counts = touched;
      arrived_counts = ap (λ x. x.arrived_jobs) same ∙ adds.arrivals ∙ counted_in (λ o. o.arrived);
      arrivals_kept = ap (λ x. pos x.out_of_contract_arrivals) same ∙ sym given;
      partition = omega (
        arith,
        outcomes-partition os,
        size,
        seen,
        counts JobOutcome.correct_on_time,
        counts JobOutcome.correct_late,
        counts JobOutcome.incorrect,
        counts JobOutcome.unresolved,
        counts JobOutcome.missing,
        counts JobOutcome.unsupported,
        counts JobOutcome.pending_before_deadline,
      );
      disjoint = omega (arith, untouched-le os, zero, touched, size, seen);
    }
  where
    run : Summarized jobs os arrivals s
    run = summarize_ledger-Summarized jobs os arrivals s e

    distinct : Distinct run.ids × (length run.ids ≡ length jobs)
    distinct =
        let (d, size) = collect_jobs-Distinct [] jobs run.ids tt run.jobs_collected in
        (d, omega (arith, size))

    collected : Collected run.ids [] os run.by_id
    collected =
        collect_observations-Collected run.ids [] os run.by_id tt tt run.observations_collected

    adds : Adds run.ids run.by_id empty_tally run.tally
    adds = count_jobs-Adds run.ids run.by_id empty_tally run.tally run.tallied

    agree : (w : JobObservation → ℕ) → total (weight_of w run.by_id) run.ids ≡ total w os
    agree w =
        weights-agree w run.ids run.by_id distinct.0 collected.one_per_job collected.known
        ∙ collected.sums w
        ∙ zero_plus (total w os)
      where
        zero_plus : (n : ℕ) → 0 + n ≡ n
        zero_plus n = omega arith

    counted_in :
        (p : JobObservation → Bool)
        → 0 + total (weight_of (λ o. one_when (p o)) run.by_id) run.ids ≡ count p os
    counted_in p = omega (arith, agree (λ o. one_when (p o)), total-count p os)
