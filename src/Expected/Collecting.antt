-- ===== src/Expected/Collecting.antt =====
-- What the loops of `summarize_ledger` of ledger.py leave.
use mari_time_system.Prelude.{
  ℕ, ◌+◌, ◌≡◌, refl, ap, subst, String, List, [], ◌∷◌, Bool, true, false, not, arith, member, total,
  All, length, any, ℤ, pos, negsuc, Result, ok, err, ok-injective, Bool-cases, inl, inr,
  Option-cases,
}
use mari_time_system.Expected.Ledger.{
  JobOutcome, same_outcome, ExpectedJob, JobObservation, CompletionSummary, Tally, one_when,
  zero_touch, add_observation, observation_of, observed, collect_jobs, collect_observations,
  count_jobs, empty_tally, summary_of, summarize_checked, summarize_ledger,
}
use mari_time_system.Expected.Distinct.{Distinct, OnePerJob, weight_of}

abbrev KnownTo : List String → JobObservation → Type 0
KnownTo ids o = member o.expected_job_id ids ≡ true

-- What the loop over the jobs leaves: distinct ids, one for each job.
pub collect_jobs-Distinct :
    (acc : List String) (jobs : List ExpectedJob) (ids : List String)
    → Distinct acc
    → collect_jobs acc jobs ≡ ok ids
    → Distinct ids × (length ids ≡ length acc + length jobs)
unfolding collect_jobs
collect_jobs-Distinct acc [] ids d e =
    let same : acc ≡ ids = ok-injective e in (subst Distinct same d, omega (arith, ap length same))
collect_jobs-Distinct acc (job ∷ jobs) ids d e =
    elim (Bool-cases (member job.expected_job_id acc)) [
      | inl twice ↦ absurd (ground arith)
      | inr new ↦
          let (distinct, size) =
            collect_jobs-Distinct (job.expected_job_id ∷ acc) jobs ids (new, d) (ground arith) in
          (distinct, omega (arith, size))
    ]

-- What the loop over the observations leaves: known ones, no two of one job, with the same sums.
pub record Collected (ids : List String) (acc os by_id : List JobObservation) : Type 0 where
  pub one_per_job : OnePerJob by_id
  pub known : All (KnownTo ids) by_id
  pub sums : (w : JobObservation → ℕ) → total w by_id ≡ total w acc + total w os

pub collect_observations-Collected :
    (ids : List String) (acc os by_id : List JobObservation)
    → OnePerJob acc
    → All (KnownTo ids) acc
    → collect_observations ids acc os ≡ ok by_id
    → Collected ids acc os by_id
unfolding collect_observations
collect_observations-Collected ids acc [] by_id one known e =
    let same : acc ≡ by_id = ok-injective e in
    record {
      one_per_job = subst OnePerJob same one;
      known = subst (All (KnownTo ids)) same known;
      sums = λ w. omega (arith, ap (total w) same);
    }
collect_observations-Collected ids acc (o ∷ os) by_id one known e =
    elim (Bool-cases (member o.expected_job_id ids)) [
      | inr stranger ↦ absurd (ground arith)
      | inl member_of_ids ↦ elim (Bool-cases (observed o.expected_job_id acc)) [
        | inl twice ↦ absurd (ground arith)
        | inr new ↦
            let rest =
              collect_observations-Collected ids (o ∷ acc) os by_id (new, one)
                (member_of_ids, known) (ground arith) in
            record {
              one_per_job = rest.one_per_job;
              known = rest.known;
              sums = λ w. omega (arith, rest.sums w);
            }
      ]
    ]

-- What the counting loop adds to the tally.
pub record Adds (ids : List String) (by_id : List JobObservation) (t t' : Tally) : Type 0 where
  pub by_outcome :
      (k : JobOutcome)
      → t'.counts k
        ≡ t.counts k + total (weight_of (λ o. one_when (same_outcome o.outcome k)) by_id) ids
  pub zero_touches :
      t'.correct_zero_touch
      ≡ t.correct_zero_touch + total (weight_of (λ o. one_when (zero_touch o)) by_id) ids
  pub touches :
      t'.human_touch
      ≡ t.human_touch + total (weight_of (λ o. one_when o.human_intervention) by_id) ids
  pub arrivals : t'.arrived ≡ t.arrived + total (weight_of (λ o. one_when o.arrived) by_id) ids
  pub all_found : total (weight_of (λ o. 1) by_id) ids ≡ length ids

pub count_jobs-Adds :
    (ids : List String) (by_id : List JobObservation) (t t' : Tally)
    → count_jobs ids by_id t ≡ ok t'
    → Adds ids by_id t t'
unfolding count_jobs
count_jobs-Adds [] by_id t t' e =
    let same : t ≡ t' = ok-injective e in
    record {
      by_outcome = λ k. omega (arith, ap (λ x. x.counts k) same);
      zero_touches = omega (arith, ap (λ x. x.correct_zero_touch) same);
      touches = omega (arith, ap (λ x. x.human_touch) same);
      arrivals = omega (arith, ap (λ x. x.arrived) same);
      all_found = refl;
    }
count_jobs-Adds (id ∷ ids) by_id t t' e = elim (Option-cases (observation_of id by_id)) [
  | inl missing ↦ absurd (ground arith)
  | inr (o, found) ↦
      let rest = count_jobs-Adds ids by_id (add_observation o t) t' (rw (found, count_jobs) at e) in
      let here : (w : JobObservation → ℕ) → weight_of w by_id id ≡ w o =
        λ w. rw (found, weight_of) refl in
      record {
        by_outcome =
            λ k. omega (arith, rest.by_outcome k, here (λ x. one_when (same_outcome x.outcome k)));
        zero_touches = omega (arith, rest.zero_touches, here (λ x. one_when (zero_touch x)));
        touches = omega (arith, rest.touches, here (λ x. one_when x.human_intervention));
        arrivals = omega (arith, rest.arrivals, here (λ x. one_when x.arrived));
        all_found = omega (arith, rest.all_found, here (λ x. 1));
      }
]

-- The parts of a run that has succeeded.
pub record Summarized (jobs : List ExpectedJob) (os : List JobObservation) (arrivals : ℤ)
    (s : CompletionSummary) : Type 0 where
  pub ids : List String
  pub by_id : List JobObservation
  pub tally : Tally
  pub jobs_collected : collect_jobs [] jobs ≡ ok ids
  pub observations_collected : collect_observations ids [] os ≡ ok by_id
  pub all_accounted : any (λ id. not (observed id by_id)) ids ≡ false
  pub tallied : count_jobs ids by_id empty_tally ≡ ok tally
  pub counted : (n : ℕ) × (arrivals ≡ pos n) × (s ≡ summary_of (length ids) n tally)

pub summarize_ledger-Summarized :
    (jobs : List ExpectedJob) (os : List JobObservation) (arrivals : ℤ) (s : CompletionSummary)
    → summarize_ledger jobs os arrivals ≡ ok s
    → Summarized jobs os arrivals s
unfolding summarize_ledger summarize_checked
summarize_ledger-Summarized jobs os (negsuc n) s e = cc
summarize_ledger-Summarized jobs os (pos n) s e = by_ids (collect_jobs [] jobs) refl
  where
    after_tally :
        (ids : List String) (by_id : List JobObservation)
        → collect_jobs [] jobs ≡ ok ids
        → collect_observations ids [] os ≡ ok by_id
        → any (λ id. not (observed id by_id)) ids ≡ false
        → (r : Result Tally) → count_jobs ids by_id empty_tally ≡ r
        → Summarized jobs os (pos n) s
    after_tally ids by_id p q a (err x) r = absurd (ground arith)
    after_tally ids by_id p q a (ok t) r = record {
      ids = ids;
      by_id = by_id;
      tally = t;
      jobs_collected = p;
      observations_collected = q;
      all_accounted = a;
      tallied = r;
      counted = (n, refl, ground arith);
    }

    after_check :
        (ids : List String) (by_id : List JobObservation)
        → collect_jobs [] jobs ≡ ok ids
        → collect_observations ids [] os ≡ ok by_id
        → (b : Bool) → any (λ id. not (observed id by_id)) ids ≡ b
        → Summarized jobs os (pos n) s
    after_check ids by_id p q true a = absurd (ground arith)
    after_check ids by_id p q false a =
        after_tally ids by_id p q a (count_jobs ids by_id empty_tally) refl

    by_observations :
        (ids : List String)
        → collect_jobs [] jobs ≡ ok ids
        → (r : Result (List JobObservation)) → collect_observations ids [] os ≡ r
        → Summarized jobs os (pos n) s
    by_observations ids p (err x) q = absurd (ground arith)
    by_observations ids p (ok by_id) q =
        after_check ids by_id p q (any (λ id. not (observed id by_id)) ids) refl

    by_ids : (r : Result (List String)) → collect_jobs [] jobs ≡ r → Summarized jobs os (pos n) s
    by_ids (err x) p = absurd (ground arith)
    by_ids (ok ids) p = by_observations ids p (collect_observations ids [] os) refl
