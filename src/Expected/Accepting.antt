-- ===== src/Expected/Accepting.antt =====
-- Exactly which cohorts `summarize_ledger` of ledger.py accepts.
use mari_time_system.Prelude.{
  ℕ, ◌≡◌, refl, sym, ap, ◌∙◌, subst, String, some, List, [], ◌∷◌, map, Bool, true, false, not, ◌||◌,
  ◌↔◌, false≢true, arith, str_eq, eq_iff, member, All, length, any, ℤ, pos, negsuc, ok,
  ok-injective, Bool-cases, inl, inr,
}
use mari_time_system.Expected.Ledger.{
  ExpectedJob, JobObservation, CompletionSummary, Tally, add_observation, observation_of, observed,
  collect_jobs, collect_observations, count_jobs, empty_tally, summary_of, summarize_checked,
  summarize_ledger,
}
use mari_time_system.Expected.Distinct.{Distinct}
use mari_time_system.Expected.Collecting.{Summarized, summarize_ledger-Summarized}
use mari_time_system.Expected.Freshness.{Fresh, str_eq-sym, Fresh-Distinct, Distinct-Fresh, in_none}

abbrev pub job_ids : List ExpectedJob → List String
job_ids = map (λ j. j.expected_job_id)

abbrev pub observed_ids : List JobObservation → List String
observed_ids = map (λ o. o.expected_job_id)

-- Every job has exactly one observation, and every observation is of a job.
pub record Accounted (jobs : List ExpectedJob) (os : List JobObservation) : Type 0 where
  pub distinct_jobs : Distinct (job_ids jobs)
  pub distinct_observations : Distinct (observed_ids os)
  pub known : All (λ id. member id (job_ids jobs) ≡ true) (observed_ids os)
  pub complete : All (λ id. member id (observed_ids os) ≡ true) (job_ids jobs)

-- The ids that the first loop has collected, and that they were fresh.
collected_ids :
    (acc : List String) (jobs : List ExpectedJob) (ids : List String)
    → collect_jobs acc jobs ≡ ok ids
    → Fresh acc (job_ids jobs)
      × ((x : String) → member x ids ≡ (member x acc || member x (job_ids jobs)))
unfolding collect_jobs
collected_ids acc [] ids e =
    let same : acc ≡ ids = ok-injective e in
    (tt, λ x. ap (member x) (sym same) ∙ or_none (member x acc))
  where
    or_none : (b : Bool) → b ≡ (b || false)
    or_none true = refl
    or_none false = refl
collected_ids acc (job ∷ jobs) ids e = elim (Bool-cases (member job.expected_job_id acc)) [
  | inl twice ↦ absurd (ground arith)
  | inr new ↦
      let (fresh, members) = collected_ids (job.expected_job_id ∷ acc) jobs ids (ground arith) in
      ((new, fresh), λ x. ground (arith, members x))
]

collects :
    (acc : List String) (jobs : List ExpectedJob)
    → Fresh acc (job_ids jobs)
    → (ids : List String) × (collect_jobs acc jobs ≡ ok ids)
unfolding collect_jobs
collects acc [] h = (acc, refl)
collects acc (job ∷ jobs) h =
    let (ids, e) = collects (job.expected_job_id ∷ acc) jobs h.1 in (ids, rw h.0 e)

observed-member :
    (id : String) (os : List JobObservation) → observed id os ≡ member id (observed_ids os)
observed-member id [] = refl
observed-member id (o ∷ os) = ground (arith, str_eq-sym o.expected_job_id id, observed-member id os)

-- What the second loop has collected: fresh and known ones.
collected_observations :
    (ids : List String) (acc os by_id : List JobObservation)
    → collect_observations ids acc os ≡ ok by_id
    → Fresh (observed_ids acc) (observed_ids os)
      × All (λ id. member id ids ≡ true) (observed_ids os)
      × ((x : String) → observed x by_id ≡ (observed x acc || observed x os))
unfolding collect_observations
collected_observations ids acc [] by_id e =
    let same : acc ≡ by_id = ok-injective e in
    (tt, tt, λ x. ap (observed x) (sym same) ∙ or_none (observed x acc))
  where
    or_none : (b : Bool) → b ≡ (b || false)
    or_none true = refl
    or_none false = refl
collected_observations ids acc (o ∷ os) by_id e = elim (Bool-cases (member o.expected_job_id ids)) [
  | inr stranger ↦ absurd (ground arith)
  | inl known ↦ elim (Bool-cases (observed o.expected_job_id acc)) [
    | inl twice ↦ absurd (ground arith)
    | inr new ↦
        let (fresh, all_known, members) =
          collected_observations ids (o ∷ acc) os by_id (ground arith) in
        (
          (sym (observed-member o.expected_job_id acc) ∙ new, fresh),
          (known, all_known),
          λ x. ground (arith, members x),
        )
  ]
]

collects_observations :
    (ids : List String) (acc os : List JobObservation)
    → Fresh (observed_ids acc) (observed_ids os)
    → All (λ id. member id ids ≡ true) (observed_ids os)
    → (by_id : List JobObservation) × (collect_observations ids acc os ≡ ok by_id)
unfolding collect_observations
collects_observations ids acc [] h k = (acc, refl)
collects_observations ids acc (o ∷ os) h k =
    let (by_id, e) = collects_observations ids (o ∷ acc) os h.1 k.1 in
    (by_id, rw (k.0, observed-member o.expected_job_id acc ∙ h.0) e)

-- A job that is observed is found by the counting loop.
observed-found :
    (id : String) (os : List JobObservation)
    → observed id os ≡ true
    → (o : JobObservation) × (observation_of id os ≡ some o)
observed-found id [] h = absurd (false≢true h)
observed-found id (o ∷ os) h = elim (Bool-cases (str_eq o.expected_job_id id)) [
  | inl this ↦ (o, rw this refl)
  | inr other ↦ let (x, e) = observed-found id os (ground arith) in (x, rw other e)
]

counts_jobs :
    (ids : List String) (by_id : List JobObservation) (t : Tally)
    → any (λ id. not (observed id by_id)) ids ≡ false
    → (t' : Tally) × (count_jobs ids by_id t ≡ ok t')
unfolding count_jobs
counts_jobs [] by_id t h = (t, refl)
counts_jobs (id ∷ ids) by_id t h =
    let (o, found) = observed-found id by_id (ground arith) in
    let (t', e) = counts_jobs ids by_id (add_observation o t) (ground arith) in
    (t', rw (found, count_jobs) e)

module _ (f : String → Bool) where
  every_member :
      (xs : List String)
      → ((x : String) → member x xs ≡ true → f x ≡ true)
      → All (λ x. f x ≡ true) xs
  every_member [] h = tt
  every_member (x ∷ xs) h =
      (h x (ground (arith, eq_iff x x)), every_member xs (λ y m. h y (ground arith)))

  member_of_All :
      (xs : List String) → All (λ x. f x ≡ true) xs → (x : String) → member x xs ≡ true → f x ≡ true
  member_of_All [] h x m = absurd (false≢true m)
  member_of_All (y ∷ xs) h x m = elim (Bool-cases (str_eq x y)) [
    | inl this ↦ subst (λ z. f z ≡ true) (sym ((eq_iff x y).0 this)) h.0
    | inr other ↦ member_of_All xs h.1 x (ground arith)
  ]

  none_fails : (xs : List String) → any (λ x. not (f x)) xs ≡ false → All (λ x. f x ≡ true) xs
  none_fails [] h = tt
  none_fails (x ∷ xs) h = (ground arith, none_fails xs (ground arith))

  fails_none : (xs : List String) → All (λ x. f x ≡ true) xs → any (λ x. not (f x)) xs ≡ false
  fails_none [] h = refl
  fails_none (x ∷ xs) h = rw h.0 (fails_none xs h.1)

-- Two lists with the same members satisfy the same test, and two tests that agree pass the same.
same_members :
    (f g : String → Bool) (xs ys : List String)
    → ((x : String) → member x ys ≡ member x xs)
    → ((x : String) → g x ≡ f x)
    → All (λ x. f x ≡ true) xs
    → All (λ x. g x ≡ true) ys
same_members f g xs ys members agree h =
    every_member g ys (λ x m. agree x ∙ member_of_All f xs h x (sym (members x) ∙ m))

Summarized-Accounted :
    {jobs : List ExpectedJob} {os : List JobObservation} {arrivals : ℤ} {s : CompletionSummary}
    → Summarized jobs os arrivals s
    → Accounted jobs os
Summarized-Accounted {jobs} {os} run =
    let (fresh_jobs, members) = collected_ids [] jobs run.ids run.jobs_collected in
    let (fresh, known, seen) =
      collected_observations run.ids [] os run.by_id run.observations_collected in
    record {
      distinct_jobs = Fresh-Distinct [] (job_ids jobs) fresh_jobs;
      distinct_observations = Fresh-Distinct [] (observed_ids os) fresh;
      known =
          same_members (λ id. member id run.ids) (λ id. member id (job_ids jobs)) (observed_ids os)
            (observed_ids os) (λ x. refl) (λ x. sym (members x)) known;
      complete =
          same_members (λ id. observed id run.by_id) (λ id. member id (observed_ids os)) run.ids
            (job_ids jobs) (λ x. sym (members x)) (λ x. sym (observed-member x os) ∙ sym (seen x))
            (none_fails (λ id. observed id run.by_id) run.ids run.all_accounted);
    }

Accounted-summary :
    (jobs : List ExpectedJob) (os : List JobObservation) (n : ℕ)
    → Accounted jobs os
    → (s : CompletionSummary) × (summarize_ledger jobs os (pos n) ≡ ok s)
unfolding summarize_ledger summarize_checked
Accounted-summary jobs os n h =
    let (ids, e) =
      collects [] jobs
        (Distinct-Fresh [] (job_ids jobs) h.distinct_jobs (in_none (job_ids jobs))) in
    let (fresh_jobs, members) = collected_ids [] jobs ids e in
    let known =
      same_members (λ id. member id (job_ids jobs)) (λ id. member id ids) (observed_ids os)
        (observed_ids os) (λ x. refl) members h.known in
    let (by_id, e') =
      collects_observations ids [] os
        (Distinct-Fresh [] (observed_ids os) h.distinct_observations (in_none (observed_ids os)))
        known in
    let (fresh, all_known, seen) = collected_observations ids [] os by_id e' in
    let complete =
      fails_none (λ id. observed id by_id) ids
        (same_members (λ id. member id (observed_ids os)) (λ id. observed id by_id) (job_ids jobs)
          ids members (λ x. seen x ∙ observed-member x os) h.complete) in
    let (t, e'') = counts_jobs ids by_id empty_tally complete in
    (summary_of (length ids) n t, rw e (rw e' (rw complete (rw e'' refl))))

-- A summary is given exactly for the cohorts that are fully accounted: the job ids are distinct,
-- the observations are of distinct jobs, each is of a job of the cohort, and every job has one.
-- A negative number of arrivals outside the contract is always refused.
pub summarize_ledger_iff_Accounted :
    (jobs : List ExpectedJob) (os : List JobObservation)
    → ((n : ℕ)
        → ((s : CompletionSummary) × (summarize_ledger jobs os (pos n) ≡ ok s)) ↔ Accounted jobs os)
      × ((n : ℕ) (s : CompletionSummary) → ¬ (summarize_ledger jobs os (negsuc n) ≡ ok s))
unfolding summarize_ledger
summarize_ledger_iff_Accounted jobs os = (
  λ n. (
    λ (s, e). Summarized-Accounted (summarize_ledger-Summarized jobs os (pos n) s e),
    Accounted-summary jobs os n,
  ),
  λ n s e. cc,
)
