-- ===== src/Expected/Distinct.antt =====
-- Counting over the jobs and counting over the observations of ledger.py come to the same.
use mari_time_system.Prelude.{
  ℕ, ◌+◌, ◌≡◌, refl, ap, ◌∙◌, sym, String, none, some, List, [], ◌∷◌, true, false, arith, str_eq,
  eq_iff, if◌then◌else◌, member, total, All, Bool-cases, inl, inr, Option-cases,
}
use mari_time_system.Expected.Ledger.{JobObservation, observation_of, observed}

-- No id stands twice.
abbrev pub Distinct : List String → Type 0
Distinct [] = Unit
Distinct (x ∷ xs) = (member x xs ≡ false) × Distinct xs

-- No two observations are of one job.
abbrev pub OnePerJob : List JobObservation → Type 0
OnePerJob [] = Unit
OnePerJob (o ∷ os) = (observed o.expected_job_id os ≡ false) × OnePerJob os

-- The weight of an observation for one job: nothing for the other jobs.
abbrev weight_for : (JobObservation → ℕ) → JobObservation → String → ℕ
weight_for w o id = if str_eq o.expected_job_id id then w o else 0

module _ {ℓ} {B : Type ℓ} where
  total-zero : (ys : List B) → total (λ y. 0) ys ≡ 0
  total-zero [] = refl
  total-zero (y ∷ ys) = omega (arith, total-zero ys)

  total-plus : (g h : B → ℕ) (ys : List B) → total (λ y. g y + h y) ys ≡ total g ys + total h ys
  total-plus g h [] = refl
  total-plus g h (y ∷ ys) = omega (arith, total-plus g h ys)

module _ {ℓ κ} {A : Type ℓ} {B : Type κ} where
  total-swap :
      (f : A → B → ℕ) (xs : List A) (ys : List B)
      → total (λ x. total (f x) ys) xs ≡ total (λ y. total (λ x. f x y) xs) ys
  total-swap f [] ys = sym (total-zero ys)
  total-swap f (x ∷ xs) ys =
      ap (λ n. total (f x) ys + n) (total-swap f xs ys)
      ∙ sym (total-plus (f x) (λ y. total (λ z. f z y) xs) ys)

unobserved-weight :
    (w : JobObservation → ℕ) (id : String) (os : List JobObservation)
    → observed id os ≡ false
    → total (λ o. weight_for w o id) os ≡ 0
unobserved-weight w id [] h = refl
unobserved-weight w id (o ∷ os) h = ground (arith, unobserved-weight w id os)

-- The weight that the observations have for a job is that of the one that is looked up.
looked_up-weight :
    (w : JobObservation → ℕ) (id : String) (os : List JobObservation) {o : JobObservation}
    → OnePerJob os
    → observation_of id os ≡ some o
    → total (λ x. weight_for w x id) os ≡ w o
looked_up-weight w id [] h e = cc
looked_up-weight w id (x ∷ os) {o} h e = elim (Bool-cases (str_eq x.expected_job_id id)) [
  | inl this ↦
      let same : x ≡ o = ground arith in
      let key : x.expected_job_id ≡ id = (eq_iff _ _).0 this in
      rw this (omega (arith, ap w same, unobserved-weight w id os (rw key at h.0)))
  | inr other ↦ rw other (omega (arith, looked_up-weight w id os {o = o} h.1 (ground arith)))
]

absent-weight :
    (w : JobObservation → ℕ) (o : JobObservation) (ids : List String)
    → member o.expected_job_id ids ≡ false
    → total (weight_for w o) ids ≡ 0
absent-weight w o [] h = refl
absent-weight w o (id ∷ ids) h = ground (arith, absent-weight w o ids)

-- An observation of a known job has its weight once among distinct ids.
known-weight :
    (w : JobObservation → ℕ) (o : JobObservation) (ids : List String)
    → Distinct ids
    → member o.expected_job_id ids ≡ true
    → total (weight_for w o) ids ≡ w o
known-weight w o [] d m = cc
known-weight w o (id ∷ ids) d m = elim (Bool-cases (str_eq o.expected_job_id id)) [
  | inl this ↦
      let key : o.expected_job_id ≡ id = (eq_iff _ _).0 this in
      rw this (omega (arith, absent-weight w o ids (rw key d.0)))
  | inr other ↦ rw other (omega (arith, known-weight w o ids d.1 (ground arith)))
]

known-weights :
    (w : JobObservation → ℕ) (ids : List String) (os : List JobObservation)
    → Distinct ids
    → All (λ o. member o.expected_job_id ids ≡ true) os
    → total (λ o. total (weight_for w o) ids) os ≡ total w os
known-weights w ids [] d k = refl
known-weights w ids (o ∷ os) d k =
    omega (arith, known-weight w o ids d k.0, known-weights w ids os d k.1)

-- The weight of the observation that a job has, nothing where it has none.
abbrev pub weight_of : (JobObservation → ℕ) → List JobObservation → String → ℕ
weight_of w os id = elim (observation_of id os) [ none ↦ 0 | some o ↦ w o ]

looked_up-weights :
    (w : JobObservation → ℕ) (ids : List String) (os : List JobObservation)
    → OnePerJob os
    → total (weight_of w os) ids ≡ total (λ id. total (λ o. weight_for w o id) os) ids
looked_up-weights w [] os one = refl
looked_up-weights w (id ∷ ids) os one = elim (Option-cases (observation_of id os)) [
  | inl missing ↦
      rw (missing, weight_of) (omega (arith, unseen os missing, looked_up-weights w ids os one))
  | inr (o, found) ↦
      rw (found, weight_of)
        (omega (arith, looked_up-weight w id os {o = o} one found, looked_up-weights w ids os one))
]
  where
    unseen :
        (xs : List JobObservation)
        → observation_of id xs ≡ none
        → total (λ o. weight_for w o id) xs ≡ 0
    unseen [] e = refl
    unseen (x ∷ xs) e = ground (arith, unseen xs)

-- Adding up over distinct jobs what their observations weigh is adding up over the observations,
-- where each observation is of one of the jobs and no two of the same.
pub weights-agree :
    (w : JobObservation → ℕ) (ids : List String) (os : List JobObservation)
    → Distinct ids
    → OnePerJob os
    → All (λ o. member o.expected_job_id ids ≡ true) os
    → total (weight_of w os) ids ≡ total w os
weights-agree w ids os distinct one known =
    looked_up-weights w ids os one
    ∙ total-swap (λ id o. weight_for w o id) ids os
    ∙ known-weights w ids os distinct known
