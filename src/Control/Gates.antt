-- ===== src/Control/Gates.antt =====
-- Which release gates hold, and what the regression check of a canary makes of it, for
-- packages/shared/eastmed_shared/reconciliation/release.py and
-- packages/shared/eastmed_shared/reconciliation/canary.py.
use mari_time_system.Prelude.{
  ◌<ℤ◌, ◌≡◌, refl, sym, ap, ◌∙◌, ◌↔◌, ◌⊎◌, inl, inr, String, str_eq, str_append, Option, none, some,
  List, [], ◌∷◌, any, all, Bool, true, false, not, ◌&&◌, false≢true, Bool-cases, arith, ℤ, pos,
  ◌≤ℤ◌, leb_ℤ, ltb_ℤ, member, Result, Error, ok, err, ◌>>=◌,
}
use mari_time_system.Control.Floats.{Floats, zero_float}
use mari_time_system.Control.Precision.{clopper_pearson_lower}
use mari_time_system.Control.Release.{
  ReleaseThresholds, ReleaseMetrics, ReleaseCheck, thresholds_or_default, completion_rate,
  enough_cases, release_checks, precision_lower, release_verdict, evaluate_release,
}
use mari_time_system.Control.Rollback.{
  RollbackDecision, rollback_canary_runbook, comma_joined, failed_names, rollback_decision,
  check_canary_regression,
}

pub data Gate : Type 0 where
  completion unassisted sample_size precision latency fixtures controls benefit pilots : Gate

abbrev pub gate_name : Gate → String
gate_name Gate.completion = "completion_rate"
gate_name Gate.unassisted = "zero_runtime_interventions"
gate_name Gate.sample_size = "precision_sample_size"
gate_name Gate.precision = "precision_lower_bound"
gate_name Gate.latency = "p95_latency"
gate_name Gate.fixtures = "arithmetic_fixtures"
gate_name Gate.controls = "controls_intact"
gate_name Gate.benefit = "measured_benefit"
gate_name Gate.pilots = "continuing_pilots"

-- A name is among the failed ones exactly when a check of that name failed.
member-failed_names :
    (name : String) (checks : List ReleaseCheck)
    → member name (failed_names checks) ≡ any (λ c. str_eq name c.name && not c.passed) checks
member-failed_names name [] = refl
member-failed_names name (c ∷ checks) = elim (Bool-cases c.passed) [
  | inl h ↦ ground (arith, h, member-failed_names name checks)
  | inr h ↦ ground (arith, h, member-failed_names name checks)
]

module _ (floats : Floats) (t : ReleaseThresholds floats.Float)
    (metrics : ReleaseMetrics floats.Float) where
  open floats use {Float, less, at_most}

  -- What a gate asks, when the precision is known to be at least `lower`.
  abbrev pub Holds : Float → Gate → Type 0
  Holds lower Gate.completion =
      at_most t.min_completion_rate (completion_rate floats metrics) ≡ true
  Holds lower Gate.unassisted = metrics.runtime_interventions ≤ℤ t.max_runtime_interventions
  Holds lower Gate.sample_size = t.min_precision_cases ≤ℤ metrics.precision_cases
  Holds lower Gate.precision =
      (t.min_precision_cases ≤ℤ metrics.precision_cases)
      × (at_most t.min_precision_lower_bound lower ≡ true)
  Holds lower Gate.latency = less metrics.p95_latency_seconds t.max_p95_latency_seconds ≡ true
  Holds lower Gate.fixtures = metrics.arithmetic_fixtures_pass ≡ true
  Holds lower Gate.controls = metrics.controls_intact ≡ true
  Holds lower Gate.benefit = at_most t.min_benefit_multiple metrics.benefit_multiple ≡ true
  Holds lower Gate.pilots = t.min_continuing_pilots ≤ℤ metrics.continuing_pilots

  -- The answer of a gate's check.
  abbrev passes : Float → Gate → Bool
  passes lower Gate.completion = at_most t.min_completion_rate (completion_rate floats metrics)
  passes lower Gate.unassisted = leb_ℤ metrics.runtime_interventions t.max_runtime_interventions
  passes lower Gate.sample_size = enough_cases floats t metrics
  passes lower Gate.precision =
      enough_cases floats t metrics && at_most t.min_precision_lower_bound lower
  passes lower Gate.latency = less metrics.p95_latency_seconds t.max_p95_latency_seconds
  passes lower Gate.fixtures = metrics.arithmetic_fixtures_pass
  passes lower Gate.controls = metrics.controls_intact
  passes lower Gate.benefit = at_most t.min_benefit_multiple metrics.benefit_multiple
  passes lower Gate.pilots = leb_ℤ t.min_continuing_pilots metrics.continuing_pilots

  leb_ℤ_iff : (a b : ℤ) → (leb_ℤ a b ≡ true) ↔ (a ≤ℤ b)
  leb_ℤ_iff a b = ((λ h. ground arith), (λ h. ground arith))

  passes_iff : (lower : Float) (g : Gate) → (passes lower g ≡ true) ↔ Holds lower g
  passes_iff lower Gate.completion = ((λ h. h), (λ h. h))
  passes_iff lower Gate.unassisted =
      leb_ℤ_iff metrics.runtime_interventions t.max_runtime_interventions
  passes_iff lower Gate.sample_size = leb_ℤ_iff t.min_precision_cases metrics.precision_cases
  passes_iff lower Gate.precision = ((λ h. ground arith), (λ h. ground arith))
  passes_iff lower Gate.latency = ((λ h. h), (λ h. h))
  passes_iff lower Gate.fixtures = ((λ h. h), (λ h. h))
  passes_iff lower Gate.controls = ((λ h. h), (λ h. h))
  passes_iff lower Gate.benefit = ((λ h. h), (λ h. h))
  passes_iff lower Gate.pilots = leb_ℤ_iff t.min_continuing_pilots metrics.continuing_pilots

  listed :
      (lower : Float) (g : Gate)
      → any
          (λ c. str_eq (gate_name g) c.name && not c.passed)
          (release_checks floats t metrics lower)
        ≡ not (passes lower g)
  unfolding release_checks
  listed lower Gate.completion = ground arith
  listed lower Gate.unassisted = ground arith
  listed lower Gate.sample_size = ground arith
  listed lower Gate.precision = ground arith
  listed lower Gate.latency = ground arith
  listed lower Gate.fixtures = ground arith
  listed lower Gate.controls = ground arith
  listed lower Gate.benefit = ground arith
  listed lower Gate.pilots = ground arith

abbrev gates : List Gate
gates =
    Gate.completion ∷ Gate.unassisted ∷ Gate.sample_size ∷ Gate.precision ∷ Gate.latency
    ∷ Gate.fixtures ∷ Gate.controls ∷ Gate.benefit ∷ Gate.pilots ∷ []

every_gate_passes : (p : Gate → Bool) → all p gates ≡ true → (g : Gate) → p g ≡ true
every_gate_passes p h Gate.completion = ground arith
every_gate_passes p h Gate.unassisted = ground arith
every_gate_passes p h Gate.sample_size = ground arith
every_gate_passes p h Gate.precision = ground arith
every_gate_passes p h Gate.latency = ground arith
every_gate_passes p h Gate.fixtures = ground arith
every_gate_passes p h Gate.controls = ground arith
every_gate_passes p h Gate.benefit = ground arith
every_gate_passes p h Gate.pilots = ground arith

some_fails {ℓ} :
    {A : Type ℓ} (p : A → Bool) (xs : List A) → all p xs ≡ false → (x : A) × (p x ≡ false)
some_fails p [] h = absurd (false≢true (sym h))
some_fails p (x ∷ xs) h = elim (Bool-cases (p x)) [
  | inr fails ↦ (x, fails)
  | inl holds ↦ some_fails p xs (ground arith)
]

module _ (floats : Floats) (metrics : ReleaseMetrics floats.Float)
    (thresholds : Option (ReleaseThresholds floats.Float)) where
  open floats use {Float}

  abbrev thresholds_used : ReleaseThresholds Float
  thresholds_used = thresholds_or_default floats thresholds

  -- The bound of the precision: 0 when there is no case.
  abbrev pub IsBound : Result Float → Type 0
  IsBound r =
      ((metrics.precision_cases ≤ℤ pos 0) × (r ≡ ok (zero_float floats)))
      ⊎ ((pos 0 <ℤ metrics.precision_cases)
          × (r
              ≡ clopper_pearson_lower floats metrics.precision_successes metrics.precision_cases
                  (thresholds_or_default floats thresholds).confidence))

  abbrev pub HoldsAt : Float → Gate → Type 0
  HoldsAt = Holds floats (thresholds_or_default floats thresholds) metrics

  -- What the regression check answers.
  pub data Regression (r : Result RollbackDecision) : Type 0 where
    raises : (reason : Error) → IsBound (err reason) → r ≡ err reason → Regression r
    stays :
        (lower : Float) (d : RollbackDecision)
        → IsBound (ok lower)
        → ((g : Gate) → HoldsAt lower g)
        → r ≡ ok d
        → d.rollback ≡ false
        → d.runbook_id ≡ none
        → Regression r
    rolls_back :
        (lower : Float) (d : RollbackDecision) (g : Gate) (names : List String)
        → IsBound (ok lower)
        → ¬ HoldsAt lower g
        → r ≡ ok d
        → d.rollback ≡ true
        → d.runbook_id ≡ some rollback_canary_runbook
        → d.reason ≡ str_append "objective regression: " (comma_joined names)
        → ((g : Gate) → (member (gate_name g) names ≡ true) ↔ (¬ HoldsAt lower g))
        → Regression r

  precision_lower-IsBound : IsBound (precision_lower floats thresholds_used metrics)
  precision_lower-IsBound = elim (Bool-cases (ltb_ℤ (pos 0) metrics.precision_cases)) [
    | inl some_ ↦ rw some_ (inr (ground arith, refl))
    | inr none_ ↦ rw none_ (inl (ground arith, refl))
  ]

  names_iff :
      (lower : Float) (g : Gate)
      → (member (gate_name g) (failed_names (release_checks floats thresholds_used metrics lower))
          ≡ true)
        ↔ (¬ HoldsAt lower g)
  names_iff lower g =
      let e =
        member-failed_names (gate_name g) (release_checks floats thresholds_used metrics lower)
        ∙ listed floats thresholds_used metrics lower g in
      let holds = passes_iff floats thresholds_used metrics lower g in
      elim (Bool-cases (passes floats thresholds_used metrics lower g)) [
        | inl h ↦
            ((λ m. absurd (false≢true (sym (ap not h) ∙ sym e ∙ m))), (λ n. absurd (n (holds.0 h))))
        | inr h ↦ ((λ m k. false≢true (sym h ∙ holds.1 k)), (λ n. e ∙ ap not h))
      ]

  decided :
      (lower : Float)
      → IsBound (ok lower)
      → Regression
          (ok (rollback_decision floats (release_verdict floats thresholds_used metrics lower)))
  unfolding release_checks
  decided lower bound =
      elim (Bool-cases (all (passes floats thresholds_used metrics lower) gates)) [
        | inl h ↦ rw h (
            stays lower _ bound
              (λ g.
                (passes_iff floats thresholds_used metrics lower g).0
                  (every_gate_passes (passes floats thresholds_used metrics lower) h g))
              refl refl refl)
        | inr h ↦
            let (g, fails) = some_fails (passes floats thresholds_used metrics lower) gates h in
            rw h (
              rolls_back lower _ g
                (failed_names (release_checks floats thresholds_used metrics lower)) bound
                (λ k.
                  false≢true (sym fails ∙ (passes_iff floats thresholds_used metrics lower g).1 k))
                refl refl refl refl (names_iff lower))
      ]

  -- The check raises what the bound of the precision raises, and else: it leaves the canary when all
  -- nine release gates hold, and otherwise rolls it back, by the runbook for it, and its reason names
  -- exactly the gates that do not hold.
  pub check_canary_regression-Regression :
      Regression (check_canary_regression floats metrics thresholds)
  unfolding check_canary_regression evaluate_release
  check_canary_regression-Regression =
      by_bound (precision_lower floats thresholds_used metrics) precision_lower-IsBound
    where
      by_bound :
          (r : Result Float)
          → IsBound r
          → Regression (
              (r >>= (λ lower. ok (release_verdict floats thresholds_used metrics lower)))
              >>= (λ verdict. ok (rollback_decision floats verdict)))
      by_bound (err reason) bound = raises reason bound refl
      by_bound (ok lower) bound = decided lower bound
