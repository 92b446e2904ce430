-- ===== src/Control/Release.antt =====
-- The release gates of packages/shared/eastmed_shared/reconciliation/release.py.
use mari_time_system.Prelude.{
  String, str_append, Option, none, some, List, [], ◌∷◌, Bool, ◌&&◌, ℤ, pos, leb_ℤ, ltb_ℤ, eq_ℤ,
  if◌then◌else◌, all, Result, ok, ◌>>=◌,
}
use mari_time_system.Control.Floats.{Floats, zero_float}
use mari_time_system.Control.Precision.{clopper_pearson_lower}

pub record ReleaseThresholds (Float : Type 0) : Type 0 where
  pub min_completion_rate : Float
  pub max_runtime_interventions : ℤ
  pub min_precision_lower_bound : Float
  pub min_precision_cases : ℤ
  pub max_p95_latency_seconds : Float
  pub min_benefit_multiple : Float
  pub min_continuing_pilots : ℤ
  pub confidence : Float

pub record ReleaseMetrics (Float : Type 0) : Type 0 where
  pub expected_jobs : ℤ
  pub correct_on_time : ℤ
  pub runtime_interventions : ℤ
  pub precision_successes : ℤ
  pub precision_cases : ℤ
  pub p95_latency_seconds : Float
  pub arithmetic_fixtures_pass : Bool
  pub controls_intact : Bool
  pub benefit_multiple : Float
  pub continuing_pilots : ℤ

pub record ReleaseCheck : Type 0 where
  pub name : String
  pub passed : Bool
  pub detail : String

pub record ReleaseVerdict (Float : Type 0) : Type 0 where
  pub passed : Bool
  pub checks : List ReleaseCheck
  pub precision_lower_bound : Float

pub record SealedManifest : Type 0 where
  pub manifest_id : String
  pub reference_case_ids : List String
  pub decision_time_evidence_hash : String
  pub expected_job_ids : List String

-- `a + b + c` for texts.
abbrev pub joined : List String → String
joined [] = ""
joined (s ∷ ss) = str_append s (joined ss)

module _ (floats : Floats) where
  open floats use {Float, literal, ratio, less, at_most, text, fixed, text_of_int}

  -- The thresholds that a caller who gives none has.
  abbrev pub default_thresholds : ReleaseThresholds Float
  default_thresholds = record {
    min_completion_rate = literal "0.90";
    max_runtime_interventions = pos 0;
    min_precision_lower_bound = literal "0.99";
    min_precision_cases = pos 300;
    max_p95_latency_seconds = literal "300.0";
    min_benefit_multiple = literal "3.0";
    min_continuing_pilots = pos 2;
    confidence = literal "0.95";
  }

  -- `thresholds or ReleaseThresholds()`
  abbrev pub thresholds_or_default : Option (ReleaseThresholds Float) → ReleaseThresholds Float
  thresholds_or_default none = default_thresholds
  thresholds_or_default (some t) = t

  abbrev pub completion_rate : ReleaseMetrics Float → Float
  completion_rate metrics =
      if eq_ℤ metrics.expected_jobs (pos 0)
      then zero_float floats
      else ratio metrics.correct_on_time metrics.expected_jobs

  abbrev pub enough_cases : ReleaseThresholds Float → ReleaseMetrics Float → Bool
  enough_cases t metrics = leb_ℤ t.min_precision_cases metrics.precision_cases

  -- The checks, once the lower bound of the precision is known.
  unfoldable pub release_checks :
      ReleaseThresholds Float → ReleaseMetrics Float → Float → List ReleaseCheck
  release_checks t metrics lower =
      record {
        name = "completion_rate";
        passed = at_most t.min_completion_rate (completion_rate metrics);
        detail = joined (
            "C/N="
            ∷ fixed 4 (completion_rate metrics)
            ∷ " vs >= "
            ∷ text t.min_completion_rate
            ∷ []);
      }
      ∷ record {
        name = "zero_runtime_interventions";
        passed = leb_ℤ metrics.runtime_interventions t.max_runtime_interventions;
        detail = joined (
            text_of_int metrics.runtime_interventions
            ∷ " interventions vs <= "
            ∷ text_of_int t.max_runtime_interventions
            ∷ []);
      }
      ∷ record {
        name = "precision_sample_size";
        passed = enough_cases t metrics;
        detail = joined (
            text_of_int metrics.precision_cases
            ∷ " cases vs >= "
            ∷ text_of_int t.min_precision_cases
            ∷ []);
      }
      ∷ record {
        name = "precision_lower_bound";
        passed = enough_cases t metrics && at_most t.min_precision_lower_bound lower;
        detail =
            joined ("lower=" ∷ fixed 4 lower ∷ " vs >= " ∷ text t.min_precision_lower_bound ∷ []);
      }
      ∷ record {
        name = "p95_latency";
        passed = less metrics.p95_latency_seconds t.max_p95_latency_seconds;
        detail = joined (
            "p95="
            ∷ fixed 1 metrics.p95_latency_seconds
            ∷ "s vs < "
            ∷ text t.max_p95_latency_seconds
            ∷ "s"
            ∷ []);
      }
      ∷ record {
        name = "arithmetic_fixtures";
        passed = metrics.arithmetic_fixtures_pass;
        detail = "independent fixtures";
      }
      ∷ record {
        name = "controls_intact";
        passed = metrics.controls_intact;
        detail = "governance controls";
      }
      ∷ record {
        name = "measured_benefit";
        passed = at_most t.min_benefit_multiple metrics.benefit_multiple;
        detail = joined (
            fixed 2 metrics.benefit_multiple ∷ "x vs >= " ∷ text t.min_benefit_multiple ∷ "x" ∷ []);
      }
      ∷ record {
        name = "continuing_pilots";
        passed = leb_ℤ t.min_continuing_pilots metrics.continuing_pilots;
        detail = joined (
            text_of_int metrics.continuing_pilots
            ∷ " pilots vs >= "
            ∷ text_of_int t.min_continuing_pilots
            ∷ []);
      }
      ∷ []

  -- `lower`: with no case there is nothing to bound.
  abbrev pub precision_lower : ReleaseThresholds Float → ReleaseMetrics Float → Result Float
  precision_lower t metrics =
      if ltb_ℤ (pos 0) metrics.precision_cases
      then clopper_pearson_lower floats metrics.precision_successes metrics.precision_cases
          t.confidence
      else ok (zero_float floats)

  abbrev pub release_verdict :
      ReleaseThresholds Float → ReleaseMetrics Float → Float → ReleaseVerdict Float
  release_verdict t metrics lower =
      let checks = release_checks t metrics lower in
      record { passed = all (λ c. c.passed) checks; checks = checks; precision_lower_bound = lower }

  unfoldable pub evaluate_release :
      ReleaseMetrics Float → Option (ReleaseThresholds Float) → Result (ReleaseVerdict Float)
  evaluate_release metrics thresholds = do
    let t = thresholds_or_default thresholds
    lower ← precision_lower t metrics
    ok (release_verdict t metrics lower)

  abbrev pub evaluate_sealed :
      SealedManifest
      → ReleaseMetrics Float
      → Option (ReleaseThresholds Float)
      → Result (ReleaseVerdict Float)
  unfolding evaluate_release
  evaluate_sealed manifest metrics thresholds = evaluate_release metrics thresholds
