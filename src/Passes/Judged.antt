-- ===== src/Passes/Judged.antt =====
-- Which version and which verdict a reconcile stage of
-- packages/pipeline/eastmed_pipeline/reconciliation_dispatch.py works with.
use mari_time_system.Prelude.{
  ℕ, ◌≡◌, refl, subst, Option, none, some, List, ◌&&◌, ◌==◌, ==→≡, str_eq, eq_iff, find, ◌⊎◌, inl,
  inr, Bool-cases, is_some, get_row, Result, ok, err, ok-injective, ◌>>=◌, arith, IsIn, find-IsIn,
  last-IsIn,
}
use mari_time_system.Publication.State.{Case, Verdict, Portal}
use mari_time_system.Verification.Values.{VerificationVerdict}
use mari_time_system.Verification.Verifier.{finalize_case_status}
use mari_time_system.Cases.Rows.{ExpectedJob, Sources, Reading}
use mari_time_system.Cases.Build.{ResultJson, CaseResult}
use mari_time_system.Cases.Commit.{
  Version, commit_case_version, verdict_for, new_version, prior_version, new_verdict,
  insert_verdict, record_new, verify_case, record_verification_verdict,
}
use mari_time_system.Passes.Stages.{committed_version, version_for}

-- A stored version of the case with this result's content.
pub record VersionOf (account : ℕ) (c : Case) (result : CaseResult) (versions : List Version)
    (v : Version) : Type 0 where
  pub stored : IsIn v versions
  pub own : v.account_id ≡ account
  pub of_case : v.case_id ≡ c.id
  pub same_content : v.content_hash ≡ result.content_hash

pub version_for-VersionOf :
    (id account : ℕ) (c : Case) (result : CaseResult) (s : Portal ResultJson)
    (done : Version × Portal ResultJson)
    → version_for id account c result s ≡ ok done
    → VersionOf account c result done.1.versions done.0
unfolding version_for commit_case_version
version_for-VersionOf id account c result s done e = by_row _ refl e
  where
    by_row :
        (o : Option Version)
        → find
            (λ v.
              v.account_id == account
              && v.case_id == c.id
              && str_eq v.content_hash result.content_hash)
            s.versions
          ≡ o
        → committed_version id account c result s o ≡ ok done
        → VersionOf account c result done.1.versions done.0
    by_row (some v) found q =
        let (inside, pass) =
          find-IsIn
            (λ v.
              v.account_id == account
              && v.case_id == c.id
              && str_eq v.content_hash result.content_hash)
            s.versions {a = v} found in
        subst (λ (d : Version × Portal ResultJson). VersionOf account c result d.1.versions d.0)
          (ok-injective q)
          (record {
            stored = inside;
            own = ==→≡ v.account_id account (ground arith);
            of_case = ==→≡ v.case_id c.id (ground arith);
            same_content = (eq_iff v.content_hash result.content_hash).0 (ground arith);
          })
    by_row none absent q = elim (Bool-cases (is_some (get_row (λ v. v.id) id s.versions))) [
      | inl taken ↦ absurd (ground arith)
      | inr fresh ↦
          subst (λ (d : Version × Portal ResultJson). VersionOf account c result d.1.versions d.0)
            (ok-injective (rw (fresh, commit_case_version) at q))
            (record {
              stored =
                  last-IsIn s.versions
                    (new_version id account c result (prior_version account c.id s.versions));
              own = refl;
              of_case = refl;
              same_content = refl;
            })
    ]

-- The verdict is one that was stored for the version, or that of the verifier on this result.
pub record Judges (reading : Reading) (sources : Sources) (account : ℕ) (job : ExpectedJob)
    (version : Version) (result : CaseResult) (before : List Verdict) (v : Verdict) : Type 0 where
  pub own : v.account_id ≡ account
  pub of_version : v.case_version_id ≡ version.id
  pub judged :
      IsIn v before
      ⊎ ((checked : VerificationVerdict) × (verify_case reading sources account job result
            ≡ ok checked)
          × (v.completes ≡ finalize_case_status checked result.unresolved)
          × (v.content_hash ≡ version.content_hash)
          × (v.expected_job_id ≡ job.id))

pub record_verification_verdict-Judges :
    (reading : Reading) (sources : Sources) (account : ℕ) (job : ExpectedJob) (id : ℕ)
    (version : Version) (result : CaseResult) (s : Portal ResultJson)
    (done : Verdict × Portal ResultJson)
    → record_verification_verdict reading sources account job id version result s ≡ ok done
    → Judges reading sources account job version result s.verdicts done.0
      × (done.1.versions ≡ s.versions)
unfolding record_verification_verdict
record_verification_verdict-Judges reading sources account job id version result s done e =
    by_row (verdict_for account version.id s.verdicts) refl e
  where
    by_row :
        (o : Option Verdict)
        → verdict_for account version.id s.verdicts ≡ o
        → record_new reading sources account job id version result s o ≡ ok done
        → Judges reading sources account job version result s.verdicts done.0
          × (done.1.versions ≡ s.versions)
    by_row (some old) found q =
        let (inside, pass) =
          find-IsIn (λ v. v.account_id == account && v.case_version_id == version.id) s.verdicts
            {a = old} found in
        subst
          (λ (d : Verdict × Portal ResultJson).
            Judges reading sources account job version result s.verdicts d.0
            × (d.1.versions ≡ s.versions))
          (ok-injective q)
          (
            record {
              own = ==→≡ old.account_id account (ground arith);
              of_version = ==→≡ old.case_version_id version.id (ground arith);
              judged = inl inside;
            },
            refl,
          )
    by_row none absent q = by_check (verify_case reading sources account job result) refl q
      where
        by_check :
            (m : Result VerificationVerdict)
            → verify_case reading sources account job result ≡ m
            → (m >>= λ checked.
                insert_verdict (new_verdict id account job version result checked) s)
              ≡ ok done
            → Judges reading sources account job version result s.verdicts done.0
              × (done.1.versions ≡ s.versions)
        by_check (err x) f l = absurd (cc)
        by_check (ok checked) f l =
            elim (Bool-cases (is_some (get_row (λ v. v.id) id s.verdicts))) [
              | inl taken ↦ absurd (ground arith)
              | inr fresh ↦
                  subst
                    (λ (d : Verdict × Portal ResultJson).
                      Judges reading sources account job version result s.verdicts d.0
                      × (d.1.versions ≡ s.versions))
                    (ok-injective (rw (fresh, insert_verdict) at l))
                    (
                      record {
                        own = refl;
                        of_version = refl;
                        judged = inr (checked, f, refl, refl, refl);
                      },
                      refl,
                    )
            ]
