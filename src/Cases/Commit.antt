-- ===== src/Cases/Commit.antt =====
-- `commit_case_version`, `verify_case`, `record_verification_verdict` and `read_back` of
-- packages/pipeline/eastmed_pipeline/reconciliation_case.py.
use mari_time_system.Prelude.{
  ℕ, ◌+◌, String, str_eq, Option, none, some, List, [], ◌∷◌, ◌++◌, Bool, false, ◌&&◌, ◌==◌, ltb,
  if◌then◌else◌, is_some, select, find, get_row, Result, ok, err, ◌>>=◌, integrity_error,
}
use mari_time_system.Publication.State.{Case, CaseVersion, Verdict, Portal}
use mari_time_system.Verification.Verifier.{verify_case_result, finalize_case_status}
use mari_time_system.Verification.Values.{VerificationVerdict}
use mari_time_system.Cases.Rows.{ExpectedJob, Sources, Reading}
use mari_time_system.Cases.Build.{ResultJson, CaseResult, Hashes, items_of, build_evidence}

abbrev pub Version : Type 0
Version = CaseVersion ResultJson

abbrev pub is_version_of : ℕ → ℕ → Version → Bool
is_version_of account case_id v = v.account_id == account && v.case_id == case_id

-- `order_by(revision.desc()).first()`, from the best so far on.
abbrev pub latest_of : Option Version → List Version → Option Version
latest_of best [] = best
latest_of none (v ∷ vs) = latest_of (some v) vs
latest_of (some b) (v ∷ vs) = latest_of (some (if ltb b.revision v.revision then v else b)) vs

abbrev pub next_revision : Option Version → ℕ
next_revision none = 1
next_revision (some prior) = prior.revision + 1

abbrev pub id_of : Option Version → Option ℕ
id_of none = none
id_of (some prior) = some prior.id

-- The version that is committed, and the one that it supersedes.
pub record Committed : Type 0 where
  pub version : Version
  pub supersedes_version_id : Option ℕ

abbrev pub prior_version : ℕ → ℕ → List Version → Option Version
prior_version account case_id versions =
    latest_of none (select (is_version_of account case_id) versions)

abbrev pub new_version : ℕ → ℕ → Case → CaseResult → Option Version → Version
new_version id account c result prior = record {
  id = id;
  account_id = account;
  case_id = c.id;
  revision = next_revision prior;
  evidence_hash = result.evidence_hash;
  content_hash = result.content_hash;
  result = result.result_json;
}

unfoldable pub commit_case_version :
    ℕ → ℕ → Case → CaseResult → Portal ResultJson → Result (Committed × Portal ResultJson)
commit_case_version id account c result s =
    let prior = prior_version account c.id s.versions in
    let version : Version = new_version id account c result prior in
    if is_some (get_row (λ v. v.id) id s.versions)
    then err integrity_error
    else ok (
      record { version = version; supersedes_version_id = id_of prior },
      record s { versions = s.versions ++ (version ∷ []) },
    )

abbrev pub status_text : VerificationVerdict → String
status_text verdict = if verdict.verified then "verified" else "unverifiable"

abbrev pub new_verdict : ℕ → ℕ → ExpectedJob → Version → CaseResult → VerificationVerdict → Verdict
new_verdict id account job version result verdict = record {
  id = id;
  account_id = account;
  case_version_id = version.id;
  expected_job_id = job.id;
  case_revision = version.revision;
  content_hash = version.content_hash;
  evidence_hash = version.evidence_hash;
  calculator_version = result.result_json.calculator_version;
  status = status_text verdict;
  checked = verdict.checked;
  has_unresolved = result.unresolved;
  completes = finalize_case_status verdict result.unresolved;
}

abbrev pub verdict_for : ℕ → ℕ → List Verdict → Option Verdict
verdict_for account version_id =
    find (λ v. v.account_id == account && v.case_version_id == version_id)

abbrev pub insert_verdict : Verdict → Portal ResultJson → Result (Verdict × Portal ResultJson)
insert_verdict row portal =
    if is_some (get_row (λ v. v.id) row.id portal.verdicts)
    then err integrity_error
    else ok (row, record portal { verdicts = portal.verdicts ++ (row ∷ []) })

module _ (reading : Reading) (s : Sources) (account : ℕ) (job : ExpectedJob) where
  unfoldable pub verify_case : CaseResult → Result VerificationVerdict
  verify_case result =
      verify_case_result (some (items_of result.result_json.variances))
        (build_evidence reading s account job)

  -- A verdict that is there is returned; a new one is inserted.
  abbrev pub record_new :
      ℕ
      → Version
      → CaseResult
      → Portal ResultJson
      → Option Verdict
      → Result (Verdict × Portal ResultJson)
  record_new id version result portal (some existing) = ok (existing, portal)
  record_new id version result portal none = verify_case result >>= λ verdict.
      insert_verdict (new_verdict id account job version result verdict) portal

  unfoldable pub record_verification_verdict :
      ℕ → Version → CaseResult → Portal ResultJson → Result (Verdict × Portal ResultJson)
  record_verification_verdict id version result portal =
      record_new id version result portal (verdict_for account version.id portal.verdicts)

abbrev pub hash_matches : Hashes → Option Version → Bool
hash_matches hashes none = false
hash_matches hashes (some version) = str_eq (hashes.content version.result) version.content_hash

unfoldable pub read_back : Hashes → ℕ → ℕ → Portal ResultJson → Bool
read_back hashes account version_id s =
    hash_matches hashes (find (λ v. v.account_id == account && v.id == version_id) s.versions)
