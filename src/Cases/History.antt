-- ===== src/Cases/History.antt =====
-- The versions of a case and its one verdict, for
-- packages/pipeline/eastmed_pipeline/reconciliation_case.py.
use mari_time_system.Prelude.{
  ℕ, ◌+◌, ◌<◌, ◌≤◌, ◌≡◌, refl, sym, subst, inl, inr, eq_refl, Option, none, some, List, [], ◌∷◌,
  ◌++◌, Bool, true, false, not, ◌&&◌, ◌==◌, ==-refl, ltb, is_some, select, find, All, get_row,
  Result, ok, err, ◌>>=◌, integrity_error, Bool-cases, arith, ok-injective, raise_if, ◌>>◌,
  runtime_error,
}
use mari_time_system.Publication.State.{Case, Verdict, Portal}
use mari_time_system.Verification.Values.{VerificationVerdict}
use mari_time_system.Cases.Rows.{Observation, ExpectedJob, Sources, Reading}
use mari_time_system.Cases.Build.{
  ResultJson, CaseResult, Hashes, GroupResult, is_nil, reconcile_all, case_result,
  compute_case_result,
}
use mari_time_system.Cases.Groups.{actuals_of}
use mari_time_system.Cases.Commit.{
  Version, is_version_of, latest_of, next_revision, id_of, prior_version, Committed, new_version,
  commit_case_version, new_verdict, insert_verdict, verdict_for, verify_case, record_new,
  record_verification_verdict, read_back,
}

latest_of-some :
    (b : Version) (vs : List Version)
    → (m : Version) × (latest_of (some b) vs ≡ some m)
      × (b.revision ≤ m.revision)
      × All (λ v. v.revision ≤ m.revision) vs
latest_of-some b [] = (b, refl, omega arith, tt)
latest_of-some b (v ∷ vs) = elim (Bool-cases (ltb b.revision v.revision)) [
  | inl newer ↦
      let (m, e, up, rest) = latest_of-some v vs in (m, rw newer e, ground (arith, up), (up, rest))
  | inr older ↦
      let (m, e, up, rest) = latest_of-some b vs in (m, rw older e, up, (ground (arith, up), rest))
]

-- The next revision is above each of the versions.
next_revision_above :
    (vs : List Version) → All (λ v. v.revision < next_revision (latest_of none vs)) vs
next_revision_above [] = tt
next_revision_above (v ∷ vs) =
    let (m, e, up, rest) = latest_of-some v vs in
    subst (λ o. All (λ w. w.revision < next_revision o) (v ∷ vs)) (sym e)
      (omega arith, all_below m vs rest)
  where
    all_below :
        (m : Version) (ws : List Version)
        → All (λ w. w.revision ≤ m.revision) ws
        → All (λ w. w.revision < m.revision + 1) ws
    all_below m [] h = tt
    all_below m (w ∷ ws) h = (omega (arith, h.0), all_below m ws h.1)

of_select :
    {A : Type 0} (P : A → Type 0) (q : A → Bool) (xs : List A)
    → All P (select q xs)
    → All (λ x. q x ≡ true → P x) xs
of_select P q [] h = tt
of_select P q (x ∷ xs) h = elim (Bool-cases (q x)) [
  | inl pass ↦ let kept = rw pass at h in ((λ _. kept.0), of_select P q xs kept.1)
  | inr fail ↦ ((λ pass. absurd (impossible fail pass)), of_select P q xs (rw fail at h))
]
  where
    impossible : {b : Bool} → b ≡ false → b ≡ true → ⊥
    impossible f t = cc

find_new :
    (account : ℕ) (version : Version) (versions : List Version)
    → version.account_id ≡ account
    → get_row (λ v. v.id) version.id versions ≡ none
    → find (λ v. v.account_id == account && v.id == version.id) (versions ++ (version ∷ []))
      ≡ some version
find_new account version [] own free = rw (own, ==-refl account, ==-refl version.id) refl
find_new account version (v ∷ vs) own free = elim (Bool-cases (v.id == version.id)) [
  | inl taken ↦ absurd (impossible (rw taken at free))
  | inr other ↦ rw other (
      rw (and_false (v.account_id == account)) (find_new account version vs own (rw other at free)))
]
  where
    impossible : some v ≡ none → ⊥
    impossible k = cc

    and_false : (b : Bool) → (b && false) ≡ false
    and_false true = refl
    and_false false = refl

-- What a commit leaves: the version is appended, it is the newest of its case, it supersedes the one
-- before, and its stored content reads back under the stored hash.
pub record Stored (hashes : Hashes) (account : ℕ) (c : Case) (result : CaseResult)
    (before after : Portal ResultJson) (done : Committed) : Type 0 where
  pub appended : after.versions ≡ before.versions ++ (done.version ∷ [])
  pub of_case : is_version_of account c.id done.version ≡ true
  pub newest :
      All
        (λ v. is_version_of account c.id v ≡ true → v.revision < done.version.revision)
        before.versions
  pub supersedes : done.supersedes_version_id ≡ id_of (prior_version account c.id before.versions)
  pub content : done.version.result ≡ result.result_json
  pub reads_back : read_back hashes account done.version.id after ≡ true

hash_of_result :
    (reading : Reading) (sources : Sources) (account : ℕ) (job : ExpectedJob) (hashes : Hashes)
    {result : CaseResult}
    → compute_case_result reading sources account job hashes ≡ ok result
    → hashes.content result.result_json ≡ result.content_hash
unfolding compute_case_result
hash_of_result reading sources account job hashes {result} e =
    by_parts (not (job.account_id == account)) (reconcile_all reading sources account job actuals) e
  where
    actuals : List Observation
    actuals = actuals_of sources account job

    by_parts :
        (foreign : Bool) (m : Result (List GroupResult))
        → (raise_if foreign runtime_error
            >> (m >>= λ gs.
                ok (case_result reading sources account job hashes (is_nil actuals) gs)))
          ≡ ok result
        → hashes.content result.result_json ≡ result.content_hash
    by_parts true m k = absurd (ground arith)
    by_parts false (err x) k = absurd (ground arith)
    by_parts false (ok gs) k =
        subst (λ r. hashes.content r.result_json ≡ r.content_hash) (ok-injective k) refl

module _ (hashes : Hashes) (id account : ℕ) (c : Case) (result : CaseResult)
    (s : Portal ResultJson) where
  stored :
      (free : get_row (λ v. v.id) id s.versions ≡ none)
      → hashes.content result.result_json ≡ result.content_hash
      → let prior = prior_version account c.id s.versions in
        let version = new_version id account c result prior in
        Stored hashes account c result s
          (record s { versions = s.versions ++ (version ∷ []) })
          (record { version = version; supersedes_version_id = id_of prior })
  unfolding read_back
  stored free hashed = record {
    appended = refl;
    of_case = rw (==-refl account, ==-refl c.id) refl;
    newest =
        of_select (λ v. v.revision < next_revision (prior_version account c.id s.versions))
          (is_version_of account c.id) s.versions
          (next_revision_above (select (is_version_of account c.id) s.versions));
    supersedes = refl;
    content = refl;
    reads_back =
        rw
          (find_new account
            (new_version id account c result (prior_version account c.id s.versions)) s.versions
            refl free)
          (rw hashed (eq_refl result.content_hash));
  }

  -- Committing a computed result under a free key succeeds, and stores it as the newest version of
  -- its case, which supersedes the one before and reads back under its hash.
  pub commit_case_version-Stored :
      (reading : Reading) (sources : Sources) (job : ExpectedJob)
      → compute_case_result reading sources account job hashes ≡ ok result
      → get_row (λ v. v.id) id s.versions ≡ none
      → (done : Committed) × (s' : Portal ResultJson) × (commit_case_version id account c result s
          ≡ ok (done, s'))
        × Stored hashes account c result s s' done
  unfolding commit_case_version
  commit_case_version-Stored reading sources job computed free =
      (_, _, rw free refl, stored free (hash_of_result reading sources account job hashes computed))

find_appended :
    (account : ℕ) (row : Verdict) (rows : List Verdict)
    → row.account_id ≡ account
    → verdict_for account row.case_version_id rows ≡ none
    → verdict_for account row.case_version_id (rows ++ (row ∷ [])) ≡ some row
find_appended account row [] own absent =
    rw (own, ==-refl account, ==-refl row.case_version_id) refl
find_appended account row (r ∷ rs) own absent =
    elim (Bool-cases (r.account_id == account && r.case_version_id == row.case_version_id)) [
      | inl same ↦ absurd (impossible (rw same at absent))
      | inr other ↦ rw other (find_appended account row rs own (rw other at absent))
    ]
  where
    impossible : some r ≡ none → ⊥
    impossible k = cc

-- An inserted verdict is found again.
inserted_row :
    {account version_id : ℕ} (new : Verdict)
    → new.account_id ≡ account
    → new.case_version_id ≡ version_id
    → (s : Portal ResultJson) {row : Verdict} {s' : Portal ResultJson}
    → verdict_for account version_id s.verdicts ≡ none
    → insert_verdict new s ≡ ok (row, s')
    → verdict_for account version_id s'.verdicts ≡ some row
inserted_row {account} {version_id} new own same s {row} {s'} absent e =
    elim (Bool-cases (is_some (get_row (λ v. v.id) new.id s.verdicts))) [
      | inl taken ↦ absurd (impossible (rw taken at e))
      | inr free ↦
          subst
            (λ (pair : Verdict × Portal ResultJson).
              verdict_for account version_id pair.1.verdicts ≡ some pair.0)
            (ok-injective (rw free at e))
            (subst (λ k. verdict_for account k (s.verdicts ++ (new ∷ [])) ≡ some new) same
              (find_appended account new s.verdicts own
                (subst (λ k. verdict_for account k s.verdicts ≡ none) (sym same) absent)))
    ]
  where
    impossible :
        ◌≡◌ {A = Result (Verdict × Portal ResultJson)} (err integrity_error) (ok (row, s')) → ⊥
    impossible k = cc

module _ (reading : Reading) (sources : Sources) (account : ℕ) (job : ExpectedJob)
    (version : Version) where
  -- The verdict that is returned is stored for its version.
  pub recorded_row :
      (id : ℕ) (result : CaseResult) (s : Portal ResultJson) {row : Verdict}
      {s' : Portal ResultJson}
      → record_verification_verdict reading sources account job id version result s ≡ ok (row, s')
      → verdict_for account version.id s'.verdicts ≡ some row
  unfolding record_verification_verdict
  recorded_row id result s {row} {s'} e =
      found_after (verdict_for account version.id s.verdicts) refl e
    where
      found_after :
          (m : Option Verdict)
          → verdict_for account version.id s.verdicts ≡ m
          → record_new reading sources account job id version result s m ≡ ok (row, s')
          → verdict_for account version.id s'.verdicts ≡ some row
      found_after (some old) q k =
          subst
            (λ (pair : Verdict × Portal ResultJson).
              verdict_for account version.id pair.1.verdicts ≡ some pair.0)
            (ok-injective k) q
      found_after none q k = by_verdict (verify_case reading sources account job result) k
        where
          by_verdict :
              (m : Result VerificationVerdict)
              → (m >>= λ verdict.
                  insert_verdict (new_verdict id account job version result verdict) s)
                ≡ ok (row, s')
              → verdict_for account version.id s'.verdicts ≡ some row
          by_verdict (err x) l = absurd (ground arith)
          by_verdict (ok verdict) l =
              inserted_row (new_verdict id account job version result verdict) refl refl s q l

  -- A verdict is recorded once for each version: any later call returns the row that the first call
  -- returned, whatever result and key it comes with, and writes nothing.
  pub record_verification_verdict-once :
      (id id' : ℕ) (result result' : CaseResult) (s : Portal ResultJson) {row : Verdict}
      {s' : Portal ResultJson}
      → record_verification_verdict reading sources account job id version result s ≡ ok (row, s')
      → record_verification_verdict reading sources account job id' version result' s'
        ≡ ok (row, s')
  unfolding record_verification_verdict
  record_verification_verdict-once id id' result result' s {row} {s'} e =
      rw (recorded_row id result s {row = row} {s' = s'} e) refl
