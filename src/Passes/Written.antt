-- ===== src/Passes/Written.antt =====
-- Which tables the writes of the reconcile stage touch, for
-- packages/pipeline/eastmed_pipeline/reconciliation_dispatch.py.
use mari_time_system.Prelude.{
  ℕ, ◌≡◌, refl, ◌∙◌, none, List, [], ◌∷◌, length, inl, inr, arith, Option-cases, ok, save_row,
  Option, Returns, Returns-bind,
}
use mari_time_system.Runtime.State.{
  WorkflowStage, TaskStatus, Store, TaskClaim, StageOutcome, attempt_row,
}
use mari_time_system.Runtime.Tasks.{
  get_task_locked, commit_rows, enqueue_next, commit_found, commit_stage,
}
use mari_time_system.Publication.State.{AutomationStatus, BusinessStatus, Case, Verdict, Portal}
use mari_time_system.Publication.Lookups.{set_case_status}
use mari_time_system.Cases.Rows.{ExpectedJob}
use mari_time_system.Cases.Build.{ResultJson, CaseResult}
use mari_time_system.Cases.Commit.{Version, commit_case_version, record_verification_verdict}
use mari_time_system.Passes.State.{World, Services, PassArguments, StepKeys}
use mari_time_system.Passes.Stages.{set_business, version_for, commit_claim}

-- The tables of the publications are as they were.
pub record Unpublished (s s' : Portal ResultJson) : Type 0 where
  pub publications : s'.publications ≡ s.publications
  pub intents : s'.intents ≡ s.intents
  pub outbox : s'.outbox ≡ s.outbox

unchanged : (s : Portal ResultJson) → Unpublished s s
unchanged s = record { publications = refl; intents = refl; outbox = refl }

pub compose_writes :
    {s s' s'' : Portal ResultJson} → Unpublished s s' → Unpublished s' s'' → Unpublished s s''
compose_writes a b = record {
  publications = b.publications ∙ a.publications;
  intents = b.intents ∙ a.intents;
  outbox = b.outbox ∙ a.outbox;
}

-- A write of a case's status touches neither these tables nor the verdicts.
pub status_written :
    (case_id : ℕ) (status : AutomationStatus) (s : Portal ResultJson)
    → Unpublished s (set_case_status case_id status s)
      × ((set_case_status case_id status s).verdicts ≡ s.verdicts)
unfolding set_case_status
status_written case_id status s = ground arith

pub business_written :
    (c : Case) (status : BusinessStatus) (s : Portal ResultJson)
    → Unpublished s (set_business c status s) × ((set_business c status s).verdicts ≡ s.verdicts)
business_written c status s = ground arith

-- The versions stay, too.
pub versions_kept :
    (case_id : ℕ) (status : AutomationStatus) (c : Case) (business : BusinessStatus)
    (s : Portal ResultJson)
    → ((set_case_status case_id status s).versions ≡ s.versions)
      × ((set_business c business s).versions ≡ s.versions)
unfolding set_case_status
versions_kept case_id status c business s = ground arith

pub verdicts_kept :
    (id account : ℕ) (c : Case) (result : CaseResult) (s : Portal ResultJson)
    (done : Version × Portal ResultJson)
    → version_for id account c result s ≡ ok done
    → done.1.verdicts ≡ s.verdicts
unfolding version_for commit_case_version
verdicts_kept id account c result s done e = ground arith

pub version_written :
    (id account : ℕ) (c : Case) (result : CaseResult) (s : Portal ResultJson)
    (done : Version × Portal ResultJson)
    → version_for id account c result s ≡ ok done
    → Unpublished s done.1
unfolding version_for commit_case_version
version_written id account c result s done e = ground arith

pub verdict_written :
    (services : Services) (w : World) (account : ℕ) (job : ExpectedJob) (id : ℕ) (version : Version)
    (result : CaseResult) (s : Portal ResultJson) (done : Verdict × Portal ResultJson)
    → record_verification_verdict services.reading w.sources account job id version result s
      ≡ ok done
    → Unpublished s done.1
unfolding record_verification_verdict
verdict_written services w account job id version result s done e = ground arith

length-save_row :
    {R : Type 0} (key : R → ℕ) (r : R) (rows : List R) → length (save_row key r rows) ≡ length rows
length-save_row key r [] = refl
length-save_row key r (x ∷ rows) = ground (arith, length-save_row key r rows)

-- A commit without a next stage adds no task.
pub final_commit :
    (new_id account : ℕ) (claim : TaskClaim) (moment : ℕ) (s : Store) (done : StageOutcome × Store)
    → commit_stage new_id account claim moment none none none s ≡ ok done
    → length done.1.tasks ≡ length s.tasks
unfolding commit_stage commit_found enqueue_next commit_rows
final_commit new_id account claim moment s done e =
    elim (Option-cases (get_task_locked claim.task_id account s)) [
      | inl missing ↦ ground arith
      | inr (t, found) ↦ elim (Option-cases (attempt_row claim.attempt_id s.attempts)) [
        | inl missing ↦ ground arith
        | inr (a, there) ↦ ground (
          arith,
          length-save_row (λ x. x.id)
              (record t { status = TaskStatus.succeeded; lease_until = none }) s.tasks,
        )
      ]
    ]

-- A commit leaves the portal.
pub commit_portal :
    (services : Services) (arguments : PassArguments) (keys : StepKeys) (claim : TaskClaim)
    (next_stage : Option WorkflowStage) (w : World)
    → Returns
        (λ done. done.1.portal ≡ w.portal)
        (commit_claim services arguments keys claim next_stage w)
commit_portal services arguments keys claim next_stage w =
    Returns-bind (λ done. done.1.portal ≡ w.portal)
      (commit_stage keys.next_task_id arguments.account_id claim arguments.moment next_stage none
        none w.runtime)
      _ (λ stored e. refl)
