-- ===== src/Passes/Settled.antt =====
-- What the publish stage of packages/pipeline/eastmed_pipeline/reconciliation_dispatch.py leaves of its
-- task once an intent is committed.
use mari_time_system.Prelude.{
  ℕ, ◌≡◌, refl, none, some, Bool, true, false, ◌⊎◌, inl, inr, Option-cases, ok, get_row, Returns,
  Returns-bind, Returns-ok,
}
use mari_time_system.Runtime.State.{CommitStatus, Task, TaskClaim, StageOutcome, task_row}
use mari_time_system.Runtime.Tasks.{commit_stage}
use mari_time_system.Publication.State.{Case, Intent, Portal, ProposeResult}
use mari_time_system.Publication.Propose.{private_portal, propose_publication}
use mari_time_system.Publication.Publish.{publish_case}
use mari_time_system.Cases.Build.{ResultJson}
use mari_time_system.Cases.Commit.{Version}
use mari_time_system.Passes.State.{
  World, PassArguments, Services, StepKeys, DispatchResult, DispatchStep, default_case_type,
}
use mari_time_system.Passes.Stages.{
  unconfirmed_text, commit_claim, confirm, published_step, publish_intent, after_proposal,
  run_publish_stage,
}
use mari_time_system.Passes.Held.{Held, succeeded, Commits, commit_stage-Commits}

module _ (services : Services) (arguments : PassArguments) (keys : StepKeys) (claim : TaskClaim)
    (c : Case) (version : Version) where
  -- The task is closed as succeeded, and the step is completed or waits for a confirmation.
  abbrev pub Settles : Task → DispatchStep × World → Type 0
  Settles t ended =
      (task_row claim.task_id ended.1.runtime.tasks ≡ some (succeeded t))
      × ((ended.0.result ≡ DispatchResult.completed)
          ⊎ ((ended.0.result ≡ DispatchResult.deferred) × (ended.0.detail ≡ some unconfirmed_text)))

  step_ends :
      (outcome : StageOutcome) (confirmed : Bool)
      → outcome.status ≡ CommitStatus.committed
      → let step = published_step services arguments keys c outcome confirmed in
        (step.result ≡ DispatchResult.completed)
        ⊎ ((step.result ≡ DispatchResult.deferred) × (step.detail ≡ some unconfirmed_text))
  step_ends outcome true e = rw e (inl refl)
  step_ends outcome false e = rw e (inr (refl, refl))

  publish_intent-Settles :
      (w : World) (i : Intent) (held : Held arguments.account_id claim w.runtime)
      → Returns (Settles held.task) (publish_intent services arguments keys claim c version w i)
  unfolding publish_intent
  publish_intent-Settles w i held =
      Returns-bind (Settles held.task)
        (publish_case services.platform keys.publication_id arguments.account_id i version.result
          arguments.moment false services.outbox_locked w.portal)
        _
        (λ published e.
          let confirmed = confirm services arguments keys i published.0 published.1 in
          Returns-bind (Settles held.task)
            (commit_claim services arguments keys claim none (record w { portal = confirmed.1 })) _
            (λ done f.
              let commits = committed (record w { portal = confirmed.1 }) held done f in
              (commits.1, step_ends done.0 confirmed.0 commits.0)))
    where
      committed :
          (w : World) (held : Held arguments.account_id claim w.runtime)
          (done : StageOutcome × World)
          → commit_claim services arguments keys claim none w ≡ ok done
          → (done.0.status ≡ CommitStatus.committed)
            × (task_row claim.task_id done.1.runtime.tasks ≡ some (succeeded held.task))
      committed w held done e =
          Returns-ok
            (λ done.
              (done.0.status ≡ CommitStatus.committed)
              × (task_row claim.task_id done.1.runtime.tasks ≡ some (succeeded held.task)))
            (commit_claim services arguments keys claim none w)
            (Returns-bind _
              (commit_stage keys.next_task_id arguments.account_id claim arguments.moment none none
                none w.runtime)
              _
              (λ stored g.
                Returns-ok (Commits claim held.task) _
                  (commit_stage-Commits keys.next_task_id arguments.account_id claim
                    arguments.moment none w.runtime held)
                  g))
            e

  -- If the claim holds its lease, the proposal is ready with an intent and the publish stage returns,
  -- then its task is closed as succeeded whatever became of the publication: the step is completed,
  -- or it is deferred for a confirmation.
  pub run_publish_stage-Settles :
      (w w' : World) (step : DispatchStep) (held : Held arguments.account_id claim w.runtime)
      (proposed : ProposeResult) (portal : Portal ResultJson) (intent_id : ℕ)
      → propose_publication services.platform
          (λ r. r.calculator_version)
          keys.proposal
          arguments.account_id
          c
          version
          arguments.principal_subject
          arguments.system_fingerprint
          private_portal
          default_case_type
          arguments.moment
          false
          w.portal
        ≡ ok (proposed, portal)
      → proposed.ready ≡ true
      → proposed.intent_id ≡ some intent_id
      → run_publish_stage services arguments keys claim c version w ≡ ok (step, w')
      → Settles held.task (step, w')
  unfolding run_publish_stage
  run_publish_stage-Settles w w' step held proposed portal intent_id e ready named q =
      Returns-ok (Settles held.task)
        (after_proposal services arguments keys claim c version proposed proposed.intent_id
          (record w { portal = portal }))
        (rw named settled) (rw e at q)
    where
      settled : Returns (Settles held.task) (
          after_proposal services arguments keys claim c version proposed
            (some intent_id)
            (record w { portal = portal }))
      settled = elim (Option-cases (get_row (λ i. i.id) intent_id portal.intents)) [
        | inl missing ↦ rw (ready, missing, Returns) tt
        | inr (i, found) ↦
            rw (ready, found, Returns)
              (publish_intent-Settles (record w { portal = portal }) i held)
      ]
