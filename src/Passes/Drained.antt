-- ===== src/Passes/Drained.antt =====
-- What `run_reconciliation_pass` of packages/pipeline/eastmed_pipeline/reconciliation_dispatch.py leaves.
use mari_time_system.Prelude.{
  ℕ, zero, suc, ◌≤◌, ◌<◌, ◌≡◌, refl, String, Option, none, some, List, [], ◌∷◌, true, false, arith,
  All, length, any, ok, Bool-cases, inl, inr, Result, Returns, Returns-bind, Returns-imp,
  Returns-ok,
}
use mari_time_system.Runtime.State.{Store, TaskClaim}
use mari_time_system.Runtime.Tasks.{default_lease, pick_due, claim_task}
use mari_time_system.Runtime.Invariant.{TableOk}
use mari_time_system.Passes.State.{
  is_fenced_step, World, PassArguments, Services, StepKeys, RunKeys, DispatchStep, PassSummary,
  is_idle, halts,
}
use mari_time_system.Passes.Execute.{run_claimed, execute_next}
use mari_time_system.Passes.Schedule.{enqueue_ready_cases}
use mari_time_system.Passes.Drain.{drain, run_reconciliation_pass}
use mari_time_system.Passes.Ended.{Ended, run_claimed-Ended}
use mari_time_system.Passes.Fresh.{claim_task-none, claim_task-Held}

-- The steps but the last.
abbrev pub all_but_last : List DispatchStep → List DispatchStep
all_but_last [] = []
all_but_last (step ∷ []) = []
all_but_last (step ∷ next ∷ rest) = step ∷ all_but_last (next ∷ rest)

module _ (services : Services) (arguments : PassArguments) where
  -- No task of the tenant is due, but for those that other transactions have locked.
  abbrev pub IsDrained : World → Type 0
  IsDrained w = pick_due arguments.account_id arguments.moment services.task_locked w.runtime ≡ none

  abbrev claim_next : StepKeys → World → Result (Option TaskClaim × Store)
  claim_next keys w =
      claim_task keys.attempt_id arguments.account_id arguments.moment default_lease
        services.task_locked w.runtime

  idle-IsDrained :
      (keys : StepKeys) (w : World)
      → Returns
          (λ next. is_idle next.0 ≡ true → IsDrained next.1)
          (execute_next services arguments keys w)
  unfolding execute_next run_claimed
  idle-IsDrained keys w =
      Returns-bind (λ next. is_idle next.0 ≡ true → IsDrained next.1) (claim_next keys w) _
        (λ claimed e. by_claim claimed.0 claimed.1 e)
    where
      by_claim :
          (c : Option TaskClaim) (s : Store)
          → claim_next keys w ≡ ok (c, s)
          → Returns
              (λ next. is_idle next.0 ≡ true → IsDrained next.1)
              (run_claimed services arguments keys c (record w { runtime = s }))
      by_claim none s e = λ idle.
          claim_task-none keys.attempt_id arguments.account_id arguments.moment default_lease
            services.task_locked w.runtime s e
      by_claim (some c) s e =
          Returns-imp (Ended services arguments keys c s)
            (λ next. is_idle next.0 ≡ true → IsDrained next.1)
            (run_claimed services arguments keys (some c) (record w { runtime = s }))
            (λ next ended idle. absurd (ground arith))
            (run_claimed-Ended services arguments keys c (record w { runtime = s }))

  unfenced :
      (keys : StepKeys) (w : World)
      → TableOk w.runtime.tasks
      → Returns (λ next. is_fenced_step next.0 ≡ false) (execute_next services arguments keys w)
  unfolding execute_next run_claimed
  unfenced keys w h =
      Returns-bind (λ next. is_fenced_step next.0 ≡ false) (claim_next keys w) _
        (λ claimed e. by_claim claimed.0 claimed.1 e)
    where
      by_claim :
          (c : Option TaskClaim) (s : Store)
          → claim_next keys w ≡ ok (c, s)
          → Returns
              (λ next. is_fenced_step next.0 ≡ false)
              (run_claimed services arguments keys c (record w { runtime = s }))
      by_claim none s e = refl
      by_claim (some c) s e =
          Returns-imp (Ended services arguments keys c s) (λ next. is_fenced_step next.0 ≡ false)
            (run_claimed services arguments keys (some c) (record w { runtime = s }))
            (λ next ended. ended.1 (
              claim_task-Held keys.attempt_id arguments.account_id arguments.moment default_lease
                services.task_locked w.runtime s c h e))
            (run_claimed-Ended services arguments keys c (record w { runtime = s }))

  -- Where the task table is well-formed, `execute_next` does not return FENCED: a step never finds
  -- the lease that it has just taken to be another's.
  pub execute_next-unfenced :
      (keys : StepKeys) (w w' : World) (step : DispatchStep)
      → TableOk w.runtime.tasks
      → execute_next services arguments keys w ≡ ok (step, w')
      → is_fenced_step step ≡ false
  execute_next-unfenced keys w w' step h e =
      Returns-ok (λ next. is_fenced_step next.0 ≡ false) (execute_next services arguments keys w)
        (unfenced keys w h) e

  -- At most so many steps, none of them idle; every step but the last is followed by another; and
  -- if there was room for more and no step was deferred or fenced, then nothing is due any more.
  pub record Drained (most : ℕ) (steps : List DispatchStep) (w : World) : Type 0 where
    pub bounded : length steps ≤ most
    pub busy : All (λ step. is_idle step ≡ false) steps
    pub went_on : All (λ step. halts step ≡ false) (all_but_last steps)
    pub settled : length steps < most → any halts steps ≡ false → IsDrained w

  abbrev Drains : ℕ → List DispatchStep × World → Type 0
  Drains n done = Drained n done.0 done.1

  add_step-Drained :
      (n : ℕ) (step : DispatchStep) (rest : List DispatchStep) (w : World)
      → is_idle step ≡ false
      → halts step ≡ false
      → Drained n rest w
      → Drained (suc n) (step ∷ rest) w
  add_step-Drained n step [] w busy goes d = record {
    bounded = omega arith;
    busy = (busy, tt);
    went_on = tt;
    settled = λ room open_. d.settled (omega (arith, room)) refl;
  }
  add_step-Drained n step (next ∷ rest) w busy goes d = record {
    bounded = omega (arith, d.bounded);
    busy = (busy, d.busy);
    went_on = (goes, d.went_on);
    settled = λ room open_. d.settled (omega (arith, room)) (ground (arith, open_));
  }

  drain-Drained :
      (keys : ℕ → StepKeys) (n : ℕ) (w : World)
      → Returns (Drains n) (drain services arguments keys n w)
  unfolding drain
  drain-Drained keys zero w = record {
    bounded = omega arith;
    busy = tt;
    went_on = tt;
    settled = λ room open_. absurd (omega (arith, room));
  }
  drain-Drained keys (suc n) w =
      Returns-bind (Drains (suc n)) (execute_next services arguments (keys n) w) _ (λ next e.
        elim (Bool-cases (is_idle next.0)) [
          | inl idle ↦
              rw (idle, Returns)
                (record {
                  bounded = omega arith;
                  busy = tt;
                  went_on = tt;
                  settled = λ room open_.
                      Returns-ok (λ next. is_idle next.0 ≡ true → IsDrained next.1)
                        (execute_next services arguments (keys n) w) (idle-IsDrained (keys n) w) e
                        idle;
                })
          | inr busy ↦ elim (Bool-cases (halts next.0)) [
            | inl stops ↦
                rw (busy, stops, Returns)
                  (record {
                    bounded = omega arith;
                    busy = (busy, tt);
                    went_on = tt;
                    settled = λ room open_. absurd (ground (arith, open_));
                  })
            | inr goes ↦
                rw (busy, goes, Returns)
                  (Returns-bind (Drains (suc n)) (drain services arguments keys n next.1) _
                    (λ rest f. add_step-Drained n next.0 rest.0 rest.1 busy goes (
                      Returns-ok (Drains n) (drain services arguments keys n next.1)
                        (drain-Drained keys n next.1) f)))
          ]
        ])

  -- A pass takes at most `max_steps` steps. None is idle, and all but the last were neither deferred
  -- nor fenced. If it took fewer and none was deferred or fenced, then no task of the tenant is due
  -- any more, but for those that other transactions have locked.
  pub run_reconciliation_pass-Drained :
      (run_keys : ℕ → RunKeys) (keys : ℕ → StepKeys) (budget_units : ℕ) (version : String)
      (max_steps : ℕ) (w w' : World) (summary : PassSummary)
      → run_reconciliation_pass services arguments run_keys keys budget_units version max_steps w
        ≡ ok (summary, w')
      → Drained max_steps summary.steps w'
  unfolding run_reconciliation_pass
  run_reconciliation_pass-Drained run_keys keys budget_units version max_steps w w' summary e =
      Returns-ok (λ done. Drained max_steps done.0.steps done.1)
        (run_reconciliation_pass services arguments run_keys keys budget_units version max_steps w)
        (Returns-bind (λ done. Drained max_steps done.0.steps done.1)
          (enqueue_ready_cases arguments.account_id arguments.system_fingerprint budget_units
            version arguments.moment run_keys w)
          _
          (λ scheduled f.
            Returns-bind (λ done. Drained max_steps done.0.steps done.1)
              (drain services arguments keys max_steps scheduled.1) _
              (λ drained g.
                Returns-ok (Drains max_steps) (drain services arguments keys max_steps scheduled.1)
                  (drain-Drained keys max_steps scheduled.1) g)))
        e
