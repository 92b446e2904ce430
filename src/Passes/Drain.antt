-- ===== src/Passes/Drain.antt =====
-- `run_reconciliation_pass` of packages/pipeline/eastmed_pipeline/reconciliation_dispatch.py.
use mari_time_system.Prelude.{
  ℕ, zero, suc, ◌+◌, String, List, [], ◌∷◌, true, false, Result, ok, ◌>>=◌,
}
use mari_time_system.Passes.State.{
  World, PassArguments, Services, StepKeys, RunKeys, DispatchStep, PassSummary, is_idle, halts,
}
use mari_time_system.Passes.Schedule.{enqueue_ready_cases}
use mari_time_system.Passes.Execute.{execute_next}

module _ (services : Services) (arguments : PassArguments) where
  -- `for _ in range(max_steps)`, each round with the keys of its number
  unfoldable pub drain : (ℕ → StepKeys) → ℕ → World → Result (List DispatchStep × World)
  unfolding execute_next
  drain keys zero w = ok ([], w)
  drain keys (suc n) w = do
    next ← execute_next services arguments (keys n) w
    elim (is_idle next.0) [
      | true ↦ ok ([], next.1)
      | false ↦ elim (halts next.0) [
        | true ↦ ok (next.0 ∷ [], next.1)
        | false ↦ drain keys n next.1 >>= λ rest. ok (next.0 ∷ rest.0, rest.1)
      ]
    ]

  unfoldable pub run_reconciliation_pass :
      (ℕ → RunKeys) → (ℕ → StepKeys) → ℕ → String → ℕ → World → Result (PassSummary × World)
  unfolding enqueue_ready_cases drain
  run_reconciliation_pass run_keys keys budget_units version max_steps w = do
    scheduled ←
        enqueue_ready_cases arguments.account_id arguments.system_fingerprint budget_units version
          arguments.moment run_keys w
    drained ← drain keys max_steps scheduled.1
    ok (record { scheduled = scheduled.0; steps = drained.0 }, drained.1)

-- An instant and an interval in microseconds.
abbrev pub minute : ℕ
minute = 60000000

unfoldable pub next_pass_due_at : ℕ → ℕ → ℕ
next_pass_due_at now interval = now + interval
