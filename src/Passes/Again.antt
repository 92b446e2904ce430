-- ===== src/Passes/Again.antt =====
-- `enqueue_ready_cases` of packages/pipeline/eastmed_pipeline/reconciliation_dispatch.py run again.
use mari_time_system.Prelude.{
  ℕ, ◌≡◌, refl, String, List, [], ◌∷◌, true, ◌||◌, arith, All, All-imp, any, select, Bool-cases,
  inl, inr, ◌==◌, ==-refl, ok, Returns-ok,
}
use mari_time_system.Publication.State.{Case}
use mari_time_system.Passes.State.{World, RunKeys}
use mari_time_system.Passes.Schedule.{
  has_run, start_case_workflow, start_cases, is_ready_case, enqueue_ready_cases,
}
use mari_time_system.Passes.Once.{OneRunEach, Scheduled, start_cases-Scheduled}

select-any :
    (account : ℕ) (d : Case) (cs : List Case)
    → is_ready_case account d ≡ true
    → any (λ c. c.id == d.id) (select (is_ready_case account) (d ∷ cs)) ≡ true
select-any account d cs ready = rw (ready, ==-refl d.id) refl

-- What passes a test in the rest of a list passes in the list.
any-cons :
    (account : ℕ) (id : ℕ) (d : Case) (cs : List Case)
    → any (λ c. c.id == id) (select (is_ready_case account) cs) ≡ true
    → any (λ c. c.id == id) (select (is_ready_case account) (d ∷ cs)) ≡ true
any-cons account id d cs h = elim (Bool-cases (is_ready_case account d)) [
  | inl ready ↦ rw ready (ground (arith, h))
  | inr other ↦ rw other h
]

ready_listed :
    (account : ℕ) (cs : List Case)
    → All
        (λ d.
          is_ready_case account d ≡ true
          → any (λ c. c.id == d.id) (select (is_ready_case account) cs) ≡ true)
        cs
ready_listed account [] = tt
ready_listed account (d ∷ cs) = (
  select-any account d cs,
  All-imp cs (λ x h ready. any-cons account x.id d cs (h ready)) (ready_listed account cs),
)

module _ (account : ℕ) (fingerprint : String) (budget_units : ℕ) (version : String)
    (moment : ℕ) where
  all_running :
      (keys : ℕ → RunKeys) (cs : List Case) (w : World)
      → All (λ c. has_run account c.id w.runtime.runs ≡ true) cs
      → start_cases account fingerprint budget_units version moment keys cs w ≡ ok (0, w)
  unfolding start_cases start_case_workflow
  all_running keys [] w h = refl
  all_running keys (c ∷ cs) w h = rw h.0 (rw (all_running keys cs w h.1) refl)

  select_running :
      (w : World) (cs : List Case)
      → All
          (λ d.
            is_ready_case account d ≡ true
            → (has_run account d.id w.runtime.runs || any (λ (c : Case). c.id == d.id) []) ≡ true)
          cs
      → All (λ c. has_run account c.id w.runtime.runs ≡ true) (select (is_ready_case account) cs)
  select_running w [] h = tt
  select_running w (c ∷ cs) h = elim (Bool-cases (is_ready_case account c)) [
    | inl ready ↦ rw (ready, All) (ground (arith, h.0 ready), select_running w cs h.1)
    | inr other ↦ rw (other, All) (select_running w cs h.1)
  ]

-- If no case of the tenant has two runs and a scheduling returns, then none has two afterwards, and
-- scheduling again on the tables it left, under any keys, fingerprint, budget, version and moment,
-- counts 0 and leaves all tables as they were.
pub enqueue_ready_cases-once :
    (account : ℕ) (fingerprint fingerprint' : String) (budget_units budget_units' : ℕ)
    (version version' : String) (moment moment' : ℕ) (keys keys' : ℕ → RunKeys) (w w' : World)
    (scheduled : ℕ)
    → OneRunEach account w.runtime.runs
    → enqueue_ready_cases account fingerprint budget_units version moment keys w
      ≡ ok (scheduled, w')
    → OneRunEach account w'.runtime.runs
      × (enqueue_ready_cases account fingerprint' budget_units' version' moment' keys' w'
          ≡ ok (0, w'))
unfolding enqueue_ready_cases
enqueue_ready_cases-once account fingerprint fingerprint' budget_units budget_units' version
      version' moment moment' keys keys' w w' scheduled one e =
    let done : Scheduled account fingerprint budget_units version moment (scheduled, w') =
      Returns-ok (Scheduled account fingerprint budget_units version moment) _
        (start_cases-Scheduled account fingerprint budget_units version moment keys
          (select (is_ready_case account) w.portal.cases) w
          (All-imp w.portal.cases (λ d h ready. ground (arith, h ready))
            (ready_listed account w.portal.cases))
          one)
        e in
    (
      done.1,
      all_running account fingerprint' budget_units' version' moment' keys'
          (select (is_ready_case account) w'.portal.cases) w'
          (select_running account fingerprint budget_units version moment w' w'.portal.cases
            done.0),
    )
