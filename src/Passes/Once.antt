-- ===== src/Passes/Once.antt =====
-- That `enqueue_ready_cases` of packages/pipeline/eastmed_pipeline/reconciliation_dispatch.py opens one
-- workflow for a case and no second one.
use mari_time_system.Prelude.{
  ℕ, ◌+◌, ◌≤◌, ◌≡◌, refl, subst, sym, String, Option, none, some, List, [], ◌∷◌, ◌++◌, Bool, true,
  false, ◌&&◌, ◌||◌, arith, All, All-imp, any, count, Bool-cases, Option-cases, inl, inr, ◌==◌,
  ==→≡, get_row, save_row-All, Returns, Returns-bind, Returns-ok, if◌then◌else◌,
}
use mari_time_system.Runtime.State.{Run, Store}
use mari_time_system.Publication.State.{AutomationStatus, Case, Portal}
use mari_time_system.Publication.Lookups.{set_case_status}
use mari_time_system.Cases.Build.{ResultJson}
use mari_time_system.Passes.State.{World, RunKeys}
use mari_time_system.Passes.Schedule.{
  has_run, start_case_workflow, mark_started, start_cases, is_ready_case,
}
use mari_time_system.Passes.Scheduled.{
  has_run-append, has_run-new, Started, start_case_workflow-Started,
}

abbrev is_run_of : ℕ → ℕ → Run → Bool
is_run_of account case_id r = r.account_id == account && r.case_id == case_id

-- No case of the tenant has two runs.
abbrev pub OneRunEach : ℕ → List Run → Type 0
OneRunEach account runs = (case_id : ℕ) → count (is_run_of account case_id) runs ≤ 1

no_run-count :
    (account case_id : ℕ) (runs : List Run)
    → has_run account case_id runs ≡ false
    → count (is_run_of account case_id) runs ≡ 0
unfolding has_run
no_run-count account case_id [] h = refl
no_run-count account case_id (r ∷ runs) h = ground (arith, no_run-count account case_id runs)

count-append :
    (p : Run → Bool) (runs : List Run) (r : Run)
    → count p (runs ++ r ∷ []) ≡ count p runs + (if p r then 1 else 0)
count-append p [] r = omega arith
count-append p (x ∷ runs) r = omega (arith, count-append p runs r)

added_one_run :
    (account : ℕ) (runs : List Run) (r : Run)
    → has_run account r.case_id runs ≡ false
    → OneRunEach account runs
    → OneRunEach account (runs ++ r ∷ [])
added_one_run account runs r new one case_id = elim (Bool-cases (r.case_id == case_id)) [
  | inl this ↦
      let none_yet =
        no_run-count account case_id runs
          (subst (λ k. has_run account k runs ≡ false) (==→≡ r.case_id case_id this) new) in
      ground (arith, count-append (is_run_of account case_id) runs r, none_yet)
  | inr other ↦ ground (arith, count-append (is_run_of account case_id) runs r, one case_id)
]

set_case_status-All :
    (P : Case → Type 0) (case_id : ℕ) (status : AutomationStatus) (s : Portal ResultJson)
    → ((c : Case) → P (record c { automation_status = status }))
    → All P s.cases
    → All P (set_case_status case_id status s).cases
unfolding set_case_status
set_case_status-All P case_id status s new h =
    elim (Option-cases (get_row (λ c. c.id) case_id s.cases)) [
      | inl missing ↦ rw (missing, All) h
      | inr (c, found) ↦
          rw (found, All)
            (save_row-All (λ x. x.id) P (record c { automation_status = status }) s.cases (new c) h)
    ]

module _ (account : ℕ) (fingerprint : String) (budget_units : ℕ) (version : String)
    (moment : ℕ) where
  run_kept :
      (c : Case) (s : Store) (started : Option Run × Store)
      → Started account fingerprint budget_units version moment c s started
      → (case_id : ℕ) → has_run account case_id s.runs ≡ true
      → has_run account case_id started.1.runs ≡ true
  run_kept c s started st case_id h = elim (Bool-cases (has_run account c.id s.runs)) [
    | inl there ↦ rw (st.kept there).1 h
    | inr new ↦
        let (r, is, appended, own, at) = st.opened new in
        rw appended (has_run-append account case_id s.runs r h)
  ]

  run_present :
      (c : Case) (s : Store) (started : Option Run × Store)
      → Started account fingerprint budget_units version moment c s started
      → has_run account c.id started.1.runs ≡ true
  run_present c s started st = elim (Bool-cases (has_run account c.id s.runs)) [
    | inl there ↦ rw (st.kept there).1 there
    | inr new ↦
        let (r, is, appended, own, at) = st.opened new in
        rw appended (has_run-new account c.id s.runs r own at)
  ]

  one_run_after :
      (c : Case) (s : Store) (started : Option Run × Store)
      → Started account fingerprint budget_units version moment c s started
      → OneRunEach account s.runs
      → OneRunEach account started.1.runs
  one_run_after c s started st one = elim (Bool-cases (has_run account c.id s.runs)) [
    | inl there ↦ rw (st.kept there).1 one
    | inr new ↦
        let (r, is, appended, own, at) = st.opened new in
        rw appended (
          added_one_run account s.runs r
            (subst (λ k. has_run account k s.runs ≡ false) (sym at) new) one)
  ]

  -- Every validated case has a run, or is among the cases to come.
  abbrev pub Pending : List Case → World → Type 0
  Pending cs w =
      All
        (λ d.
          is_ready_case account d ≡ true
          → (has_run account d.id w.runtime.runs || any (λ c. c.id == d.id) cs) ≡ true)
        w.portal.cases

  mark_started-Pending :
      (c : Case) (cs : List Case) (w : World) (started : Option Run × Store)
      → Started account fingerprint budget_units version moment c w.runtime started
      → Pending (c ∷ cs) w
      → Pending cs (mark_started account fingerprint budget_units version moment c started w)
  mark_started-Pending c cs w (opened, s) st h = by_opened opened st
    where
      later :
          (opened : Option Run)
          → Started account fingerprint budget_units version moment c w.runtime (opened, s)
          → All
              (λ d.
                is_ready_case account d ≡ true
                → (has_run account d.id s.runs || any (λ x. x.id == d.id) cs) ≡ true)
              w.portal.cases
      later opened st =
          All-imp w.portal.cases
            (λ d h ready. elim (Bool-cases (c.id == d.id)) [
              | inl this ↦
                  rw
                    (subst (λ k. has_run account k s.runs ≡ true) (==→≡ c.id d.id this)
                      (run_present c w.runtime (opened, s) st))
                    refl
              | inr other ↦ elim (Bool-cases (has_run account d.id w.runtime.runs)) [
                | inl there ↦ rw (run_kept c w.runtime (opened, s) st d.id there) refl
                | inr new ↦ ground (arith, h ready)
              ]
            ])
            h

      by_opened :
          (opened : Option Run)
          → Started account fingerprint budget_units version moment c w.runtime (opened, s)
          → Pending cs
              (mark_started account fingerprint budget_units version moment c (opened, s) w)
      by_opened none st = later none st
      by_opened (some r) st =
          set_case_status-All _ c.id AutomationStatus.received w.portal
            (λ d ready. absurd (ground arith)) (later (some r) st)

  -- Every validated case has a run, and no case has two.
  abbrev pub Scheduled : ℕ × World → Type 0
  Scheduled done = Pending [] done.1 × OneRunEach account done.1.runtime.runs

  pub start_cases-Scheduled :
      (keys : ℕ → RunKeys) (cs : List Case) (w : World)
      → Pending cs w
      → OneRunEach account w.runtime.runs
      → Returns Scheduled (start_cases account fingerprint budget_units version moment keys cs w)
  unfolding start_cases
  start_cases-Scheduled keys [] w h one = (h, one)
  start_cases-Scheduled keys (c ∷ cs) w h one =
      Returns-bind Scheduled
        (start_case_workflow account fingerprint budget_units version moment (keys c.id) c
          w.runtime)
        _
        (λ started e.
          let st =
            Returns-ok (Started account fingerprint budget_units version moment c w.runtime) _
              (start_case_workflow-Started account fingerprint budget_units version moment
                (keys c.id) c w.runtime)
              e in
          let w' = mark_started account fingerprint budget_units version moment c started w in
          Returns-bind Scheduled
            (start_cases account fingerprint budget_units version moment keys cs w') _
            (λ rest f.
              Returns-ok Scheduled _
                (start_cases-Scheduled keys cs w' (mark_started-Pending c cs w started st h)
                  (marked_one_run started.0 started.1 st))
                f))
    where
      marked_one_run :
          (opened : Option Run) (s : Store)
          → Started account fingerprint budget_units version moment c w.runtime (opened, s)
          → OneRunEach account
              (mark_started account fingerprint budget_units version moment c
                (opened, s)
                w).runtime.runs
      marked_one_run none s st = one_run_after c w.runtime (none, s) st one
      marked_one_run (some r) s st = one_run_after c w.runtime (some r, s) st one
