-- ===== src/Runtime/Examples.antt =====
-- Runs of the task queue of reconciliation_runtime.py on a small table.
use mari_time_system.Prelude.{
  ℕ, ◌+◌, ◌<◌, ◌≤◌, ◌≡◌, refl, none, some, List, [], ◌∷◌, Bool, true, false, count, pos, ok, arith,
}
use mari_time_system.Runtime.State.{
  WorkflowStage, TaskStatus, AttemptStatus, Run, Task, Attempt, Store, TaskClaim, task_row,
}
use mari_time_system.Runtime.Queue.{is_due, ranks, order_by_rank}
use mari_time_system.Runtime.Tasks.{
  get_task_locked, reap_task, pick_due, claim_task, holds_lease, commit_stage,
}
use mari_time_system.Runtime.Invariant.{TaskOk, TableOk}
use mari_time_system.Runtime.History.{IsStale, is_settled}
use mari_time_system.Runtime.Trace.{
  Op, step, run, run-TableOk, claimed, completed, reap, claim, beat, commit, other,
}
use mari_time_system.Runtime.Counting.{one_if}
use mari_time_system.Runtime.Counting.Claimed.{claims_task, claims_bounded}
use mari_time_system.Runtime.Counting.Committed.{completes, committed_at_most_once}
use mari_time_system.Runtime.Fencing.{IsFenced, stale_forever, settled_forever}
use mari_time_system.Runtime.Claims.{claims_fence}

abbrev voyage : Run
voyage = record {
  id = 1;
  account_id = 7;
  case_id = 3;
  workflow_version = "v1";
  system_fingerprint = "f1";
  budget_units = 20;
  deadline_at = 9000;
}

abbrev ready_task : ℕ → ℕ → Task
ready_task id priority = record {
  id = id;
  account_id = 7;
  run_id = 1;
  stage = WorkflowStage.reconcile;
  status = TaskStatus.ready;
  priority = pos priority;
  next_attempt_at = 0;
  lease_epoch = 0;
  lease_until = none;
  attempts = 0;
  max_attempts = 2;
  terminal_reason = none;
}

abbrev first_task : Task
first_task = ready_task 10 5

abbrev urgent_task : Task
urgent_task = ready_task 11 9

abbrev queue : Store
queue = record { runs = voyage ∷ []; tasks = first_task ∷ urgent_task ∷ []; attempts = [] }

abbrev none_locked : ℕ → Bool
none_locked id = false

ready-TaskOk : (id priority : ℕ) → TaskOk (ready_task id priority)
ready-TaskOk id priority = ground arith

queue-TableOk : TableOk queue.tasks
queue-TableOk = record {
  rows = (ready-TaskOk 10 5, (ready-TaskOk 11 9, tt));
  keyed = (refl, (refl, tt));
}

-- The urgent task is claimed first.
abbrev first_claim : TaskClaim
first_claim = record {
  task_id = 11;
  run_id = 1;
  attempt_id = 100;
  attempt_no = 1;
  lease_epoch = 1;
  stage = WorkflowStage.reconcile;
}

abbrev leased_row : ℕ → ℕ → Task
leased_row until number = record urgent_task {
  status = TaskStatus.leased;
  lease_until = some until;
  lease_epoch = number;
  attempts = number;
}

abbrev attempt_of : ℕ → ℕ → ℕ → Attempt
attempt_of id number until = record {
  id = id;
  account_id = 7;
  task_id = 11;
  attempt_no = number;
  lease_epoch = number;
  lease_until = until;
  status = AttemptStatus.running;
  request_id = none;
  artifact = none;
}

abbrev claimed_queue : Store
claimed_queue = record queue {
  tasks = first_task ∷ leased_row 1050 1 ∷ [];
  attempts = attempt_of 100 1 1050 ∷ [];
}

first_claim-found :
    claim_task 100 7 1000 50 none_locked queue ≡ ok (some first_claim, claimed_queue)
unfolding claim_task order_by_rank is_due reap_task ranks
first_claim-found = refl

-- The lease runs out, and the next worker claims the task again.
abbrev second_claim : TaskClaim
second_claim = record first_claim { attempt_id = 101; attempt_no = 2; lease_epoch = 2 }

abbrev reclaimed_queue : Store
reclaimed_queue = record claimed_queue {
  tasks = first_task ∷ leased_row 2050 2 ∷ [];
  attempts = attempt_of 100 1 1050 ∷ attempt_of 101 2 2050 ∷ [];
}

second_claim-found :
    claim_task 101 7 2000 50 none_locked claimed_queue ≡ ok (some second_claim, reclaimed_queue)
unfolding claim_task order_by_rank is_due reap_task ranks
second_claim-found = refl

-- Two claims of the urgent task, a late commit, and the commit that counts.
abbrev shift : List Op
shift =
    claim 100 7 1000 50 none_locked
    ∷ claim 101 7 2000 50 none_locked
    ∷ commit 12 7 first_claim 2010 (some WorkflowStage.calculate) none none
    ∷ commit 13 7 second_claim 2020 (some WorkflowStage.calculate) none none
    ∷ reap 7 3000
    ∷ []

shift_events :
    (run shift queue).1
    ≡ claimed first_claim ∷ claimed second_claim ∷ other ∷ completed 11 ∷ other ∷ []
unfolding run step claim_task commit_stage order_by_rank is_due reap_task ranks
shift_events = refl

run-TableOk_example : TableOk (run shift queue).0.tasks
run-TableOk_example = run-TableOk shift queue queue-TableOk

claims_bounded_example : count (claims_task 11) (run shift queue).1 + 0 ≤ 2
claims_bounded_example = claims_bounded 11 urgent_task shift queue queue-TableOk refl

committed_at_most_once_example :
    count (completes 11) (run shift queue).1 + one_if (is_settled TaskStatus.ready) ≤ 1
committed_at_most_once_example =
    committed_at_most_once 11 urgent_task shift queue queue-TableOk refl

first_claim-IsStale : IsStale first_claim (leased_row 2050 2)
unfolding holds_lease
first_claim-IsStale = ground arith

reclaimed-TableOk : TableOk reclaimed_queue.tasks
reclaimed-TableOk = record {
  rows = (ready-TaskOk 10 5, (ground arith, tt));
  keyed = (refl, (refl, tt));
}

stale_forever_example :
    IsFenced 7 first_claim (run (beat 7 second_claim 2030 50 ∷ reap 7 3000 ∷ []) reclaimed_queue).0
stale_forever_example =
    stale_forever 7 first_claim (leased_row 2050 2) (beat 7 second_claim 2030 50 ∷ reap 7 3000 ∷ [])
      reclaimed_queue reclaimed-TableOk refl first_claim-IsStale

abbrev done_task : Task
done_task = record (leased_row 2050 2) { status = TaskStatus.succeeded; lease_until = none }

abbrev done_queue : Store
done_queue = record queue { tasks = first_task ∷ done_task ∷ [] }

done-TableOk : TableOk done_queue.tasks
done-TableOk = record { rows = (ready-TaskOk 10 5, (ground arith, tt)); keyed = (refl, (refl, tt)) }

settled_forever_example : task_row 11 (run shift done_queue).0.tasks ≡ some done_task
settled_forever_example = settled_forever 11 done_task shift done_queue done-TableOk refl refl

nothing_between : (run [] claimed_queue).0 ≡ claimed_queue
unfolding run
nothing_between = refl

claims_fence_example : (1 < 2) × IsFenced 7 first_claim reclaimed_queue
claims_fence_example =
    claims_fence 7 first_claim second_claim queue claimed_queue claimed_queue reclaimed_queue [] 100
      1000 50 101 2000 50 none_locked none_locked queue-TableOk first_claim-found nothing_between
      second_claim-found refl

urgent_picked : pick_due 7 1000 none_locked queue ≡ some urgent_task
unfolding pick_due order_by_rank is_due ranks
urgent_picked = refl

second_locked : get_task_locked 11 7 reclaimed_queue ≡ some (leased_row 2050 2)
unfolding get_task_locked
second_locked = refl

second_held : holds_lease second_claim (leased_row 2050 2) ≡ true
unfolding holds_lease
second_held = refl
