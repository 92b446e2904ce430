-- ===== src/Runtime/Queue.antt =====
-- The due query of reconciliation_runtime.py and the scheduler's view of it.
use mari_time_system.Prelude.{
  ℕ, Option, none, some, List, [], ◌∷◌, Bool, true, false, ◌&&◌, ◌||◌, ltb, leb, ltb_ℤ, ◌==◌,
  if◌then◌else◌, select, take,
}
use mari_time_system.Runtime.State.{Task, Store, is_ready, is_leased}

-- `lease_until IS NOT NULL AND lease_until < now`
abbrev pub lapsed : ℕ → Option ℕ → Bool
lapsed now none = false
lapsed now (some until) = ltb until now

-- The WHERE clause of `_due_query`.
unfoldable pub is_due : ℕ → ℕ → Task → Bool
is_due account now t =
    t.account_id == account
    && ((is_ready t.status && leb t.next_attempt_at now)
        || (is_leased t.status && (lapsed now t.lease_until && ltb t.attempts t.max_attempts)))

-- Its ORDER BY: priority descending, then next_attempt_at, then id.
unfoldable pub ranks : Task → Task → Bool
ranks a b =
    if ltb_ℤ b.priority a.priority
    then true
    else if ltb_ℤ a.priority b.priority
    then false
    else if ltb a.next_attempt_at b.next_attempt_at
    then true
    else if ltb b.next_attempt_at a.next_attempt_at
    then false
    else leb a.id b.id

unfoldable pub insert_ranked : Task → List Task → List Task
insert_ranked t [] = t ∷ []
insert_ranked t (x ∷ xs) = if ranks t x then t ∷ x ∷ xs else x ∷ insert_ranked t xs

unfoldable pub order_by_rank : List Task → List Task
unfolding insert_ranked
order_by_rank [] = []
order_by_rank (x ∷ xs) = insert_ranked x (order_by_rank xs)

-- `_due_query`
unfoldable pub due_query : ℕ → ℕ → Store → List Task
due_query account now s = order_by_rank (select (is_due account now) s.tasks)

unfoldable pub find_due_tasks : ℕ → ℕ → ℕ → Store → List Task
unfolding due_query
find_due_tasks account now limit s = take limit (due_query account now s)
