-- ===== src/Runtime/Due.antt =====
-- What the due query returns: due rows, in the declared order, and every one of them.
use mari_time_system.Prelude.{
  ℕ, zero, suc, ◌≤◌, ◌≡◌, refl, sym, ap, ◌∙◌, some, List, [], ◌∷◌, Bool, true, false, not, ◌&&◌,
  arith, Bool-cases, inl, inr, All, All-imp, All-select, All-first, select, select_passes, first,
  take, length, count, take-All, count-select, Keyed, Keyed-get_row, length-take-le,
}
use mari_time_system.Runtime.State.{Task, Store, task_row}
use mari_time_system.Runtime.Queue.{
  is_due, ranks, insert_ranked, order_by_rank, due_query, find_due_tasks,
}
use mari_time_system.Runtime.Tasks.{pick_due}

ranks_total : (a b : Task) → ranks a b ≡ false → ranks b a ≡ true
unfolding ranks
ranks_total a b h = ground arith

ranks_trans : (a b c : Task) → ranks a b ≡ true → ranks b c ≡ true → ranks a c ≡ true
unfolding ranks
ranks_trans a b c h k = ground arith

module _ {ℓ} (P : Task → Type ℓ) where
  insert_ranked-All : (t : Task) (xs : List Task) → P t → All P xs → All P (insert_ranked t xs)
  unfolding insert_ranked
  insert_ranked-All t [] p h = (p, tt)
  insert_ranked-All t (x ∷ xs) p h = ground (arith, insert_ranked-All t xs p h.1)

  pub order_by_rank-All : (xs : List Task) → All P xs → All P (order_by_rank xs)
  unfolding order_by_rank
  order_by_rank-All [] h = tt
  order_by_rank-All (x ∷ xs) h =
      insert_ranked-All x (order_by_rank xs) h.0 (order_by_rank-All xs h.1)

-- Every row ranks no later than the rows behind it.
abbrev pub IsRanked : List Task → Type 0
IsRanked [] = Unit
IsRanked (x ∷ xs) = All (λ y. ranks x y ≡ true) xs × IsRanked xs

insert_ranked-IsRanked : (t : Task) (xs : List Task) → IsRanked xs → IsRanked (insert_ranked t xs)
unfolding insert_ranked
insert_ranked-IsRanked t [] h = (tt, tt)
insert_ranked-IsRanked t (x ∷ xs) h = elim (Bool-cases (ranks t x)) [
  | inl before ↦ rw before ((before, All-imp xs (λ y r. ranks_trans t x y before r) h.0), h)
  | inr after ↦ rw after (
    insert_ranked-All (λ y. ranks x y ≡ true) t xs (ranks_total t x after) h.0,
    insert_ranked-IsRanked t xs h.1,
  )
]

pub order_by_rank-IsRanked : (xs : List Task) → IsRanked (order_by_rank xs)
unfolding order_by_rank
order_by_rank-IsRanked [] = tt
order_by_rank-IsRanked (x ∷ xs) =
    insert_ranked-IsRanked x (order_by_rank xs) (order_by_rank-IsRanked xs)

-- Ordering neither drops nor doubles a row, whatever is counted.
count-insert_ranked :
    (p : Task → Bool) (t : Task) (xs : List Task) → count p (insert_ranked t xs) ≡ count p (t ∷ xs)
unfolding insert_ranked
count-insert_ranked p t [] = refl
count-insert_ranked p t (x ∷ xs) = ground (arith, count-insert_ranked p t xs)

pub count-order_by_rank :
    (p : Task → Bool) (xs : List Task) → count p (order_by_rank xs) ≡ count p xs
unfolding order_by_rank
count-order_by_rank p [] = refl
count-order_by_rank p (x ∷ xs) =
    omega (arith, count-insert_ranked p x (order_by_rank xs), count-order_by_rank p xs)

select-IsRanked : (p : Task → Bool) (xs : List Task) → IsRanked xs → IsRanked (select p xs)
select-IsRanked p [] h = tt
select-IsRanked p (x ∷ xs) h =
    ground (arith, select-IsRanked p xs h.1, All-select (λ y. ranks x y ≡ true) p xs h.0)

take-IsRanked : (n : ℕ) (xs : List Task) → IsRanked xs → IsRanked (take n xs)
take-IsRanked zero xs h = tt
take-IsRanked (suc n) [] h = tt
take-IsRanked (suc n) (x ∷ xs) h =
    (take-All (λ y. ranks x y ≡ true) n xs h.0, take-IsRanked n xs h.1)

-- The scheduler's view holds due rows only, at most `limit` of them, each ranked no later than
-- those behind it; and with a limit that large, every due row of the table stands in it.
pub record IsDueView (account moment limit : ℕ) (s : Store) (view : List Task) : Type 0 where
  pub due : All (λ t. is_due account moment t ≡ true) view
  pub bounded : length view ≤ limit
  pub ranked : IsRanked view
  pub complete :
      (p : Task → Bool)
      → length (due_query account moment s) ≤ limit
      → count p view ≡ count (λ t. is_due account moment t && p t) s.tasks

take-short {ℓ} : {A : Type ℓ} (n : ℕ) (xs : List A) → length xs ≤ n → take n xs ≡ xs
take-short zero [] h = refl
take-short zero (x ∷ xs) h = absurd (omega arith)
take-short (suc n) [] h = refl
take-short (suc n) (x ∷ xs) h = ap (◌∷◌ x) (take-short n xs (omega arith))

count-due_query :
    (account moment : ℕ) (s : Store) (p : Task → Bool)
    → count p (due_query account moment s) ≡ count (λ t. is_due account moment t && p t) s.tasks
unfolding due_query
count-due_query account moment s p =
    count-order_by_rank p (select (is_due account moment) s.tasks)
    ∙ count-select p (is_due account moment) s.tasks

due_query-due :
    (account moment : ℕ) (s : Store)
    → All (λ t. is_due account moment t ≡ true) (due_query account moment s)
unfolding due_query
due_query-due account moment s =
    order_by_rank-All (λ t. is_due account moment t ≡ true) (select (is_due account moment) s.tasks)
      (select_passes (is_due account moment) s.tasks)

due_query-IsRanked : (account moment : ℕ) (s : Store) → IsRanked (due_query account moment s)
unfolding due_query
due_query-IsRanked account moment s =
    order_by_rank-IsRanked (select (is_due account moment) s.tasks)

due_query-found :
    (account moment : ℕ) (s : Store)
    → Keyed (λ x. x.id) s.tasks
    → All (λ u. task_row u.id s.tasks ≡ some u) (due_query account moment s)
unfolding due_query
due_query-found account moment s keyed =
    order_by_rank-All (λ u. task_row u.id s.tasks ≡ some u) (select (is_due account moment) s.tasks)
      (All-select (λ u. task_row u.id s.tasks ≡ some u) (is_due account moment) s.tasks
        (Keyed-get_row (λ x. x.id) s.tasks keyed))

-- `find_due_tasks` returns due rows only, at most `limit` of them, in the declared order; and if
-- the due rows do not exceed the limit, it returns each of them as often as the table holds it.
pub find_due_tasks-IsDueView :
    (account moment limit : ℕ) (s : Store)
    → IsDueView account moment limit s (find_due_tasks account moment limit s)
unfolding find_due_tasks
find_due_tasks-IsDueView account moment limit s = record {
  due = take-All (λ t. is_due account moment t ≡ true) limit _ (due_query-due account moment s);
  bounded = length-take-le limit (due_query account moment s);
  ranked = take-IsRanked limit _ (due_query-IsRanked account moment s);
  complete = λ p few.
      rw (take-short limit (due_query account moment s) few) (count-due_query account moment s p);
}

head_best :
    (xs : List Task) (t : Task)
    → IsRanked xs
    → first xs ≡ some t
    → count (λ u. not (ranks t u)) xs ≡ 0
head_best [] t h e = refl
head_best (x ∷ xs) t h e =
    let same : x ≡ t = cc in
    let self : ranks t t ≡ true = ground (arith, ranks_total t t) in
    ground (arith, self, none_fail xs (rw same at h.0))
  where
    none_fail :
        (ys : List Task) → All (λ y. ranks t y ≡ true) ys → count (λ u. not (ranks t u)) ys ≡ 0
    none_fail [] k = refl
    none_fail (y ∷ ys) k = ground (arith, none_fail ys k.1)

-- The row that a claim picks: due, not locked by another transaction, found by its key, and such
-- that no due unlocked row ranks before it.
pub record IsPick (account moment : ℕ) (locked : ℕ → Bool) (s : Store) (t : Task) : Type 0 where
  pub due : is_due account moment t ≡ true
  pub unlocked : locked t.id ≡ false
  pub stored : task_row t.id s.tasks ≡ some t
  pub best :
      count (λ u. is_due account moment u && (not (locked u.id) && not (ranks t u))) s.tasks ≡ 0

-- The row that a claim picks is due and not locked, it is the row that its key finds, and no due
-- unlocked row ranks before it.
pub pick_due-IsPick :
    (account moment : ℕ) (locked : ℕ → Bool) (s : Store) (t : Task)
    → Keyed (λ x. x.id) s.tasks
    → pick_due account moment locked s ≡ some t
    → IsPick account moment locked s t
unfolding pick_due
pick_due-IsPick account moment locked s t keyed e = record {
  due =
      All-first (λ u. is_due account moment u ≡ true) free
        (All-select _ _ _ (due_query-due account moment s)) e;
  unlocked = ground (
    arith,
    All-first (λ u. not (locked u.id) ≡ true) free
        (select_passes (λ u. not (locked u.id)) (due_query account moment s)) e,
  );
  stored =
      All-first (λ u. task_row u.id s.tasks ≡ some u) free (All-select _ _ _ (due_query-stored)) e;
  best =
      sym (count-due_query account moment s _)
      ∙ sym (count-select _ _ _)
      ∙ head_best free t (select-IsRanked _ _ (due_query-IsRanked account moment s)) e;
}
  where
    free : List Task
    free = select (λ u. not (locked u.id)) (due_query account moment s)

    due_query-stored : All (λ u. task_row u.id s.tasks ≡ some u) (due_query account moment s)
    due_query-stored = due_query-found account moment s keyed
