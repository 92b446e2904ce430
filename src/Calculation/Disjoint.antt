-- ===== src/Calculation/Disjoint.antt =====
-- Which reporting intervals `report_period_reconcile` of
-- packages/shared/eastmed_shared/reconciliation/calculator.py accepts.
use mari_time_system.Prelude.{
  ℕ, ◌+◌, ◌≤◌, ◌<◌, ◌≡◌, ◌≢◌, ◌↔◌, refl, ◌∙◌, subst, List, [], ◌∷◌, Bool, true, false, ◌&&◌, ◌||◌,
  arith, All, All-imp, any, count, leb, ltb, if◌then◌else◌, Bool-cases, inl, inr,
}
use mari_time_system.Calculation.Variance.{CalcOutcome}
use mari_time_system.Calculation.Periods.{
  Interval, is_empty, starts_before, insert_interval, sort_intervals, overlap, covering,
  report_period_reconcile,
}

-- The instant lies in the interval, whose end is not part of it.
abbrev pub contains : ℕ → Interval → Bool
contains t i = leb i.period_start t && ltb t i.period_end

count-insert :
    (p : Interval → Bool) (i : Interval) (is : List Interval)
    → count p (insert_interval i is) ≡ (if p i then 1 else 0) + count p is
unfolding insert_interval
count-insert p i [] = refl
count-insert p i (j ∷ js) = elim (Bool-cases (starts_before i j)) [
  | inl first ↦ rw first refl
  | inr later ↦ rw later (omega (arith, count-insert p i js))
]

count-sort : (p : Interval → Bool) (is : List Interval) → count p (sort_intervals is) ≡ count p is
unfolding sort_intervals
count-sort p [] = refl
count-sort p (i ∷ is) = omega (arith, count-insert p i (sort_intervals is), count-sort p is)

-- No interval starts before an earlier one of the list.
abbrev IsSorted : List Interval → Type 0
IsSorted [] = Unit
IsSorted (i ∷ is) = All (λ j. i.period_start ≤ j.period_start) is × IsSorted is

insert-All :
    (P : Interval → Type 0) (i : Interval) (is : List Interval)
    → P i
    → All P is
    → All P (insert_interval i is)
unfolding insert_interval
insert-All P i [] p h = (p, tt)
insert-All P i (j ∷ js) p h = elim (Bool-cases (starts_before i j)) [
  | inl first ↦ rw (first, All) (p, h)
  | inr later ↦ rw (later, All) (h.0, insert-All P i js p h.1)
]

insert-IsSorted :
    (i : Interval) (is : List Interval) → IsSorted is → IsSorted (insert_interval i is)
unfolding insert_interval
insert-IsSorted i [] h = (tt, tt)
insert-IsSorted i (j ∷ js) h = elim (Bool-cases (starts_before i j)) [
  | inl first ↦
      let le : i.period_start ≤ j.period_start = ground arith in
      rw (first, IsSorted) ((le, All-imp js (λ k up. omega (arith, le, up)) h.0), h)
  | inr later ↦
      let le : j.period_start ≤ i.period_start = ground arith in
      rw (later, IsSorted) (insert-All _ i js le h.0, insert-IsSorted i js h.1)
]

sort-IsSorted : (is : List Interval) → IsSorted (sort_intervals is)
unfolding sort_intervals
sort-IsSorted [] = tt
sort-IsSorted (i ∷ is) = insert-IsSorted i (sort_intervals is) (sort-IsSorted is)

-- An instant before all of the intervals is in none.
none_contains :
    (t : ℕ) (is : List Interval) → All (λ i. t < i.period_start) is → count (contains t) is ≡ 0
none_contains t [] h = refl
none_contains t (i ∷ is) h = ground (arith, none_contains t is h.1)

once_covered :
    (t : ℕ) (is : List Interval) → IsSorted is → overlap is ≡ false → count (contains t) is ≤ 1
once_covered t [] s h = omega arith
once_covered t (i ∷ []) s h = ground arith
once_covered t (i ∷ j ∷ js) s h = elim (Bool-cases (contains t i)) [
  | inl here ↦
      let before : t < j.period_start = ground arith in
      let rest =
        none_contains t (j ∷ js) (before, All-imp js (λ k up. omega (arith, before, up)) s.1.0) in
      ground (arith, rest)
  | inr other ↦ ground (arith, once_covered t (j ∷ js) s.1 (ground arith))
]

-- Where two intervals of a sorted list overlap, some instant is in two.
twice_covered :
    (is : List Interval)
    → IsSorted is
    → any is_empty is ≡ false
    → overlap is ≡ true
    → (t : ℕ) × (2 ≤ count (contains t) is)
twice_covered [] s full h = absurd (cc)
twice_covered (i ∷ []) s full h = absurd (cc)
twice_covered (i ∷ j ∷ js) s full h = elim (Bool-cases (ltb j.period_start i.period_end)) [
  | inl meets ↦ (j.period_start, ground (arith, s.0.0))
  | inr apart ↦
      let (t, two) = twice_covered (j ∷ js) s.1 (ground arith) (ground arith) in
      (t, ground (arith, two))
]

any-insert :
    (p : Interval → Bool) (i : Interval) (is : List Interval)
    → any p (insert_interval i is) ≡ (p i || any p is)
unfolding insert_interval
any-insert p i [] = refl
any-insert p i (j ∷ js) = ground (arith, any-insert p i js)

any-sort : (p : Interval → Bool) (is : List Interval) → any p (sort_intervals is) ≡ any p is
unfolding sort_intervals
any-sort p [] = refl
any-sort p (i ∷ is) = ground (arith, any-insert p i (sort_intervals is), any-sort p is)

-- Something was reported, no interval is empty, and no instant is reported twice.
pub record IsReport (is : List Interval) : Type 0 where
  pub reported : is ≢ []
  pub nonempty : any is_empty is ≡ false
  pub disjoint : (t : ℕ) → count (contains t) is ≤ 1

-- The intervals are reconciled, in the order of their starts, exactly if there is one, none is empty
-- and no instant lies in two of them, whatever order they come in.
pub report_period_reconcile_iff_IsReport :
    (is : List Interval)
    → (report_period_reconcile is ≡ CalcOutcome.computed (covering (sort_intervals is)))
      ↔ IsReport is
unfolding report_period_reconcile
report_period_reconcile_iff_IsReport [] = ((λ e. absurd (cc)), λ h. absurd (h.reported refl))
report_period_reconcile_iff_IsReport (i ∷ is) = (accepted, accepts)
  where
    accepted :
        report_period_reconcile (i ∷ is) ≡ CalcOutcome.computed (covering (sort_intervals (i ∷ is)))
        → IsReport (i ∷ is)
    accepted e = elim (Bool-cases (any is_empty (i ∷ is))) [
      | inl empty ↦ absurd (ground arith)
      | inr full ↦ elim (Bool-cases (overlap (sort_intervals (i ∷ is)))) [
        | inl clash ↦ absurd (ground arith)
        | inr apart ↦ record {
          reported = λ k. cc;
          nonempty = full;
          disjoint = λ t.
              subst (λ n. n ≤ 1) (count-sort (contains t) (i ∷ is))
                (once_covered t (sort_intervals (i ∷ is)) (sort-IsSorted (i ∷ is)) apart);
        }
      ]
    ]

    accepts :
        IsReport (i ∷ is)
        → report_period_reconcile (i ∷ is)
          ≡ CalcOutcome.computed (covering (sort_intervals (i ∷ is)))
    accepts h = elim (Bool-cases (overlap (sort_intervals (i ∷ is)))) [
      | inl clash ↦
          let (t, two) =
            twice_covered (sort_intervals (i ∷ is)) (sort-IsSorted (i ∷ is))
              (any-sort is_empty (i ∷ is) ∙ h.nonempty) clash in
          absurd (omega (arith, two, count-sort (contains t) (i ∷ is), h.disjoint t))
      | inr apart ↦ rw (h.nonempty, apart) refl
    ]
