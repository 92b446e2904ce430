-- ===== src/Control/Percentile.antt =====
-- The nearest-rank percentile of packages/shared/eastmed_shared/reconciliation/release.py.
use mari_time_system.Prelude.{
  ℤ, negsuc, ◌≤ℤ◌, IsIn, ℕ, zero, suc, ◌+◌, ◌-◌, ◌≤◌, ◌<◌, min, ◌≡◌, refl, sym, ap, subst, ◌∙◌, inl,
  inr, Option, none, some, List, [], ◌∷◌, Bool, true, false, not, Bool-cases, arith, pos, pos_part,
  ◌-ℤ◌, if◌then◌else◌, All, length, count, All-imp,
}
use mari_time_system.Control.Floats.{Floats}

abbrev pub get_elem? {ℓ} : {A : Type ℓ} → List A → ℕ → Option A
get_elem? [] n = none
get_elem? (x ∷ xs) zero = some x
get_elem? (x ∷ xs) (suc n) = get_elem? xs n

-- The rank among n values, counted from 1, for the exact rank rounded up: that one, or the nearest
-- end of 1 to n if it lies outside.
pub record IsRank (n : ℕ) (exact : ℤ) (rank : ℕ) : Type 0 where
  pub lowest : exact ≤ℤ pos 1 → rank ≡ 1
  pub within : pos 1 ≤ℤ exact → exact ≤ℤ pos n → pos rank ≡ exact
  pub highest : pos n ≤ℤ exact → rank ≡ n

clamped-IsRank :
    (n : ℕ) (exact : ℤ) → 0 < n → IsRank n exact (suc (min (pos_part (exact -ℤ pos 1)) (n - 1)))
clamped-IsRank n (pos e) h = record {
  lowest = λ low. ground arith;
  within = λ low high. ap pos (ground arith);
  highest = λ high. ground arith;
}
clamped-IsRank n (negsuc e) h = record {
  lowest = λ low. ground arith;
  within = λ low high. absurd (omega arith);
  highest = λ high. absurd (omega arith);
}

module _ (floats : Floats) where
  open floats use {Float, of_int, times, less, ceil}

  -- A value goes before the first that is not less than it.
  unfoldable pub insert : Float → List Float → List Float
  insert x [] = x ∷ []
  insert x (y ∷ ys) = let rest = insert x ys in if less y x then y ∷ rest else x ∷ y ∷ ys

  -- `sorted` on numbers, which keeps the order of values of which neither is less.
  unfoldable pub sorted : List Float → List Float
  sorted [] = []
  sorted (x ∷ xs) = insert x (sorted xs)

  -- `max(0, math.ceil(fraction * n) - 1)`
  abbrev pub rank_of : Float → ℕ → ℕ
  rank_of fraction n = pos_part (ceil (times fraction (of_int (pos n))) -ℤ pos 1)

  unfoldable pub percentile : List Float → Float → Option Float
  percentile [] fraction = none
  percentile (v ∷ vs) fraction =
      let ordered = sorted (v ∷ vs) in
      get_elem? ordered (min (rank_of fraction (length ordered)) (length ordered - 1))

  -- No value is less than one before it.
  abbrev Sorted : List Float → Type 0
  Sorted [] = Unit
  Sorted (x ∷ xs) = All (λ y. less y x ≡ false) xs × Sorted xs

  count-insert :
      (p : Float → Bool) (x : Float) (xs : List Float) → count p (insert x xs) ≡ count p (x ∷ xs)
  unfolding insert
  count-insert p x [] = refl
  count-insert p x (y ∷ ys) = ground (arith, count-insert p x ys)

  count-sorted : (p : Float → Bool) (xs : List Float) → count p (sorted xs) ≡ count p xs
  unfolding sorted
  count-sorted p [] = refl
  count-sorted p (x ∷ xs) =
      count-insert p x (sorted xs) ∙ ap (λ n. (if p x then 1 else 0) + n) (count-sorted p xs)

  length-count : (xs : List Float) → count (λ v. true) xs ≡ length xs
  length-count [] = refl
  length-count (x ∷ xs) = ground (arith, length-count xs)

  length-sorted : (xs : List Float) → length (sorted xs) ≡ length xs
  length-sorted xs = sym (length-count (sorted xs)) ∙ count-sorted (λ v. true) xs ∙ length-count xs

  All-insert :
      (P : Float → Type 0) (x : Float) (xs : List Float) → P x → All P xs → All P (insert x xs)
  unfolding insert
  All-insert P x [] h k = (h, tt)
  All-insert P x (y ∷ ys) h k = elim (Bool-cases (less y x)) [
    | inl b ↦ rw b (k.0, All-insert P x ys h k.1)
    | inr b ↦ rw b (h, k)
  ]

  IsIn-insert : (a x : Float) (xs : List Float) → IsIn a (insert x xs) → IsIn a (x ∷ xs)
  unfolding insert
  IsIn-insert a x [] = λ h. h
  IsIn-insert a x (y ∷ ys) = elim (Bool-cases (less y x)) [
    | inr b ↦ rw b (λ h. h)
    | inl b ↦ rw b (λ h. elim h [
      | inl e ↦ inr (inl e)
      | inr k ↦ elim (IsIn-insert a x ys k) [ inl e ↦ inl e | inr m ↦ inr (inr m) ]
    ])
  ]

  IsIn-sorted : (a : Float) (xs : List Float) → IsIn a (sorted xs) → IsIn a xs
  unfolding sorted
  IsIn-sorted a [] h = h
  IsIn-sorted a (x ∷ xs) h = elim (IsIn-insert a x (sorted xs) h) [
    | inl e ↦ inl e
    | inr k ↦ inr (IsIn-sorted a xs k)
  ]

  All-get_elem? :
      (P : Float → Type 0) (xs : List Float) (n : ℕ) (a : Float)
      → All P xs
      → get_elem? xs n ≡ some a
      → P a
  All-get_elem? P [] n a h e = absurd (cc)
  All-get_elem? P (x ∷ xs) zero a h e = let same : x ≡ a = cc in subst P same h.0
  All-get_elem? P (x ∷ xs) (suc n) a h e = All-get_elem? P xs n a h.1 e

  get_elem?-IsIn :
      (xs : List Float) (n : ℕ)
      → n < length xs
      → (a : Float) × (get_elem? xs n ≡ some a) × IsIn a xs
  get_elem?-IsIn [] n h = absurd (omega arith)
  get_elem?-IsIn (x ∷ xs) zero h = (x, refl, inl refl)
  get_elem?-IsIn (x ∷ xs) (suc n) h =
      let (a, e, k) = get_elem?-IsIn xs n (omega arith) in (a, e, inr k)

  -- What the percentile of a list is: nothing if it is empty, and else one of its values, such that
  -- fewer values than the rank are less than it, and at least so many that it is not less than.
  abbrev pub IsNearestRank : List Float → Float → Option Float → Type 0
  IsNearestRank [] fraction r = r ≡ none
  IsNearestRank (v ∷ vs) fraction r =
      (rank : ℕ) × (a : Float) × IsRank (length (v ∷ vs))
        (ceil (times fraction (of_int (pos (length (v ∷ vs)))))) rank
      × (r ≡ some a)
      × IsIn a (v ∷ vs)
      × (count (λ w. less w a) (v ∷ vs) < rank)
      × (rank ≤ count (λ w. not (less a w)) (v ∷ vs))

-- What the order of the floats gives, where a value that is a number stands between.
pub record IsOrder (floats : Floats) (is_number : floats.Float → Bool) : Type 0 where
  pub asymmetric : (a b : floats.Float) → floats.less a b ≡ true → floats.less b a ≡ false
  pub not_less_through :
      (a b c : floats.Float)
      → is_number b ≡ true
      → floats.less a b ≡ false
      → floats.less b c ≡ false
      → floats.less a c ≡ false

module _ (floats : Floats) (is_number : floats.Float → Bool)
    (order : IsOrder floats is_number) where
  open floats use {Float, less, ceil, times, of_int}

  abbrev Numbers : List Float → Type 0
  Numbers = All (λ v. is_number v ≡ true)

  irreflexive : (a : Float) → less a a ≡ false
  irreflexive a = elim (Bool-cases (less a a)) [ inl h ↦ order.asymmetric a a h | inr h ↦ h ]

  Numbers-sorted : (xs : List Float) → Numbers xs → Numbers (sorted floats xs)
  unfolding sorted
  Numbers-sorted [] h = tt
  Numbers-sorted (x ∷ xs) h =
      All-insert floats (λ v. is_number v ≡ true) x (sorted floats xs) h.0 (Numbers-sorted xs h.1)

  insert-Sorted :
      (x : Float) (xs : List Float)
      → Numbers xs
      → Sorted floats xs
      → Sorted floats (insert floats x xs)
  unfolding insert
  insert-Sorted x [] n h = (tt, tt)
  insert-Sorted x (y ∷ ys) n h = elim (Bool-cases (less y x)) [
    | inl b ↦ rw b (
      All-insert floats (λ z. less z y ≡ false) x ys (order.asymmetric y x b) h.0,
      insert-Sorted x ys n.1 h.1,
    )
    | inr b ↦ rw b ((b, All-imp ys (λ z k. order.not_less_through z y x n.0 k b) h.0), h)
  ]

  sorted-Sorted : (xs : List Float) → Numbers xs → Sorted floats (sorted floats xs)
  unfolding sorted
  sorted-Sorted [] h = tt
  sorted-Sorted (x ∷ xs) h =
      insert-Sorted x (sorted floats xs) (Numbers-sorted xs h.1) (sorted-Sorted xs h.1)

  none_counted : (p : Float → Bool) (xs : List Float) → All (λ x. p x ≡ false) xs → count p xs ≡ 0
  none_counted p [] h = refl
  none_counted p (x ∷ xs) h = ground (arith, none_counted p xs h.1)

  -- In an ordered list, the entry at an index has at most so many entries that are less, and more
  -- than so many that it is not less than.
  at_index :
      (xs : List Float) (n : ℕ) (a : Float)
      → Sorted floats xs
      → get_elem? xs n ≡ some a
      → (count (λ v. less v a) xs ≤ n) × (n < count (λ v. not (less a v)) xs)
  at_index [] n a h e = absurd (cc)
  at_index (x ∷ xs) zero a h e =
      let same : x ≡ a = cc in
      subst (λ b. (count (λ v. less v b) (x ∷ xs) ≤ 0) × (0 < count (λ v. not (less b v)) (x ∷ xs)))
        same (ground (arith, none_counted (λ v. less v x) xs h.0, irreflexive x))
  at_index (x ∷ xs) (suc n) a h e =
      ground
        (arith, at_index xs n a h.1 e, All-get_elem? floats (λ y. less y x ≡ false) xs n a h.0 e)

  -- The percentile of an empty list is nothing. That of a list of n numbers is one of them, of the
  -- nearest rank: with fraction * n rounded up, and kept between 1 and n, as the rank, fewer values than
  -- the rank are less than it, and it is not less than at least so many.
  pub percentile-IsNearestRank :
      (values : List Float) (fraction : Float)
      → All (λ v. is_number v ≡ true) values
      → IsNearestRank floats values fraction (percentile floats values fraction)
  unfolding percentile
  percentile-IsNearestRank [] fraction h = refl
  percentile-IsNearestRank (v ∷ vs) fraction h =
      let ordered = sorted floats (v ∷ vs) in
      let n = length-sorted floats (v ∷ vs) in
      let k = min (rank_of floats fraction (length (v ∷ vs))) (length (v ∷ vs) - 1) in
      let (a, e, inside) = get_elem?-IsIn floats ordered k (omega (arith, n)) in
      let counts = at_index ordered k a (sorted-Sorted (v ∷ vs) h) e in
      rw n (
        suc k,
        a,
        clamped-IsRank (length (v ∷ vs)) (ceil (times fraction (of_int (pos (length (v ∷ vs))))))
            (omega arith),
        e,
        IsIn-sorted floats a (v ∷ vs) inside,
        subst (λ c. c < suc k) (count-sorted floats (λ w. less w a) (v ∷ vs))
            (omega (arith, counts.0)),
        subst (λ c. suc k ≤ c) (count-sorted floats (λ w. not (less a w)) (v ∷ vs))
            (omega (arith, counts.1)),
      )
