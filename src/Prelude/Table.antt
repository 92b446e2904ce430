-- ===== src/Prelude/Table.antt =====
-- A table of rows under a numeric primary key.
use Prim.Native.Nat.{ℕ, ◌+◌, ◌≤◌}
use mathlib.Core.Path.{◌≡◌, refl, ap, ◌∙◌}
use mathlib.Core.Logic.{◌≢◌, inl, inr}
use mathlib.Core.Option.{Option, none, some}
use mathlib.Core.List.{List, [], ◌∷◌, ◌++◌, map}
use native.Mathlib.Omega.{arith}
use mari_time_system.Prelude.Tests.{◌==◌, ==-refl, if◌then◌else◌, Bool-cases}
use mari_time_system.Prelude.Lists.{All, All-imp}

module _ {ℓ} {R : Type ℓ} (key : R → ℕ) where
  -- `session.get(Model, id)`, or a select by primary key
  abbrev pub get_row : ℕ → List R → Option R
  get_row k [] = none
  get_row k (r ∷ rs) = if key r == k then some r else get_row k rs

  -- an UPDATE of the row that has the key of `r`
  abbrev pub save_row : R → List R → List R
  save_row r [] = []
  save_row r (x ∷ xs) = if key x == key r then r ∷ xs else x ∷ save_row r xs

  -- No two rows share their key.
  abbrev pub Keyed : List R → Type ℓ
  Keyed [] = Unit
  Keyed (r ∷ rs) = (get_row (key r) rs ≡ none) × Keyed rs

  pub get_row-key : (k : ℕ) (rs : List R) {r : R} → get_row k rs ≡ some r → key r ≡ k
  get_row-key k [] e = cc
  get_row-key k (x ∷ rs) {r} e = ground (arith, get_row-key k rs {r = r})

  pub get_row-save_self :
      (r : R) (rs : List R) {old : R}
      → get_row (key r) rs ≡ some old
      → get_row (key r) (save_row r rs) ≡ some r
  get_row-save_self r [] e = cc
  get_row-save_self r (x ∷ rs) {old} e = ground (arith, get_row-save_self r rs {old = old})

  pub get_row-save_ne :
      (k : ℕ) (r : R) (rs : List R) → k ≢ key r → get_row k (save_row r rs) ≡ get_row k rs
  get_row-save_ne k r [] h = refl
  get_row-save_ne k r (x ∷ rs) h = ground (arith, get_row-save_ne k r rs h)

  pub get_row-append_some :
      (k : ℕ) (rs : List R) (r : R) {a : R}
      → get_row k rs ≡ some a
      → get_row k (rs ++ r ∷ []) ≡ some a
  get_row-append_some k [] r e = cc
  get_row-append_some k (x ∷ rs) r {a} e = ground (arith, get_row-append_some k rs r {a = a})

  pub get_row-append_ne :
      (k : ℕ) (rs : List R) (r : R) → k ≢ key r → get_row k (rs ++ r ∷ []) ≡ get_row k rs
  get_row-append_ne k [] r h = ground arith
  get_row-append_ne k (x ∷ rs) r h = ground (arith, get_row-append_ne k rs r h)

  pub get_row-append_new :
      (rs : List R) (r : R) → get_row (key r) rs ≡ none → get_row (key r) (rs ++ r ∷ []) ≡ some r
  get_row-append_new [] r h = ground arith
  get_row-append_new (x ∷ rs) r h = ground (arith, get_row-append_new rs r)

  pub get_row-All {κ} :
      (P : R → Type κ) (k : ℕ) (rs : List R) {r : R} → All P rs → get_row k rs ≡ some r → P r
  get_row-All P k [] h e = cc
  get_row-All P k (x ∷ rs) {r} h e = ground (arith, get_row-All P k rs {r = r} h.1)

  pub save_row-All {κ} :
      (P : R → Type κ) (r : R) (rs : List R) → P r → All P rs → All P (save_row r rs)
  save_row-All P r [] p h = tt
  save_row-All P r (x ∷ rs) p h = ground (arith, save_row-All P r rs p h.1)

  save_row-missing :
      (k : ℕ) (r : R) (rs : List R) → get_row k rs ≡ none → get_row k (save_row r rs) ≡ none
  save_row-missing k r [] e = refl
  save_row-missing k r (x ∷ rs) e = ground (arith, save_row-missing k r rs)

  pub save_row-Keyed : (r : R) (rs : List R) → Keyed rs → Keyed (save_row r rs)
  save_row-Keyed r [] h = tt
  save_row-Keyed r (x ∷ rs) h =
      grind (arith, save_row-Keyed r rs h.1, save_row-missing (key x) r rs)

  head_ne : (k : ℕ) (x : R) (rs : List R) → get_row k (x ∷ rs) ≡ none → key x ≢ k
  head_ne k x rs e p = ground arith

  tail_none : (k : ℕ) (x : R) (rs : List R) → get_row k (x ∷ rs) ≡ none → get_row k rs ≡ none
  tail_none k x rs e = ground arith

  pub append-Keyed :
      (rs : List R) (r : R) → get_row (key r) rs ≡ none → Keyed rs → Keyed (rs ++ r ∷ [])
  append-Keyed [] r e h = (refl, tt)
  append-Keyed (x ∷ rs) r e h = (
    get_row-append_ne (key x) rs r (head_ne (key r) x rs e) ∙ h.0,
    append-Keyed rs r (tail_none (key r) x rs e) h.1,
  )

  get_row-cons :
      (x r : R) (rs : List R)
      → get_row (key x) rs ≡ none
      → get_row (key r) rs ≡ some r
      → get_row (key r) (x ∷ rs) ≡ some r
  get_row-cons x r rs e h = ground (arith, same_key x r rs)
    where
      same_key : (x r : R) (rs : List R) → key x ≡ key r → get_row (key x) rs ≡ get_row (key r) rs
      same_key x r rs p = ap (λ k. get_row k rs) p

  -- In a table whose keys differ every row is found by its own key.
  pub Keyed-get_row : (rs : List R) → Keyed rs → All (λ r. get_row (key r) rs ≡ some r) rs
  Keyed-get_row [] h = tt
  Keyed-get_row (x ∷ rs) h =
      (rw (==-refl (key x)), All-imp rs (λ r. get_row-cons x r rs h.0) (Keyed-get_row rs h.1))

  module _ (f : R → R) (keeps : (r : R) → key (f r) ≡ key r) where
    pub get_row-map-some :
        (k : ℕ) (rs : List R) {r : R} → get_row k rs ≡ some r → get_row k (map f rs) ≡ some (f r)
    get_row-map-some k [] e = cc
    get_row-map-some k (x ∷ rs) {r} e = ground (arith, keeps x, get_row-map-some k rs {r = r})

    pub get_row-map-none : (k : ℕ) (rs : List R) → get_row k rs ≡ none → get_row k (map f rs) ≡ none
    get_row-map-none k [] e = refl
    get_row-map-none k (x ∷ rs) e = ground (arith, keeps x, get_row-map-none k rs)

    pub map-Keyed : (rs : List R) → Keyed rs → Keyed (map f rs)
    map-Keyed [] h = tt
    map-Keyed (x ∷ rs) h = (rw (keeps x) (get_row-map-none (key x) rs h.0), map-Keyed rs h.1)

module _ {ℓ} {R : Type ℓ} (f : R → ℕ) where
  -- `sum(f(r) for r in rows)`
  abbrev pub total : List R → ℕ
  total [] = 0
  total (r ∷ rs) = f r + total rs

  pub total-append : (xs ys : List R) → total (xs ++ ys) ≡ total xs + total ys
  total-append [] ys = omega arith
  total-append (x ∷ xs) ys = omega (arith, total-append xs ys)

  module _ (key : R → ℕ) where
    pub total-save_row :
        (r : R) (rs : List R) {old : R}
        → get_row key (key r) rs ≡ some old
        → total (save_row key r rs) + f old ≡ total rs + f r
    total-save_row r [] e = cc
    total-save_row r (x ∷ rs) {old} e = elim (Bool-cases (key x == key r)) [
      | inl this ↦ let same : x ≡ old = ground arith in rw this (omega (arith, ap f same))
      | inr other ↦ rw other (omega (arith, total-save_row r rs {old = old} (ground arith)))
    ]

    pub le-total : (k : ℕ) (rs : List R) {r : R} → get_row key k rs ≡ some r → f r ≤ total rs
    le-total k [] e = cc
    le-total k (x ∷ rs) {r} e = elim (Bool-cases (key x == k)) [
      | inl this ↦ let same : x ≡ r = ground arith in omega (arith, ap f same)
      | inr other ↦ omega (arith, le-total k rs {r = r} (ground arith))
    ]
