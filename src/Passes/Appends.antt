-- ===== src/Passes/Appends.antt =====
-- What was added at the end of the publications, for
-- packages/pipeline/eastmed_pipeline/reconciliation_dispatch.py.
use mathlib.Core.List.{append-nil, append_assoc}
use mari_time_system.Prelude.{
  length-append, ℕ, ◌+◌, ◌≤◌, ◌≡◌, sym, ap, ◌∙◌, List, [], ◌++◌, All, All-append, length, arith,
}
use mari_time_system.Publication.State.{Publication, Portal}
use mari_time_system.Cases.Build.{ResultJson}

module _ (account : ℕ) where
  -- At most so many publications of the account were added at the end, and at least so many.
  pub record Appends (least most : ℕ) (s s' : Portal ResultJson) : Type 0 where
    pub added : List (Publication ResultJson)
    pub appended : s'.publications ≡ s.publications ++ added
    pub own : All (λ p. p.account_id ≡ account) added
    pub enough : least ≤ length added
    pub bounded : length added ≤ most

  pub none_added :
      (most : ℕ) (s s' : Portal ResultJson) → s'.publications ≡ s.publications → Appends 0 most s s'
  none_added most s s' e = record {
    added = [];
    appended = e ∙ sym (append-nil s.publications);
    own = tt;
    enough = omega arith;
    bounded = omega arith;
  }

  pub then_added :
      {k m n o : ℕ} (s s' s'' : Portal ResultJson)
      → Appends k m s s'
      → Appends n o s' s''
      → Appends (k + n) (m + o) s s''
  then_added s s' s'' a b = record {
    added = a.added ++ b.added;
    appended =
        b.appended
        ∙ ap (λ ps. ps ++ b.added) a.appended
        ∙ append_assoc s.publications a.added b.added;
    own = All-append (λ p. p.account_id ≡ account) a.added b.added a.own b.own;
    enough = omega (arith, length-append a.added b.added, a.enough, b.enough);
    bounded = omega (arith, length-append a.added b.added, a.bounded, b.bounded);
  }

  pub weakened :
      {k l m : ℕ} (s s' t : Portal ResultJson) → k ≤ l → Appends l m s s' → t ≡ s' → Appends k m s t
  weakened s s' t fewer a e = record {
    added = a.added;
    appended = ap (λ u. u.publications) e ∙ a.appended;
    own = a.own;
    enough = omega (arith, fewer, a.enough);
    bounded = a.bounded;
  }

  pub relaxed :
      {k l m n : ℕ} (s s' : Portal ResultJson) → k ≤ l → m ≤ n → Appends l m s s' → Appends k n s s'
  relaxed s s' fewer more a = record {
    added = a.added;
    appended = a.appended;
    own = a.own;
    enough = omega (arith, fewer, a.enough);
    bounded = omega (arith, more, a.bounded);
  }
