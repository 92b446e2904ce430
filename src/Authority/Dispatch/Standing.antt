-- ===== src/Authority/Dispatch/Standing.antt =====
-- What `authorize_dispatch` of reconciliation_policy.py reads of grants, ends and other attestations.
use mari_time_system.Prelude.{
  ℕ, ◌≡◌, ◌≤◌, refl, String, List, [], ◌∷◌, All, get_row, ==→≡, Option, none, some, true, false,
  ==-refl, arith, eq_iff, ◌↔◌, subst, any, ◌&&◌, ◌==◌, Option-cases, Bool-cases, inl, inr,
}
use mari_time_system.Authority.Attestation.{Grant, Attestation, AuthorityStore}
use mari_time_system.Authority.Dispatch.{live_grant, expired, same_dispatched}

-- The attestation is none of the account's for the action, or it was not dispatched.
abbrev pub Undispatched : ℕ → String → Attestation → Type 0
Undispatched account key a = a.account_id ≡ account → a.action_key ≡ key → a.dispatched_at ≡ none

-- What `live_grant` finds.
pub record Live (account : ℕ) (a : Attestation) (s : AuthorityStore) (g : Grant) : Type 0 where
  pub id : ℕ
  pub named : a.grant_id ≡ some id
  pub stored : get_row (λ x. x.id) id s.grants ≡ some g
  pub own : g.account_id ≡ account
  pub active : g.terms.active ≡ true

pub live_grant-Live :
    (account : ℕ) (a : Attestation) (s : AuthorityStore) (g : Grant)
    → live_grant account a s ≡ some g
    → Live account a s g
unfolding live_grant
live_grant-Live account a s g e = elim (Option-cases a.grant_id) [
  | inl unnamed ↦ absurd (ground arith)
  | inr (id, named) ↦ elim (Option-cases (get_row (λ x. x.id) id s.grants)) [
    | inl missing ↦ absurd (ground arith)
    | inr (h, found) ↦ elim (Bool-cases (h.account_id == account && h.terms.active)) [
      | inl live ↦
          let same : h ≡ g = ground arith in
          subst (Live account a s) same (record {
            id = id;
            named = named;
            stored = found;
            own = ==→≡ h.account_id account (ground arith);
            active = ground arith;
          })
      | inr dead ↦ absurd (ground arith)
    ]
  ]
]

pub Live-live_grant :
    (account : ℕ) (a : Attestation) (s : AuthorityStore) (g : Grant)
    → Live account a s g
    → live_grant account a s ≡ some g
unfolding live_grant
Live-live_grant account a s g l =
    rw (l.named, live_grant) (rw l.stored (rw (l.own, l.active) (rw (==-refl account) refl)))

pub unexpired_iff :
    (moment : ℕ) (o : Option ℕ)
    → (expired moment o ≡ false) ↔ ((at : ℕ) × (o ≡ some at) × (moment ≤ at))
unexpired_iff moment none = ((λ h. absurd (cc)), (λ (at, e, h). absurd (cc)))
unexpired_iff moment (some at) =
    ((λ h. (at, refl, ground arith)), (λ (t, e, h). let same : at ≡ t = cc in ground arith))

pub undispatched :
    (account : ℕ) (key : String) (xs : List Attestation)
    → any (same_dispatched account key) xs ≡ false
    → All (Undispatched account key) xs
undispatched account key [] h = tt
undispatched account key (a ∷ xs) h = (
  (λ own same. elim (Option-cases a.dispatched_at) [
    | inl free ↦ free
    | inr (at, stamped) ↦ absurd (ground (arith, ==-refl account, eq_iff a.action_key key))
  ]),
  undispatched account key xs (ground arith),
)

pub not_dispatched :
    (account : ℕ) (key : String) (xs : List Attestation)
    → All (Undispatched account key) xs
    → any (same_dispatched account key) xs ≡ false
not_dispatched account key [] h = refl
not_dispatched account key (a ∷ xs) h = ground (
  arith,
  not_dispatched account key xs h.1,
  h.0,
  ==→≡ a.account_id account,
  eq_iff a.action_key key,
)
