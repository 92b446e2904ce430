-- ===== src/Publication/Once.antt =====
-- One intent has at most one publication, whatever calls of reconciliation_publication.py are made.
use mari_time_system.Prelude.{
  ℕ, ◌+◌, ◌≤◌, ◌≡◌, refl, sym, subst, some, List, [], ◌∷◌, Bool, true, not, ◌&&◌, ◌==◌, arith,
  if◌then◌else◌, find, All-find, get_row, save_row, Keyed, Keyed-get_row, save_row-Keyed, total,
  total-save_row,
}
use mari_time_system.Authority.Policy.{DenyReason}
use mari_time_system.Publication.State.{Outbox, Publication, Portal}
use mari_time_system.Publication.Outbox.{
  is_undispatched, load_outbox, save_outbox, claim_outbox, refuse_outbox,
}
use mari_time_system.Publication.ReadBack.{supersede_outbox, confirm_outbox}

-- The row is one of the account's intent.
abbrev pub of_intent : ℕ → ℕ → Outbox → Bool
of_intent account intent_id o = o.account_id == account && o.intent_id == intent_id

abbrev pub row_weight : ℕ → ℕ → Outbox → ℕ
row_weight account intent_id o = if of_intent account intent_id o then 1 else 0

-- An open row may still lead to a publication.
abbrev pub open_weight : ℕ → ℕ → Outbox → ℕ
open_weight account intent_id o =
    if of_intent account intent_id o && is_undispatched o.status then 1 else 0

abbrev pub sent_weight : {Payload : Type 0} → ℕ → ℕ → Publication Payload → ℕ
sent_weight account intent_id p =
    if p.account_id == account && p.intent_id == intent_id then 1 else 0

-- How many publications an intent of the account has.
abbrev pub publications_of : {Payload : Type 0} → ℕ → ℕ → Portal Payload → ℕ
publications_of account intent_id s = total (sent_weight account intent_id) s.publications

-- An intent's publications and its open rows make one at most, and without a row it has neither.
pub record IntentOk {Payload : Type 0} (account intent_id : ℕ) (rows : List Outbox)
    (ps : List (Publication Payload)) : Type 0 where
  pub one_effect :
      total (sent_weight account intent_id) ps + total (open_weight account intent_id) rows ≤ 1
  pub backed : total (sent_weight account intent_id) ps ≤ total (row_weight account intent_id) rows

pub record PortalOk {Payload : Type 0} (s : Portal Payload) : Type 0 where
  pub keyed : Keyed (λ o. o.id) s.outbox
  pub intents_ok : (account intent_id : ℕ) → IntentOk account intent_id s.outbox s.publications

-- A row that replaces one of the same intent, and is open only if that was.
pub record Lowers (o o' : Outbox) : Type 0 where
  pub same_id : o'.id ≡ o.id
  pub same_account : o'.account_id ≡ o.account_id
  pub same_intent : o'.intent_id ≡ o.intent_id
  pub opens_none : is_undispatched o'.status ≡ true → is_undispatched o.status ≡ true

module _ (account intent_id : ℕ) (o o' : Outbox) (lowers : Lowers o o') (rows : List Outbox)
    (stored : get_row (λ x. x.id) o'.id rows ≡ some o) where
  save-rows :
      total (row_weight account intent_id) (save_row (λ x. x.id) o' rows)
      ≡ total (row_weight account intent_id) rows
  save-rows = omega (
    arith,
    total-save_row (row_weight account intent_id) (λ x. x.id) o' rows {old = o} stored,
    same_weight,
  )
    where
      same_weight : row_weight account intent_id o' ≡ row_weight account intent_id o
      same_weight = rw (lowers.same_account, lowers.same_intent) refl

  save-open :
      total (open_weight account intent_id) (save_row (λ x. x.id) o' rows)
        + open_weight account intent_id o
      ≡ total (open_weight account intent_id) rows + open_weight account intent_id o'
  save-open = total-save_row (open_weight account intent_id) (λ x. x.id) o' rows {old = o} stored

  lower_weight : open_weight account intent_id o' ≤ open_weight account intent_id o
  lower_weight = ground (arith, lowers.same_account, lowers.same_intent, lowers.opens_none)

  save-IntentOk :
      {Payload : Type 0}
      → (ps : List (Publication Payload)) → IntentOk account intent_id rows ps
      → IntentOk account intent_id (save_row (λ x. x.id) o' rows) ps
  save-IntentOk ps h = record {
    one_effect = omega (arith, h.one_effect, save-open, lower_weight);
    backed = omega (arith, h.backed, save-rows);
  }

module _ {Payload : Type 0} where
  -- A loaded row is found by its key, and is one of the intent.
  pub loaded_row :
      (account intent_id : ℕ) (locked : ℕ → Bool) (s : Portal Payload) (o : Outbox)
      → Keyed (λ x. x.id) s.outbox
      → load_outbox account intent_id locked s ≡ some o
      → (get_row (λ x. x.id) o.id s.outbox ≡ some o) × (of_intent account intent_id o ≡ true)
  unfolding load_outbox
  loaded_row account intent_id locked s o keyed e = (
    All-find (λ x. get_row (λ y. y.id) x.id s.outbox ≡ some x) _ s.outbox
        (Keyed-get_row (λ x. x.id) s.outbox keyed) e,
    passes s.outbox e,
  )
    where
      passes :
          (rows : List Outbox)
          → find
              (λ x. (x.account_id == account && x.intent_id == intent_id) && not (locked x.id))
              rows
            ≡ some o
          → of_intent account intent_id o ≡ true
      passes [] p = cc
      passes (x ∷ rows) p = ground (arith, passes rows)

  pub save-PortalOk :
      (o o' : Outbox) (s : Portal Payload)
      → Lowers o o'
      → get_row (λ x. x.id) o.id s.outbox ≡ some o
      → PortalOk s
      → PortalOk (save_outbox o' s)
  save-PortalOk o o' s lowers stored h = record {
    keyed = save_row-Keyed (λ x. x.id) o' s.outbox h.keyed;
    intents_ok = λ account intent_id.
        save-IntentOk account intent_id o o' lowers s.outbox
          (subst (λ k. get_row (λ x. x.id) k s.outbox ≡ some o) (sym lowers.same_id) stored)
          s.publications (h.intents_ok account intent_id);
  }

  pub same_tables :
      (s s' : Portal Payload)
      → s'.outbox ≡ s.outbox
      → s'.publications ≡ s.publications
      → PortalOk s
      → PortalOk s'
  same_tables s s' p q h = record {
    keyed = rw p h.keyed;
    intents_ok = λ account intent_id. rw (p, q) (h.intents_ok account intent_id);
  }

pub claim-Lowers :
    (moment : ℕ) (o : Outbox) → is_undispatched o.status ≡ true → Lowers o (claim_outbox moment o)
unfolding claim_outbox
claim-Lowers moment o row_open = record {
  same_id = refl;
  same_account = refl;
  same_intent = refl;
  opens_none = λ _. row_open;
}

pub refuse-Lowers :
    (reason : DenyReason) (moment : ℕ) (o : Outbox)
    → Lowers (claim_outbox moment o) (refuse_outbox reason (claim_outbox moment o))
unfolding claim_outbox refuse_outbox
refuse-Lowers reason moment o = record {
  same_id = refl;
  same_account = refl;
  same_intent = refl;
  opens_none = λ _. refl;
}

pub supersede-Lowers : (o : Outbox) → Lowers o (supersede_outbox o)
supersede-Lowers o = record {
  same_id = refl;
  same_account = refl;
  same_intent = refl;
  opens_none = λ h. absurd (cc);
}

pub confirm-Lowers : (o : Outbox) → Lowers o (confirm_outbox o)
confirm-Lowers o = record {
  same_id = refl;
  same_account = refl;
  same_intent = refl;
  opens_none = λ h. absurd (cc);
}
