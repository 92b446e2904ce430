-- ===== src/Publication/AtMostOnce.antt =====
-- An intent of reconciliation_publication.py is published at most once.
use mari_time_system.Prelude.{
  ℕ, String, ◌≤◌, ◌≡◌, refl, List, [], ◌∷◌, map, arith, map-Keyed, total, Bool-cases, inl, inr,
}
use mari_time_system.Authority.Attestation.{Platform}
use mari_time_system.Publication.State.{Intent, Outbox, Portal}
use mari_time_system.Publication.ReadBack.{
  is_invalid, invalidate_row, invalidate_pending_publications,
}
use mari_time_system.Publication.Once.{row_weight, open_weight, publications_of, PortalOk}
use mari_time_system.Publication.Runs.{
  PortalOp, propose, publish, reconcile, invalidate, elsewhere, portal_step, portal_run,
}
use mari_time_system.Publication.Runs.Proposed.{proposed-PortalOk}
use mari_time_system.Publication.Runs.Published.{published_call-PortalOk}
use mari_time_system.Publication.Runs.Confirmed.{reconciled-PortalOk}
use mari_time_system.Publication.Once.{same_tables}

module _ (account case_id current : ℕ) (intents : List Intent) where
  invalidate_row-id : (o : Outbox) → (invalidate_row account case_id current intents o).id ≡ o.id
  unfolding invalidate_row
  invalidate_row-id o = ground arith

  invalidated-weights :
      (A k : ℕ) (o : Outbox)
      → (row_weight A k (invalidate_row account case_id current intents o) ≡ row_weight A k o)
        × (open_weight A k (invalidate_row account case_id current intents o) ≤ open_weight A k o)
  unfolding invalidate_row
  invalidated-weights A k o = elim (Bool-cases (is_invalid account case_id current intents o)) [
    | inl outdated ↦ rw outdated (refl, ground arith)
    | inr kept ↦ rw kept (refl, omega arith)
  ]

  invalidated-rows :
      (A k : ℕ) (rows : List Outbox)
      → total (row_weight A k) (map (invalidate_row account case_id current intents) rows)
        ≡ total (row_weight A k) rows
  invalidated-rows A k [] = refl
  invalidated-rows A k (o ∷ rows) =
      omega (arith, (invalidated-weights A k o).0, invalidated-rows A k rows)

  invalidated-open :
      (A k : ℕ) (rows : List Outbox)
      → total (open_weight A k) (map (invalidate_row account case_id current intents) rows)
        ≤ total (open_weight A k) rows
  invalidated-open A k [] = omega arith
  invalidated-open A k (o ∷ rows) =
      omega (arith, (invalidated-weights A k o).1, invalidated-open A k rows)

module _ {Payload : Type 0} (platform : Platform Payload)
    (calculator_version : Payload → String) where
  invalidated-PortalOk :
      (account case_id current : ℕ) (s : Portal Payload)
      → PortalOk s
      → PortalOk (invalidate_pending_publications account case_id current s).1
  unfolding invalidate_pending_publications
  invalidated-PortalOk account case_id current s h = record {
    keyed =
        map-Keyed (λ o. o.id) (invalidate_row account case_id current s.intents)
          (invalidate_row-id account case_id current s.intents) s.outbox h.keyed;
    intents_ok = λ A k. record {
      one_effect = omega (
        arith,
        (h.intents_ok A k).one_effect,
        invalidated-open account case_id current s.intents A k s.outbox,
      );
      backed = omega (
        arith,
        (h.intents_ok A k).backed,
        invalidated-rows account case_id current s.intents A k s.outbox,
      );
    };
  }

  portal_step-PortalOk :
      (op : PortalOp Payload) (s : Portal Payload)
      → PortalOk s
      → PortalOk (portal_step platform calculator_version op s)
  unfolding portal_step
  portal_step-PortalOk
        (propose keys account c version subject fingerprint destination case_type moment stop) s h =
      proposed-PortalOk platform calculator_version keys account c version subject fingerprint
        destination case_type moment stop s _ refl h
  portal_step-PortalOk (publish new_id account i payload moment stop locked) s h =
      published_call-PortalOk platform new_id account i payload moment stop locked s _ refl h
  portal_step-PortalOk (reconcile account i locked) s h =
      reconciled-PortalOk platform account i locked s h
  portal_step-PortalOk (invalidate account case_id current) s h =
      invalidated-PortalOk account case_id current s h
  portal_step-PortalOk (elsewhere authority cases versions verdicts) s h =
      same_tables s
        (record s {
          authority = authority;
          cases = cases;
          versions = versions;
          verdicts = verdicts;
        })
        refl refl h

  portal_run-PortalOk :
      (ops : List (PortalOp Payload)) (s : Portal Payload)
      → PortalOk s
      → PortalOk (portal_run platform calculator_version ops s)
  unfolding portal_run
  portal_run-PortalOk [] s h = h
  portal_run-PortalOk (op ∷ ops) s h =
      portal_run-PortalOk ops (portal_step platform calculator_version op s)
        (portal_step-PortalOk op s h)

  -- Over any interleaving of proposals, publications, read-backs, invalidations and changes that
  -- other parts of the system make to their tables, an intent has at most one publication, if at
  -- the start no intent had both a publication and an open row, or two of them, and each
  -- publication had its row.
  pub published_at_most_once :
      (account intent_id : ℕ) (ops : List (PortalOp Payload)) (s : Portal Payload)
      → PortalOk s
      → publications_of account intent_id (portal_run platform calculator_version ops s) ≤ 1
  published_at_most_once account intent_id ops s h =
      omega (arith, ((portal_run-PortalOk ops s h).intents_ok account intent_id).one_effect)
