-- ===== src/Publication/Runs/Confirmed.antt =====
-- A read-back of reconciliation_publication.py keeps the account of effects.
use mari_time_system.Prelude.{ℕ, Bool, arith, Option-cases, Bool-cases, inl, inr}
use mari_time_system.Authority.Attestation.{Platform}
use mari_time_system.Publication.State.{AutomationStatus, Intent, Publication, Portal}
use mari_time_system.Publication.Publish.{existing_publication, advance_case}
use mari_time_system.Publication.Outbox.{is_final, load_outbox}
use mari_time_system.Publication.ReadBack.{
  supersede_outbox, confirm_outbox, mark_superseded, mark_confirmed, read_back,
  reconcile_publication,
}
use mari_time_system.Publication.Effect.{advance_case-tables}
use mari_time_system.Publication.Once.{
  loaded_row, save-PortalOk, supersede-Lowers, confirm-Lowers, PortalOk,
}
use mari_time_system.Publication.Once.{same_tables}

module _ {Payload : Type 0} (platform : Platform Payload) where
  advanced-PortalOk :
      (account id : ℕ) (status : AutomationStatus) (s : Portal Payload)
      → PortalOk s
      → PortalOk (advance_case account id status s)
  advanced-PortalOk account id status s h =
      let tables = advance_case-tables account id status s in
      same_tables s (advance_case account id status s) tables.2 tables.1 h

  superseded-PortalOk :
      (account k : ℕ) (locked : ℕ → Bool) (s : Portal Payload)
      → PortalOk s
      → PortalOk (mark_superseded (load_outbox account k locked s) s)
  unfolding mark_superseded
  superseded-PortalOk account k locked s h = elim (Option-cases (load_outbox account k locked s)) [
    | inl missing ↦ rw (missing, mark_superseded) h
    | inr (o, loaded) ↦ elim (Bool-cases (is_final o.status)) [
      | inl final ↦ rw (loaded, mark_superseded) (rw final h)
      | inr waiting ↦
          rw (loaded, mark_superseded)
            (rw waiting (
              save-PortalOk o (supersede_outbox o) s (supersede-Lowers o)
                (loaded_row account k locked s o h.keyed loaded).0 h))
    ]
  ]

  confirmed-PortalOk :
      (account k : ℕ) (locked : ℕ → Bool) (s : Portal Payload)
      → PortalOk s
      → PortalOk (mark_confirmed (load_outbox account k locked s) s)
  unfolding mark_confirmed
  confirmed-PortalOk account k locked s h = elim (Option-cases (load_outbox account k locked s)) [
    | inl missing ↦ rw (missing, mark_confirmed) h
    | inr (o, loaded) ↦
        rw (loaded, mark_confirmed)
          (save-PortalOk o (confirm_outbox o) s (confirm-Lowers o)
            (loaded_row account k locked s o h.keyed loaded).0 h)
  ]

  pub reconciled-PortalOk :
      (account : ℕ) (i : Intent) (locked : ℕ → Bool) (s : Portal Payload)
      → PortalOk s
      → PortalOk (reconcile_publication platform account i locked s).1
  unfolding reconcile_publication read_back
  reconciled-PortalOk account i locked s h =
      elim (Option-cases (existing_publication account i.id s)) [
        | inl missing ↦ rw (missing, reconcile_publication) h
        | inr (p, found) ↦ rw (found, reconcile_publication) (by_checks p)
      ]
    where
      by_checks : (p : Publication Payload) → PortalOk (read_back platform account i locked p s).1
      by_checks p = ground (
        arith,
        h,
        superseded-PortalOk account i.id locked s h,
        advanced-PortalOk account p.case_id AutomationStatus.verified_complete
            (mark_confirmed (load_outbox account i.id locked s) s)
            (confirmed-PortalOk account i.id locked s h),
      )
