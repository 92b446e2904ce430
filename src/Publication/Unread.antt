-- ===== src/Publication/Unread.antt =====
-- Which tables a read-back of reconciliation_publication.py leaves, and that the publication that it
-- confirms can be confirmed again.
use mari_time_system.Prelude.{
  ℕ, ◌≡◌, refl, ◌∙◌, Option, none, some, Bool, arith, Option-cases, inl, inr,
}
use mari_time_system.Authority.Attestation.{Platform}
use mari_time_system.Publication.State.{AutomationStatus, Intent, Outbox, Publication, Portal}
use mari_time_system.Publication.Lookups.{current_revision, set_case_status}
use mari_time_system.Publication.Publish.{existing_publication, advance_case}
use mari_time_system.Publication.Outbox.{load_outbox}
use mari_time_system.Publication.ReadBack.{
  mark_superseded, mark_confirmed, read_back, reconcile_publication,
}
use mari_time_system.Publication.Confirmed.{Confirmable}

-- Only cases and the outbox may differ.
pub record Unread {Payload : Type 0} (s s' : Portal Payload) : Type 0 where
  pub same_authority : s'.authority ≡ s.authority
  pub same_versions : s'.versions ≡ s.versions
  pub same_publications : s'.publications ≡ s.publications

module _ {Payload : Type 0} where
  advance_case-Unread :
      (account id : ℕ) (status : AutomationStatus) (s : Portal Payload)
      → Unread s (advance_case account id status s)
  unfolding advance_case set_case_status
  advance_case-Unread account id status s = ground arith

  mark_superseded-Unread : (o : Option Outbox) (s : Portal Payload) → Unread s (mark_superseded o s)
  unfolding mark_superseded
  mark_superseded-Unread none s = ground arith
  mark_superseded-Unread (some o) s = ground arith

  mark_confirmed-Unread : (o : Option Outbox) (s : Portal Payload) → Unread s (mark_confirmed o s)
  unfolding mark_confirmed
  mark_confirmed-Unread none s = ground arith
  mark_confirmed-Unread (some o) s = ground arith

  pub reconcile_publication-Unread :
      (platform : Platform Payload) (account : ℕ) (i : Intent) (locked : ℕ → Bool)
      (s : Portal Payload)
      → Unread s (reconcile_publication platform account i locked s).1
  unfolding reconcile_publication read_back
  reconcile_publication-Unread platform account i locked s =
      elim (Option-cases (existing_publication account i.id s)) [
        | inl missing ↦ rw (missing, reconcile_publication) (ground arith)
        | inr (p, found) ↦ rw (found, reconcile_publication) (by_checks p)
      ]
    where
      by_checks : (p : Publication Payload) → Unread s (read_back platform account i locked p s).1
      by_checks p =
          let row = load_outbox account i.id locked s in
          ground (
            arith,
            mark_superseded-Unread row s,
            mark_confirmed-Unread row s,
            advance_case-Unread account p.case_id AutomationStatus.verified_complete
                (mark_confirmed row s),
          )

  existing-Unread :
      (account k : ℕ) (s s' : Portal Payload)
      → Unread s s'
      → existing_publication account k s' ≡ existing_publication account k s
  unfolding existing_publication
  existing-Unread account k s s' h = rw h.same_publications refl

  revision-Unread :
      (account k : ℕ) (s s' : Portal Payload)
      → Unread s s'
      → current_revision account k s' ≡ current_revision account k s
  unfolding current_revision
  revision-Unread account k s s' h = rw h.same_versions refl

  pub Confirmable-Unread :
      (platform : Platform Payload) (account : ℕ) (i : Intent) (locked : ℕ → Bool)
      (s s' : Portal Payload)
      → Unread s s'
      → Confirmable platform account i locked s
      → Confirmable platform account i locked s'
  Confirmable-Unread platform account i locked s s' h c = record {
    publication = c.publication;
    there = existing-Unread account i.id s s' h ∙ c.there;
    hash_holds = c.hash_holds;
    same_content = c.same_content;
    current = rw (revision-Unread account c.publication.case_id s s' h) c.current;
  }
