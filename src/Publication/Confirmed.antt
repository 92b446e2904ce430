-- ===== src/Publication/Confirmed.antt =====
-- The read-back and the invalidation of reconciliation_publication.py.
use mari_time_system.Prelude.{
  ℕ, ◌<◌, ◌≡◌, refl, sym, subst, ◌∙◌, eq_iff, Option, none, some, List, [], ◌∷◌, map, Bool, true,
  false, not, ◌&&◌, ◌==◌, ==→≡, ==-refl, arith, ◌↔◌, find, get_row, ok, Option-cases, Bool-cases,
  inl, inr,
}
use mari_time_system.Authority.Policy.{DenyReason}
use mari_time_system.Authority.Attestation.{Platform}
use mari_time_system.Publication.State.{
  OutboxStatus, Intent, Outbox, Publication, Portal, PublishResult,
}
use mari_time_system.Publication.Lookups.{current_revision}
use mari_time_system.Publication.Publish.{
  existing_publication, not_published_because, publication_key, publish_row, publish_case,
}
use mari_time_system.Publication.Outbox.{is_sent, is_closed, is_undispatched, load_outbox}
use mari_time_system.Publication.ReadBack.{
  is_superseded, mark_superseded, read_back, reconcile_publication, is_outdated, is_invalid,
  invalidate_row, invalidate_pending_publications,
}

module _ {Payload : Type 0} (platform : Platform Payload) (account : ℕ) (i : Intent)
    (locked : ℕ → Bool) (s : Portal Payload) where
  -- The publication of the intent is there, what is stored still hashes to the content that the
  -- intent binds, and no newer revision of the case supersedes it.
  pub record Confirmable : Type 0 where
    pub publication : Publication Payload
    pub there : existing_publication account i.id s ≡ some publication
    pub hash_holds : platform.canonical_payload_hash publication.result ≡ publication.content_hash
    pub same_content : publication.content_hash ≡ i.content_hash
    pub current :
        is_superseded (current_revision account publication.case_id s) publication.case_revision
        ≡ false

  existing_publication-account :
      (p : Publication Payload)
      → existing_publication account i.id s ≡ some p
      → p.account_id == account ≡ true
  unfolding existing_publication
  existing_publication-account p e = in_rows s.publications e
    where
      in_rows :
          (ps : List (Publication Payload))
          → find (λ x. x.account_id == account && x.intent_id == i.id) ps ≡ some p
          → p.account_id == account ≡ true
      in_rows [] q = cc
      in_rows (x ∷ ps) q = ground (arith, in_rows ps)

  mark_superseded-cases : (o : Option Outbox) → (mark_superseded o s).cases ≡ s.cases
  unfolding mark_superseded
  mark_superseded-cases none = refl
  mark_superseded-cases (some o) = ground arith

  read_back-Confirmable :
      (p : Publication Payload)
      → existing_publication account i.id s ≡ some p
      → ((read_back platform account i locked p s).0.confirmed ≡ true) ↔ (
          (platform.canonical_payload_hash p.result ≡ p.content_hash)
          × (p.content_hash ≡ i.content_hash)
          × (is_superseded (current_revision account p.case_id s) p.case_revision ≡ false))
  unfolding read_back
  read_back-Confirmable p e = ground (
    arith,
    existing_publication-account p e,
    eq_iff (platform.canonical_payload_hash p.result) p.content_hash,
    eq_iff p.content_hash i.content_hash,
  )

  read_back-cases :
      (p : Publication Payload)
      → (read_back platform account i locked p s).0.confirmed ≡ false
      → (read_back platform account i locked p s).1.cases ≡ s.cases
  unfolding read_back
  read_back-cases p h = ground (arith, mark_superseded-cases (load_outbox account i.id locked s))

  read_call :
      (p : Publication Payload)
      → existing_publication account i.id s ≡ some p
      → reconcile_publication platform account i locked s ≡ read_back platform account i locked p s
  unfolding reconcile_publication
  read_call p e = rw (e, reconcile_publication) refl

  pub reconcile_publication_iff_Confirmable :
      (((reconcile_publication platform account i locked s).0.confirmed ≡ true) ↔ Confirmable)
      × ((reconcile_publication platform account i locked s).0.confirmed ≡ false
          → (reconcile_publication platform account i locked s).1.cases ≡ s.cases)
  unfolding reconcile_publication
  reconcile_publication_iff_Confirmable =
      elim (Option-cases (existing_publication account i.id s)) [
        | inl missing ↦ (
          (λ h. absurd (ground arith), λ c. absurd (nothing (sym missing ∙ c.there))),
          λ h. rw (missing, reconcile_publication) refl,
        )
        | inr (p, found) ↦
            let iff = read_back-Confirmable p found in
            (
              (
                λ h.
                    let (holds, same, now) =
                      iff.0 (subst (λ z. z.0.confirmed ≡ true) (read_call p found) h) in
                    record {
                      publication = p;
                      there = found;
                      hash_holds = holds;
                      same_content = same;
                      current = now;
                    },
                λ c.
                    subst (λ z. z.0.confirmed ≡ true) (sym (read_call c.publication c.there))
                      ((read_back-Confirmable c.publication c.there).1
                        (c.hash_holds, c.same_content, c.current)),
              ),
              λ h.
                  subst (λ z. z.1.cases ≡ s.cases) (sym (read_call p found))
                    (read_back-cases p (subst (λ z. z.0.confirmed ≡ false) (read_call p found) h)),
            )
      ]
    where
      nothing : {p : Publication Payload} → none ≡ some p → ⊥
      nothing q = cc

module _ {Payload : Type 0} (platform : Platform Payload) (account case_id current : ℕ) (i : Intent)
    (s : Portal Payload) (stored : get_row (λ x. x.id) i.id s.intents ≡ some i)
    (of_case : i.case_id ≡ case_id) (older : i.case_revision < current) where
  none_open :
      (o : Outbox)
      → o.account_id == account ≡ true
      → o.intent_id == i.id ≡ true
      → is_undispatched (invalidate_row account case_id current s.intents o).status ≡ false
  unfolding invalidate_row is_invalid is_outdated
  none_open o mine this =
      let found : get_row (λ x. x.id) o.intent_id s.intents ≡ some i =
        subst (λ k. get_row (λ x. x.id) k s.intents ≡ some i) (sym (==→≡ o.intent_id i.id this))
          stored in
      elim (Bool-cases (is_undispatched o.status)) [
        | inl row_open ↦
            rw (found, is_outdated)
              (rw mine (rw of_case (rw (==-refl case_id) (ground (arith, row_open, older)))))
        | inr closed ↦ ground (arith, closed)
      ]

  kept_key :
      (x : Outbox)
      → ((invalidate_row account case_id current s.intents x).account_id ≡ x.account_id)
        × ((invalidate_row account case_id current s.intents x).intent_id ≡ x.intent_id)
  unfolding invalidate_row
  kept_key x = elim (Bool-cases (is_invalid account case_id current s.intents x)) [
    | inl outdated ↦ rw outdated (refl, refl)
    | inr kept ↦ rw kept (refl, refl)
  ]

  invalidated_rows :
      (locked : ℕ → Bool) (rows : List Outbox) (o : Outbox)
      → find
          (λ x. (x.account_id == account && x.intent_id == i.id) && not (locked x.id))
          (map (invalidate_row account case_id current s.intents) rows)
        ≡ some o
      → is_undispatched o.status ≡ false
  invalidated_rows locked [] o e = cc
  invalidated_rows locked (x ∷ rows) o e =
      ground (arith, invalidated_rows locked rows o, none_open x, kept_key x)

  settled :
      (locked : ℕ → Bool) (o : Outbox)
      → load_outbox account i.id locked
          (invalidate_pending_publications account case_id current s).1
        ≡ some o
      → is_undispatched o.status ≡ false
  unfolding load_outbox invalidate_pending_publications
  settled locked o e = invalidated_rows locked s.outbox o e

  undispatched-settled :
      (t : OutboxStatus) → is_undispatched t ≡ false → is_sent t ≡ false → is_closed t ≡ true
  undispatched-settled OutboxStatus.pending p q = sym p
  undispatched-settled OutboxStatus.claimed p q = sym p
  undispatched-settled OutboxStatus.dispatched p q = sym q
  undispatched-settled OutboxStatus.reconciled p q = sym q
  undispatched-settled OutboxStatus.invalidated p q = refl
  undispatched-settled OutboxStatus.effect_unknown p q = refl

  -- Once the pending publications of a superseded revision are invalidated, no call publishes an
  -- intent of that case at an earlier revision: it answers without publishing and changes nothing.
  pub invalidate_pending_publications-stops :
      (new_id : ℕ) (payload : Payload) (moment : ℕ) (stop : Bool) (locked : ℕ → Bool)
      → (r : PublishResult) × (publish_case platform new_id account i payload moment stop locked
            (invalidate_pending_publications account case_id current s).1
          ≡ ok (r, (invalidate_pending_publications account case_id current s).1))
        × (r.published ≡ false)
  unfolding publish_case publish_row
  invalidate_pending_publications-stops new_id payload moment stop locked =
      elim (Option-cases (load_outbox account i.id locked s')) [
        | inl missing ↦ (
          not_published_because DenyReason.denied_authority none,
          rw (missing, publish_case) refl,
          refl,
        )
        | inr (o, loaded) ↦ elim (Bool-cases (is_sent o.status)) [
          | inl sent ↦ (
            not_published_because DenyReason.duplicate_action
                (publication_key (existing_publication account i.id s')),
            rw (loaded, publish_case) (rw (sent, publish_row) refl),
            refl,
          )
          | inr unsent ↦
              let closed = undispatched-settled o.status (settled locked o loaded) unsent in
              (
                not_published_because DenyReason.denied_authority none,
                rw (loaded, publish_case)
                    (rw (unsent, publish_row) (rw (closed, publish_row) refl)),
                refl,
              )
        ]
      ]
    where
      s' : Portal Payload
      s' = (invalidate_pending_publications account case_id current s).1
