-- ===== src/Projection/Store/Redelivery.antt =====
-- An event that is delivered again after it was applied.
use record_hub.Base.{
  Text, text_eq, Bool, List, [], ◌∷◌, Option, some, ok, err, Time, ◌≡◌, ◌⊎◌, inl, inr, refl, sym,
  ◌∙◌, arith,
}
use mathlib.Core.Path.{subst}
use record_hub.Database.{Found-cases}
use record_hub.Records.Feed.{RecordFeed}
use record_hub.Projection.Inbox.{InboxEvent, InboxStatus, inbox_status_eq, event_key}
use record_hub.Projection.Store.{
  Stores, ProjectionApply, ApplyError, Collections, validate_apply, check_event, transact, settled,
  apply,
}
use record_hub.Projection.Store.Effect.{Views, AreCollections, Applied}
use record_hub.Projection.Store.Runs.{
  StoreCall, apply_call, log_of, store_step, run_store, Stepped, step-Stepped,
}
use record_hub.Projection.Store.Once.{applied-stored, run_store-Keeps}

check_event_applied :
    (i : ProjectionApply) (e : InboxEvent)
    → e.status ≡ InboxStatus.applied
    → e.payload_hash ≡ i.inbox_event.payload_hash
    → check_event i e ≡ err ApplyError.already_applied
check_event_applied i e done hash = ground arith

module _ {SI SR SP SC SA : Type 0} (db : Collections SI SR SP SC SA) (is_document : Text → Bool)
    (sha256_hex : Text → Text) (view : Views SI SR SP SC SA) (laws : AreCollections db view) where
  transact_again :
      (i : ProjectionApply) (s : Stores db) (e : InboxEvent)
      → view.inbox s.inbox (event_key i.inbox_event) ≡ some e
      → e.status ≡ InboxStatus.applied
      → e.payload_hash ≡ i.inbox_event.payload_hash
      → (transact db i s ≡ err ApplyError.already_applied)
        ⊎ (transact db i s ≡ err ApplyError.database_failed)
  unfolding transact
  transact_again i s e there done hash =
      let key = event_key i.inbox_event in
      elim (Found-cases (db.inbox.find_one key s.inbox)) [
        | inl (d, at) ↦
            let same : d ≡ e = ground (arith, laws.inbox.found_lem key s.inbox d at) in
            let checked : check_event i d ≡ err ApplyError.already_applied =
              subst (λ x. check_event i x ≡ err ApplyError.already_applied) (sym same)
                (check_event_applied i e done hash) in
            inl (rw at (rw checked refl))
        | inr (inl gone) ↦ absurd (ground (arith, laws.inbox.absent_lem key s.inbox gone))
        | inr (inr broken) ↦ inr (rw broken refl)
      ]

  -- The event of a call that logged it is stored as APPLIED.
  logged-stored :
      (i : ProjectionApply) (lg : List ProjectionApply) (s s' : Stores db)
      → lg ≡ i ∷ []
      → Stepped db is_document sha256_hex view laws lg s s'
      → (e : InboxEvent) × (view.inbox s'.inbox (event_key i.inbox_event) ≡ some e)
        × (e.status ≡ InboxStatus.applied)
        × (e.payload_hash ≡ i.inbox_event.payload_hash)
  logged-stored i lg s s' logged_ (inl (nothing, _)) = absurd (cc)
  logged-stored i lg s s' logged_ (inr (i', one, done)) =
      let same : i' ≡ i = cc in
      applied-stored db is_document sha256_hex view laws i s s'
        (subst (λ x. Applied db view laws x s s') same done)

  -- After Apply has applied an event, whatever calls follow, Apply for the same event and payload
  -- changes neither the collections nor the feed, and returns no error unless the database fails.
  pub redelivered :
      (i j : ProjectionApply) (now later : Time) (s : Stores db) (feed : Option RecordFeed)
      (calls : List StoreCall)
      → log_of db is_document sha256_hex (apply_call now i) s ≡ i ∷ []
      → validate_apply is_document j ≡ ok tt
      → event_key j.inbox_event ≡ event_key i.inbox_event
      → j.inbox_event.payload_hash ≡ i.inbox_event.payload_hash
      → let (s1, feed1) = store_step db is_document sha256_hex (apply_call now i) s feed in
        let (log, s2, feed2) = run_store db is_document sha256_hex calls s1 feed1 in
        (apply db is_document later j s2 feed2 ≡ (ok tt, s2, feed2))
        ⊎ (apply db is_document later j s2 feed2 ≡ (err ApplyError.database_failed, s2, feed2))
  unfolding apply settled
  redelivered i j now later s feed calls logged_ valid same hash =
      let (s1, feed1) = store_step db is_document sha256_hex (apply_call now i) s feed in
      let (log, s2, feed2) = run_store db is_document sha256_hex calls s1 feed1 in
      let (e, there, done, stored) =
        logged-stored i (log_of db is_document sha256_hex (apply_call now i) s) s s1 logged_
          (step-Stepped db is_document sha256_hex view laws (apply_call now i) s feed) in
      let kept : view.inbox s2.inbox (event_key i.inbox_event) ≡ some e =
        (run_store-Keeps db is_document sha256_hex view laws calls s1 feed1
            (event_key i.inbox_event)).settled
          e there (ground arith) in
      elim (transact_again j s2 e (rw same kept) done (stored ∙ sym hash)) [
        | inl again ↦ inl (rw valid (rw again refl))
        | inr broken ↦ inr (rw valid (rw broken refl))
      ]
