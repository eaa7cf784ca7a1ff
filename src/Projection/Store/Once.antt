-- ===== src/Projection/Store/Once.antt =====
-- No event is applied twice, and the audit trail has an entry for each that is.
use record_hub.Base.{
  Text, text_eq, Bool, List, [], ◌∷◌, ◌++◌, All, All-append, Option, some, ◌≡◌, ◌≢◌, inl, inr, refl,
  ap, arith,
}
use mathlib.Core.Path.{subst}
use record_hub.Records.Feed.{RecordFeed}
use record_hub.Projection.Inbox.{
  InboxEvent, InboxStatus, inbox_status_eq, EventKey, event_key_eq, event_key, is_processing,
  mark_applied_set,
}
use record_hub.Projection.Inbox.Laws.{KeepsAll, KeepsAll-same, KeepsAll-trans}
use record_hub.Projection.Store.{Stores, ProjectionApply, Collections}
use record_hub.Projection.Store.Effect.{Views, AreCollections, Applied}
use record_hub.Projection.Store.Runs.{
  StoreCall, event_keys, log_of, store_step, run_store, Stepped, step-Stepped, marked-Keeps,
}

abbrev pub Distinct : List EventKey → Type 0
Distinct [] = Unit
Distinct (k ∷ ks) = All (λ j. j ≢ k) ks × Distinct ks

module _ {SI SR SP SC SA : Type 0} (db : Collections SI SR SP SC SA) (is_document : Text → Bool)
    (sha256_hex : Text → Text) (view : Views SI SR SP SC SA) (laws : AreCollections db view) where
  Stepped-Keeps :
      (lg : List ProjectionApply) (s s' : Stores db)
      → Stepped db is_document sha256_hex view laws lg s s'
      → KeepsAll db.inbox view.inbox laws.inbox s.inbox s'.inbox
  Stepped-Keeps lg s s' (inl (nothing, same)) = same.inbox
  Stepped-Keeps lg s s' (inr (i, one, done)) =
      marked-Keeps db is_document sha256_hex view laws i s.inbox s'.inbox done.marked

  pub run_store-Keeps :
      (calls : List StoreCall) (s : Stores db) (feed : Option RecordFeed)
      → KeepsAll db.inbox view.inbox laws.inbox s.inbox
          (run_store db is_document sha256_hex calls s feed).1.inbox
  unfolding run_store
  run_store-Keeps [] s feed = KeepsAll-same db.inbox view.inbox laws.inbox s.inbox
  run_store-Keeps (call ∷ calls) s feed =
      let (s1, feed1) = store_step db is_document sha256_hex call s feed in
      KeepsAll-trans db.inbox view.inbox laws.inbox s.inbox s1.inbox
        (run_store db is_document sha256_hex calls s1 feed1).1.inbox
        (Stepped-Keeps (log_of db is_document sha256_hex call s) s s1
          (step-Stepped db is_document sha256_hex view laws call s feed))
        (run_store-Keeps calls s1 feed1)

  -- An event that was applied is stored as APPLIED.
  pub applied-stored :
      (i : ProjectionApply) (s s' : Stores db)
      → Applied db view laws i s s'
      → (e : InboxEvent) × (view.inbox s'.inbox (event_key i.inbox_event) ≡ some e)
        × (e.status ≡ InboxStatus.applied)
        × (e.payload_hash ≡ i.inbox_event.payload_hash)
  applied-stored i s s' done =
      let (e, there, open_, hash) = done.processing in
      let (n, at) = done.marked in
      let key = event_key i.inbox_event in
      (
        mark_applied_set i.checkpoint.synced_at e,
        ground (
          arith,
          laws.inbox.update_lem key is_processing (mark_applied_set i.checkpoint.synced_at) n
              s.inbox s'.inbox at key,
        ),
        refl,
        hash,
      )

  -- What is settled is not applied.
  Stepped-settled :
      (lg : List ProjectionApply) (s s' : Stores db) (key : EventKey) (e : InboxEvent)
      → Stepped db is_document sha256_hex view laws lg s s'
      → view.inbox s.inbox key ≡ some e
      → e.status ≢ InboxStatus.processing
      → All (λ k. k ≢ key) (event_keys lg)
  Stepped-settled lg s s' key e (inl (nothing, same)) there closed = rw nothing tt
  Stepped-settled lg s s' key e (inr (i, one, done)) there closed =
      let (e', there', open_, hash) = done.processing in
      rw one
        (λ here. closed (go e' (subst (λ k. view.inbox s.inbox k ≡ some e') here there') open_), tt)
    where
      go :
          (e' : InboxEvent)
          → view.inbox s.inbox key ≡ some e'
          → e'.status ≡ InboxStatus.processing
          → e.status ≡ InboxStatus.processing
      go e' there' open_ = ground arith

  event_keys-append :
      (front back : List ProjectionApply)
      → event_keys (front ++ back) ≡ event_keys front ++ event_keys back
  event_keys-append [] back = refl
  event_keys-append (i ∷ front) back =
      ap (λ r. event_key i.inbox_event ∷ r) (event_keys-append front back)

  run_store-settled :
      (calls : List StoreCall) (s : Stores db) (feed : Option RecordFeed) (key : EventKey)
      (e : InboxEvent)
      → view.inbox s.inbox key ≡ some e
      → e.status ≢ InboxStatus.processing
      → All (λ k. k ≢ key) (event_keys (run_store db is_document sha256_hex calls s feed).0)
  unfolding run_store
  run_store-settled [] s feed key e there closed = tt
  run_store-settled (call ∷ calls) s feed key e there closed =
      let (s1, feed1) = store_step db is_document sha256_hex call s feed in
      let lg = log_of db is_document sha256_hex call s in
      let stepped = step-Stepped db is_document sha256_hex view laws call s feed in
      rw (event_keys-append lg (run_store db is_document sha256_hex calls s1 feed1).0) (
        All-append (λ k. k ≢ key) (event_keys lg)
          (event_keys (run_store db is_document sha256_hex calls s1 feed1).0)
          (Stepped-settled lg s s1 key e stepped there closed)
          (run_store-settled calls s1 feed1 key e
            ((Stepped-Keeps lg s s1 stepped key).settled e there closed) closed))

  Stepped-Distinct :
      (lg : List ProjectionApply) (s s' : Stores db) (feed : Option RecordFeed)
      (calls : List StoreCall)
      → Stepped db is_document sha256_hex view laws lg s s'
      → Distinct (event_keys (run_store db is_document sha256_hex calls s' feed).0)
      → Distinct (event_keys (lg ++ (run_store db is_document sha256_hex calls s' feed).0))
  Stepped-Distinct lg s s' feed calls (inl (nothing, same)) rest = rw nothing rest
  Stepped-Distinct lg s s' feed calls (inr (i, one, done)) rest =
      let (e, there, closed, hash) = applied-stored i s s' done in
      rw one
        (run_store-settled calls s' feed (event_key i.inbox_event) e there (ground arith), rest)

  -- In any sequence of calls of Apply and of the inbox, no event is applied twice for a consumer.
  pub applied_once :
      (calls : List StoreCall) (s : Stores db) (feed : Option RecordFeed)
      → Distinct (event_keys (run_store db is_document sha256_hex calls s feed).0)
  unfolding run_store
  applied_once [] s feed = tt
  applied_once (call ∷ calls) s feed =
      let (s1, feed1) = store_step db is_document sha256_hex call s feed in
      Stepped-Distinct (log_of db is_document sha256_hex call s) s s1 feed1 calls
        (step-Stepped db is_document sha256_hex view laws call s feed) (applied_once calls s1 feed1)
