-- ===== src/Projection/Store/Effect.antt =====
-- What a transaction of the projection store that ends well did to the collections.
use record_hub.Base.{
  ℕ, Text, text_eq, true, List, [], ◌∷◌, ◌++◌, ◌==◌, Option, none, some, Result, ok, ◌>>=◌,
  if◌then◌else◌, ℤ, int_eq, leb_ℤ, inc64, Bool-cases, ◌≡◌, inl, inr, refl, arith, ℤ-discrete,
}
use record_hub.Audit
use record_hub.Database.{Updated, IsCollection}
use record_hub.Records.Model.{Record, ProjectionReadPointer}
use record_hub.Projection.Inbox.{
  InboxEvent, InboxStatus, inbox_status_eq, EventKey, event_key_eq, event_key, is_processing,
  mark_applied_set,
}
use record_hub.Projection.Checkpoint.{
  ProjectionCheckpoint, CheckpointKey, checkpoint_key_eq, checkpoint_filter, current_version,
  VersionDecision, classify_checkpoint,
}
use record_hub.Projection.Store.{
  Stores, with_inbox, with_records, with_checkpoints, with_audit, ProjectionApply, ApplyError,
  RecordKey, record_key_eq, record_key, PointerKey, pointer_key_eq, Outcome, feed_change,
  Collections, mark_inbox, active_collection, put_record, put_checkpoint, put_audit,
}

pub classify-apply :
    (o : Option ProjectionCheckpoint) (v : ℤ)
    → classify_checkpoint o v ≡ VersionDecision.version_apply
    → v ≡ inc64 (current_version o)
unfolding classify_checkpoint
classify-apply o v h = elim (ℤ-discrete v (inc64 (current_version o))) [
  | yes e ↦ e
  | no other ↦ absurd (ground arith)
]

pub classify-stale :
    (o : Option ProjectionCheckpoint) (v : ℤ)
    → classify_checkpoint o v ≡ VersionDecision.version_stale
    → leb_ℤ v (current_version o) ≡ true
unfolding classify_checkpoint
classify-stale o v h = elim (Bool-cases (leb_ℤ v (current_version o))) [
  | inl e ↦ e
  | inr e ↦ absurd (ground arith)
]

-- The documented effect of every collection, on what the views show.
pub record Views (SI SR SP SC SA : Type 0) : Type 0 where
  pub inbox : SI → EventKey → Option InboxEvent
  pub records : SR → RecordKey → Option Record
  pub read_pointers : SP → PointerKey → Option ProjectionReadPointer
  pub checkpoints : SC → CheckpointKey → Option ProjectionCheckpoint
  pub entries : SA → List Audit.Entry

pub record AreCollections {SI SR SP SC SA : Type 0} (db : Collections SI SR SP SC SA)
    (view : Views SI SR SP SC SA) : Type 0 where
  pub inbox : IsCollection db.inbox view.inbox
  pub records : IsCollection db.records view.records
  pub read_pointers : IsCollection db.read_pointers view.read_pointers
  pub checkpoints : IsCollection db.checkpoints view.checkpoints
  pub audit_lem :
      (e : Audit.Entry) (s s' : SA)
      → db.append_audit e s ≡ some s'
      → view.entries s' ≡ view.entries s ++ (e ∷ [])

module _ {SI SR SP SC SA : Type 0} (db : Collections SI SR SP SC SA) (view : Views SI SR SP SC SA)
    (laws : AreCollections db view) where
  -- The inbox after a mark: of the stored event alone, if it is PROCESSING.
  abbrev pub Marked : ProjectionApply → SI → SI → Type 0
  Marked i s s' =
      (n : ℕ) × (db.inbox.update_one (event_key i.inbox_event) is_processing
          (mark_applied_set i.checkpoint.synced_at) s
        ≡ Updated.updated n s')

  -- A step of the transaction that ends well, whatever comes after it.
  module _ {B : Type 0} (next : Stores db → Result ApplyError B) (out : B) (i : ProjectionApply)
      (s : Stores db) where
    pub mark_inbox-then :
        (mark_inbox db i s >>= next) ≡ ok out
        → (t : SI) × Marked i s.inbox t × (next (record s { inbox = t }) ≡ ok out)
    unfolding mark_inbox
    mark_inbox-then h =
        go
          (db.inbox.update_one (event_key i.inbox_event) is_processing
            (mark_applied_set i.checkpoint.synced_at) s.inbox)
          refl h
      where
        go :
            (u : Updated SI)
            → db.inbox.update_one
                (event_key i.inbox_event)
                is_processing
                (mark_applied_set i.checkpoint.synced_at)
                s.inbox
              ≡ u
            → (with_inbox db s u >>= next) ≡ ok out
            → (t : SI) × Marked i s.inbox t × (next (record s { inbox = t }) ≡ ok out)
        go (Updated.updated n t) at h = (t, (n, at), h)
        go Updated.failed at h = absurd (ground arith)

    pub put_record-then :
        (name : Text)
        → (put_record db name i s >>= next) ≡ ok out
        → (t : SR) × (db.records.replace_one
              (record_key name i.projection_record)
              i.projection_record
              s.records
            ≡ some t)
          × (next (record s { records = t }) ≡ ok out)
    unfolding put_record
    put_record-then name h =
        go
          (db.records.replace_one (record_key name i.projection_record) i.projection_record
            s.records)
          refl h
      where
        go :
            (u : Option SR)
            → db.records.replace_one
                (record_key name i.projection_record)
                i.projection_record
                s.records
              ≡ u
            → (with_records db s u >>= next) ≡ ok out
            → (t : SR) × (db.records.replace_one
                  (record_key name i.projection_record)
                  i.projection_record
                  s.records
                ≡ some t)
              × (next (record s { records = t }) ≡ ok out)
        go (some t) at h = (t, at, h)
        go none at h = absurd (ground arith)

    pub put_checkpoint-then :
        (put_checkpoint db i s >>= next) ≡ ok out
        → (t : SC) × (db.checkpoints.replace_one
              (checkpoint_filter i.checkpoint)
              i.checkpoint
              s.checkpoints
            ≡ some t)
          × (next (record s { checkpoints = t }) ≡ ok out)
    unfolding put_checkpoint
    put_checkpoint-then h =
        go (db.checkpoints.replace_one (checkpoint_filter i.checkpoint) i.checkpoint s.checkpoints)
          refl h
      where
        go :
            (u : Option SC)
            → db.checkpoints.replace_one (checkpoint_filter i.checkpoint) i.checkpoint s.checkpoints
              ≡ u
            → (with_checkpoints db s u >>= next) ≡ ok out
            → (t : SC) × (db.checkpoints.replace_one
                  (checkpoint_filter i.checkpoint)
                  i.checkpoint
                  s.checkpoints
                ≡ some t)
              × (next (record s { checkpoints = t }) ≡ ok out)
        go (some t) at h = (t, at, h)
        go none at h = absurd (ground arith)

    pub put_audit-then :
        (put_audit db i s >>= next) ≡ ok out
        → (t : SA) × (db.append_audit i.audit s.audit ≡ some t)
          × (next (record s { audit = t }) ≡ ok out)
    unfolding put_audit
    put_audit-then h = go (db.append_audit i.audit s.audit) refl h
      where
        go :
            (u : Option SA)
            → db.append_audit i.audit s.audit ≡ u
            → (with_audit db s u >>= next) ≡ ok out
            → (t : SA) × (db.append_audit i.audit s.audit ≡ some t)
              × (next (record s { audit = t }) ≡ ok out)
        go (some t) at h = (t, at, h)
        go none at h = absurd (ground arith)

  -- The stored event was PROCESSING and has the payload.
  abbrev pub Processing : ProjectionApply → SI → Type 0
  Processing i s =
      (e : InboxEvent) × (view.inbox s (event_key i.inbox_event) ≡ some e)
      × (e.status ≡ InboxStatus.processing)
      × (e.payload_hash ≡ i.inbox_event.payload_hash)

  -- The version of the checkpoint under a key.
  abbrev pub version : Stores db → CheckpointKey → ℤ
  version s k = current_version (view.checkpoints s.checkpoints k)

  -- What applying an event does.
  pub record Applied (i : ProjectionApply) (s s' : Stores db) : Type 0 where
    pub processing : Processing i s.inbox
    pub version_next :
        i.checkpoint.source_version ≡ inc64 (version s (checkpoint_filter i.checkpoint))
    pub marked : Marked i s.inbox s'.inbox
    pub name : Text
    pub active : active_collection db i.projection_record s ≡ ok name
    pub records_set :
        (k : RecordKey)
        → view.records s'.records k ≡ (
            if record_key name i.projection_record == k
            then some i.projection_record
            else view.records s.records k)
    pub pointers_same : s'.read_pointers ≡ s.read_pointers
    pub checkpoint_set :
        (k : CheckpointKey)
        → view.checkpoints s'.checkpoints k ≡ (
            if checkpoint_filter i.checkpoint == k
            then some i.checkpoint
            else view.checkpoints s.checkpoints k)
    pub audited : view.entries s'.audit ≡ view.entries s.audit ++ (i.audit ∷ [])

  -- A stale event is marked and nothing else changes; a gap changes no version and nothing but
  -- checkpoints.
  abbrev pub Effect : ProjectionApply → Stores db → Outcome → Stores db → Type 0
  Effect i s Outcome.stale s' =
      Processing i s.inbox
      × (leb_ℤ i.checkpoint.source_version (version s (checkpoint_filter i.checkpoint)) ≡ true)
      × ((t : SI) × Marked i s.inbox t × (s' ≡ record s { inbox = t }))
  Effect i s Outcome.gap s' =
      Processing i s.inbox
      × ((t : SC) × (s' ≡ record s { checkpoints = t })
          × ((k : CheckpointKey) → version s' k ≡ version s k))
  Effect i s (Outcome.applied change) s' = (change ≡ feed_change i) × Applied i s s'
