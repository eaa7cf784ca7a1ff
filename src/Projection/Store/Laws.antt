-- ===== src/Projection/Store/Laws.antt =====
-- Every transaction that ends well has one of the three effects.
use record_hub.Base.{
  text_eq, true, Option, none, some, ok-path, ok, >>=-eq-ok, int_eq, leb_ℤ, inc64, ◌≡◌, inl, inr,
  refl, arith,
}
use mathlib.Core.Path.{subst}
use record_hub.Database.{Found-cases, Updated, update_if}
use record_hub.Projection.Inbox.{
  InboxEvent, InboxStatus, inbox_status_eq, InboxStatus-discrete, event_key_eq, event_key,
}
use record_hub.Projection.Checkpoint.{
  ProjectionCheckpoint, CheckpointKey, checkpoint_key_eq, checkpoint_filter, current_version,
  VersionDecision, classify_checkpoint,
}
use record_hub.Projection.Store.{
  Stores, ProjectionApply, record_key_eq, record_key, Outcome, gap_set, always, Collections,
  found_in_inbox, optional, check_event, active_collection, mark_gap, with_gap, decided, transact,
}
use record_hub.Projection.Store.Effect.{
  classify-apply, classify-stale, Views, AreCollections, mark_inbox-then, put_record-then,
  put_checkpoint-then, put_audit-then, Processing, version, Effect,
}

check_event-ok :
    (i : ProjectionApply) (e : InboxEvent)
    → check_event i e ≡ ok tt
    → (e.status ≡ InboxStatus.processing) × (e.payload_hash ≡ i.inbox_event.payload_hash)
check_event-ok i e h = (
  elim (InboxStatus-discrete e.status InboxStatus.processing) [
    | yes p ↦ p
    | no p ↦ absurd (ground arith)
  ],
  ground arith,
)

gap_version :
    (o : Option ProjectionCheckpoint)
    → current_version (update_if always gap_set o) ≡ current_version o
gap_version none = refl
gap_version (some c) = refl

module _ {SI SR SP SC SA : Type 0} (db : Collections SI SR SP SC SA) (view : Views SI SR SP SC SA)
    (laws : AreCollections db view) where
  load_event :
      (i : ProjectionApply) (s : SI) (e : InboxEvent)
      → found_in_inbox (db.inbox.find_one (event_key i.inbox_event) s) ≡ ok e
      → view.inbox s (event_key i.inbox_event) ≡ some e
  load_event i s e h = elim (Found-cases (db.inbox.find_one (event_key i.inbox_event) s)) [
    | inl (d, at) ↦ ground (arith, laws.inbox.found_lem (event_key i.inbox_event) s d at)
    | inr other ↦ absurd (ground arith)
  ]

  load_checkpoint :
      (k : CheckpointKey) (s : SC) (o : Option ProjectionCheckpoint)
      → optional (db.checkpoints.find_one k s) ≡ ok o
      → view.checkpoints s k ≡ o
  load_checkpoint k s o h = elim (Found-cases (db.checkpoints.find_one k s)) [
    | inl (d, at) ↦ ground (arith, laws.checkpoints.found_lem k s d at)
    | inr (inl at) ↦ ground (arith, laws.checkpoints.absent_lem k s at)
    | inr (inr at) ↦ absurd (ground arith)
  ]

  stale-Effect :
      (i : ProjectionApply) (s : Stores db) (p : Outcome × Stores db)
      → Processing db view laws i s.inbox
      → leb_ℤ i.checkpoint.source_version (version db view laws s (checkpoint_filter i.checkpoint))
        ≡ true
      → (o : Option ProjectionCheckpoint) → decided db VersionDecision.version_stale i o s ≡ ok p
      → Effect db view laws i s p.0 p.1
  unfolding decided
  stale-Effect i s p open_ old o h =
      let (t, marked, rest) = mark_inbox-then db view laws (λ s'. ok (Outcome.stale, s')) p i s h in
      subst (λ q. Effect db view laws i s q.0 q.1) (ok-path (ok _) refl rest)
        (open_, old, (t, marked, refl))

  gap-Effect :
      (i : ProjectionApply) (s : Stores db) (p : Outcome × Stores db)
      → Processing db view laws i s.inbox
      → (o : Option ProjectionCheckpoint) → decided db VersionDecision.version_gap i o s ≡ ok p
      → Effect db view laws i s p.0 p.1
  unfolding decided mark_gap
  gap-Effect i s p open_ none h =
      subst (λ q. Effect db view laws i s q.0 q.1) (ok-path (ok _) refl h)
        (open_, (s.checkpoints, refl, λ k. refl))
  gap-Effect i s p open_ (some c) h =
      let key = checkpoint_filter i.checkpoint in
      go (db.checkpoints.update_one key always gap_set s.checkpoints) refl h
    where
      go :
          (u : Updated SC)
          → db.checkpoints.update_one (checkpoint_filter i.checkpoint) always gap_set s.checkpoints
            ≡ u
          → with_gap db s u ≡ ok p
          → Effect db view laws i s p.0 p.1
      go (Updated.updated n t) at h =
          subst (λ q. Effect db view laws i s q.0 q.1) (ok-path (ok _) refl h)
            (
              open_,
              (
                t,
                refl,
                λ k. ground (
                  arith,
                  laws.checkpoints.update_lem (checkpoint_filter i.checkpoint) always gap_set n
                      s.checkpoints t at k,
                  gap_version (view.checkpoints s.checkpoints k),
                ),
              ),
            )
      go Updated.failed at h = absurd (ground arith)

  applied-Effect :
      (i : ProjectionApply) (s : Stores db) (p : Outcome × Stores db)
      → Processing db view laws i s.inbox
      → i.checkpoint.source_version
        ≡ inc64 (version db view laws s (checkpoint_filter i.checkpoint))
      → (o : Option ProjectionCheckpoint) → decided db VersionDecision.version_apply i o s ≡ ok p
      → Effect db view laws i s p.0 p.1
  unfolding decided active_collection
  applied-Effect i s p open_ next o h =
      let (t1, m1, h1) = mark_inbox-then db view laws _ p i s h in
      let (name, active, h2) = >>=-eq-ok (active_collection db i.projection_record s) _ h1 in
      let (t2, m2, h3) = put_record-then db view laws _ p i (record s { inbox = t1 }) name h2 in
      let (t3, m3, h4) =
        put_checkpoint-then db view laws _ p i (record s { inbox = t1; records = t2 }) h3 in
      let (t4, m4, h5) =
        put_audit-then db view laws _ p i (record s { inbox = t1; records = t2; checkpoints = t3 })
          h4 in
      subst (λ q. Effect db view laws i s q.0 q.1) (ok-path (ok _) refl h5)
        (
          refl,
          record {
            processing = open_;
            version_next = next;
            marked = m1;
            name = name;
            active = active;
            records_set =
                laws.records.replace_lem (record_key name i.projection_record) i.projection_record
                  s.records t2 m2;
            pointers_same = refl;
            checkpoint_set =
                laws.checkpoints.replace_lem (checkpoint_filter i.checkpoint) i.checkpoint
                  s.checkpoints t3 m3;
            audited = laws.audit_lem i.audit s.audit t4 m4;
          },
        )

  decided-Effect :
      (d : VersionDecision) (i : ProjectionApply) (s : Stores db) (p : Outcome × Stores db)
      (o : Option ProjectionCheckpoint)
      → Processing db view laws i s.inbox
      → view.checkpoints s.checkpoints (checkpoint_filter i.checkpoint) ≡ o
      → classify_checkpoint o i.checkpoint.source_version ≡ d
      → decided db d i o s ≡ ok p
      → Effect db view laws i s p.0 p.1
  decided-Effect VersionDecision.version_stale i s p o open_ at c h =
      stale-Effect i s p open_ (rw at (classify-stale o i.checkpoint.source_version c)) o h
  decided-Effect VersionDecision.version_gap i s p o open_ at c h = gap-Effect i s p open_ o h
  decided-Effect VersionDecision.version_apply i s p o open_ at c h =
      applied-Effect i s p open_ (rw at (classify-apply o i.checkpoint.source_version c)) o h

  pub transact-Effect :
      (i : ProjectionApply) (s : Stores db) (p : Outcome × Stores db)
      → transact db i s ≡ ok p
      → Effect db view laws i s p.0 p.1
  unfolding transact
  transact-Effect i s p h =
      let key = checkpoint_filter i.checkpoint in
      let (e, found_, h1) =
        >>=-eq-ok (found_in_inbox (db.inbox.find_one (event_key i.inbox_event) s.inbox)) _ h in
      let (u, checked, h2) = >>=-eq-ok (check_event i e) _ h1 in
      let (o, loaded, h3) = >>=-eq-ok (optional (db.checkpoints.find_one key s.checkpoints)) _ h2 in
      let (open_, same) = check_event-ok i e checked in
      decided-Effect (classify_checkpoint o i.checkpoint.source_version) i s p o
        (e, load_event i s.inbox e found_, open_, same) (load_checkpoint key s.checkpoints o loaded)
        refl h3
