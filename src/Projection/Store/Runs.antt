-- ===== src/Projection/Store/Runs.antt =====
-- Sequences of calls of the projection store and of the inbox that it shares.
use record_hub.Base.{
  ℕ, zero, suc, Text, Bool, List, [], ◌∷◌, ◌++◌, map, filter, ◌==◌, Option, Result, ok, err,
  >>=-eq-ok, ◌⊎◌, inl, inr, ◌>>◌, ℤ, inc64, Time, ◌≡◌, refl, sym, ap,
}
use mathlib.Core.Path.{subst}
use record_hub.Records.Feed.{RecordFeed}
use record_hub.Projection.Inbox.{EventKey, event_key_eq, event_key, mark_applied_set}
use record_hub.Projection.Inbox.Laws.{KeepsAll, KeepsAll-same, update-Keeps}
use record_hub.Projection.Inbox.Once.{Call, step, step-Keeps}
use record_hub.Projection.Checkpoint.{CheckpointKey, checkpoint_key_eq, checkpoint_filter}
use record_hub.Projection.Store.{
  Stores, ProjectionApply, ApplyError, Outcome, Collections, validate_apply, transact, settled,
  apply,
}
use record_hub.Projection.Store.Effect.{Views, AreCollections, Marked, version, Applied, Effect}
use record_hub.Projection.Store.Laws.{transact-Effect}

-- The calls that change the state: Apply, and those of the inbox.
pub data StoreCall : Type 0 where
  apply_call : Time → ProjectionApply → StoreCall
  inbox_call : Call → StoreCall

-- `n` steps of `++` from a version.
abbrev pub advance : ℕ → ℤ → ℤ
advance zero v = v
advance (suc n) v = advance n (inc64 v)

-- The `n` versions that follow one.
abbrev pub successors : ℕ → ℤ → List ℤ
successors zero v = []
successors (suc n) v = inc64 v ∷ successors n (inc64 v)

-- The versions that a log has for the aggregate of a checkpoint.
abbrev pub versions_of : CheckpointKey → List ProjectionApply → List ℤ
versions_of k log =
    map (λ i. i.checkpoint.source_version) (filter (λ i. checkpoint_filter i.checkpoint == k) log)

abbrev pub event_keys : List ProjectionApply → List EventKey
event_keys log = map (λ i. event_key i.inbox_event) log

module _ {SI SR SP SC SA : Type 0} (db : Collections SI SR SP SC SA) (is_document : Text → Bool)
    (sha256_hex : Text → Text) where
  -- A call that applied its event logs it.
  abbrev logged : ProjectionApply → Result ApplyError (Outcome × Stores db) → List ProjectionApply
  logged i (ok (Outcome.applied change, s')) = i ∷ []
  logged i _ = []

  abbrev pub log_of : StoreCall → Stores db → List ProjectionApply
  log_of (apply_call now i) s = logged i (validate_apply is_document i >> transact db i s)
  log_of (inbox_call c) s = []

  abbrev pub store_step : StoreCall → Stores db → Option RecordFeed → Stores db × Option RecordFeed
  store_step (apply_call now i) s feed =
      let (answer, s', feed') = apply db is_document now i s feed in (s', feed')
  store_step (inbox_call c) s feed = (record s { inbox = step db.inbox sha256_hex c s.inbox }, feed)

  -- The events applied, in order, and the state and the feed after the calls.
  unfoldable pub run_store :
      List StoreCall
      → Stores db
      → Option RecordFeed
      → List ProjectionApply × Stores db × Option RecordFeed
  run_store [] s feed = ([], s, feed)
  run_store (call ∷ calls) s feed =
      let (s1, feed1) = store_step call s feed in
      let (log, s2, feed2) = run_store calls s1 feed1 in (log_of call s ++ log, s2, feed2)

  module _ (view : Views SI SR SP SC SA) (laws : AreCollections db view) where
    -- What a call keeps that applies nothing.
    pub record Same (s s' : Stores db) : Type 0 where
      pub versions : (k : CheckpointKey) → version db view laws s' k ≡ version db view laws s k
      pub entries : view.entries s'.audit ≡ view.entries s.audit
      pub inbox : KeepsAll db.inbox view.inbox laws.inbox s.inbox s'.inbox

    abbrev pub Stepped : List ProjectionApply → Stores db → Stores db → Type 0
    Stepped log s s' =
        ((log ≡ []) × Same s s')
        ⊎ ((i : ProjectionApply) × (log ≡ i ∷ []) × Applied db view laws i s s')

    Same-refl : (s : Stores db) → Same s s
    Same-refl s = record {
      versions = λ k. refl;
      entries = refl;
      inbox = KeepsAll-same db.inbox view.inbox laws.inbox s.inbox;
    }

    pub marked-Keeps :
        (i : ProjectionApply) (s s' : SI)
        → Marked db view laws i s s'
        → KeepsAll db.inbox view.inbox laws.inbox s s'
    marked-Keeps i s s' (n, at) =
        update-Keeps db.inbox view.inbox laws.inbox (event_key i.inbox_event)
          (mark_applied_set i.checkpoint.synced_at) n s s' (λ e. refl) at

    settled-Stepped :
        (now : Time) (i : ProjectionApply) (s : Stores db) (feed : Option RecordFeed)
        (r : Result ApplyError (Outcome × Stores db))
        → ((p : Outcome × Stores db) → r ≡ ok p → Effect db view laws i s p.0 p.1)
        → Stepped (logged i r) s (settled db now s feed r).1
    unfolding settled
    settled-Stepped now i s feed (err ApplyError.already_applied) h = inl (refl, Same-refl s)
    settled-Stepped now i s feed (err _) h = inl (refl, Same-refl s)
    settled-Stepped now i s feed (ok (Outcome.stale, s')) h =
        let (open_, old, (t, marked, at)) = h (Outcome.stale, s') refl in
        inl (
          refl,
          subst (λ x. Same s x) (sym at)
              (record {
                versions = λ k. refl;
                entries = refl;
                inbox = marked-Keeps i s.inbox t marked;
              }),
        )
    settled-Stepped now i s feed (ok (Outcome.gap, s')) h =
        let (open_, (t, at, same)) = h (Outcome.gap, s') refl in
        inl (
          refl,
          record {
            versions = same;
            entries = ap (λ x. view.entries x.audit) at;
            inbox =
                subst (λ x. KeepsAll db.inbox view.inbox laws.inbox s.inbox x.inbox) (sym at)
                  (KeepsAll-same db.inbox view.inbox laws.inbox s.inbox);
          },
        )
    settled-Stepped now i s feed (ok (Outcome.applied change, s')) h =
        let (change_is, done) = h (Outcome.applied change, s') refl in inr (i, refl, done)

    pub step-Stepped :
        (call : StoreCall) (s : Stores db) (feed : Option RecordFeed)
        → Stepped (log_of call s) s (store_step call s feed).0
    unfolding apply
    step-Stepped (apply_call now i) s feed =
        settled-Stepped now i s feed (validate_apply is_document i >> transact db i s) λ p h.
          let (u, valid, rest) = >>=-eq-ok (validate_apply is_document i) _ h in
          transact-Effect db view laws i s p rest
    step-Stepped (inbox_call c) s feed = inl (
      refl,
      record {
        versions = λ k. refl;
        entries = refl;
        inbox = step-Keeps db.inbox sha256_hex view.inbox laws.inbox c s.inbox;
      },
    )
