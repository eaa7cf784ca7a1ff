-- ===== src/Projection/Inbox/Once.antt =====
-- Sequences of calls of the inbox.
use record_hub.Base.{
  Text, text_eq, true, ◌==◌, List, [], ◌∷◌, Option, some, if◌then◌else◌, ok, err, Time, Bool-cases,
  is_zero, is_empty, ◌||◌, ltb, length, ◌≡◌, ◌≢◌, ◌∙◌, ◌⊎◌, inl, inr, refl, sym, arith,
}
use record_hub.Base.Trim.{trim_space}
use record_hub.Database.{Found-cases, Inserted, Collection, IsCollection}
use record_hub.Projection.Inbox.{
  InboxError, InboxStatus, InboxEvent, InboxClaim, InboxClaimResult, EventKey, event_key_eq,
  event_key, normalize_claim, is_processing, mark_applied_set, mark_rejected_set, get, found_event,
  after_insert, claim_normalized, claim, mark_applied, mark_rejected,
}
use record_hub.Projection.Inbox.Laws.{
  KeepsAll, KeepsAll-same, KeepsAll-trans, marked-Keeps, claim-Keeps,
}

-- The calls that change the collection.
pub data Call : Type 0 where
  claim_call : InboxClaim → Call
  applied_call : EventKey → Time → Call
  rejected_call : EventKey → Text → Time → Call

module _ {S : Type 0} (inbox : Collection EventKey InboxEvent S) (sha256_hex : Text → Text) where
  abbrev pub step : Call → S → S
  step (claim_call c) s = (claim inbox sha256_hex c s).1
  step (applied_call key at) s = (mark_applied inbox key at s).1
  step (rejected_call key reason at) s = (mark_rejected inbox key reason at s).1

  unfoldable pub run : List Call → S → S
  run [] s = s
  run (call ∷ calls) s = run calls (step call s)

  module _ (view : S → EventKey → Option InboxEvent) (laws : IsCollection inbox view) where
    mark_applied-Keeps :
        (key : EventKey) (at : Time) (s : S)
        → KeepsAll inbox view laws s (mark_applied inbox key at s).1
    unfolding mark_applied
    mark_applied-Keeps key at s = elim (Bool-cases (is_zero at)) [
      | inl zero_time ↦ rw zero_time (KeepsAll-same inbox view laws s)
      | inr given ↦ rw given (
          marked-Keeps inbox view laws key InboxStatus.applied (mark_applied_set at) s
            (inbox.update_one key is_processing (mark_applied_set at) s) (λ e. refl) refl)
    ]

    mark_rejected-Keeps :
        (key : EventKey) (reason : Text) (at : Time) (s : S)
        → KeepsAll inbox view laws s (mark_rejected inbox key reason at s).1
    unfolding mark_rejected
    mark_rejected-Keeps key reason at s =
        let safe = trim_space reason in
        elim (Bool-cases (is_empty safe || ltb 512 (length safe))) [
          | inl bad ↦ rw bad (KeepsAll-same inbox view laws s)
          | inr fits ↦ elim (Bool-cases (is_zero at)) [
            | inl zero_time ↦ rw fits (rw zero_time (KeepsAll-same inbox view laws s))
            | inr given ↦ rw fits (
                rw given (
                  marked-Keeps inbox view laws key InboxStatus.rejected (mark_rejected_set safe at)
                    s (inbox.update_one key is_processing (mark_rejected_set safe at) s) (λ e. refl)
                    refl))
          ]
        ]

    pub step-Keeps : (call : Call) (s : S) → KeepsAll inbox view laws s (step call s)
    step-Keeps (claim_call c) s = claim-Keeps inbox view laws sha256_hex c s
    step-Keeps (applied_call key at) s = mark_applied-Keeps key at s
    step-Keeps (rejected_call key reason at) s = mark_rejected-Keeps key reason at s

    pub run-Keeps : (calls : List Call) (s : S) → KeepsAll inbox view laws s (run calls s)
    unfolding run
    run-Keeps [] s = KeepsAll-same inbox view laws s
    run-Keeps (call ∷ calls) s =
        KeepsAll-trans inbox view laws s (step call s) (run calls (step call s)) (step-Keeps call s)
          (run-Keeps calls (step call s))

    -- Whatever calls of Claim, MarkApplied and MarkRejected follow, an event that is not PROCESSING
    -- stays exactly as it is.
    pub run_keeps_settled :
        (calls : List Call) (s : S) (key : EventKey) (e : InboxEvent)
        → view s key ≡ some e
        → e.status ≢ InboxStatus.processing
        → view (run calls s) key ≡ some e
    run_keeps_settled calls s key e there done = (run-Keeps calls s key).settled e there done

    -- A claim that succeeds leaves the event stored with the payload.
    after_insert-stored :
        (e : InboxEvent) (r : InboxClaimResult) (s : S) (i : Inserted S)
        → inbox.insert_one (event_key e) e s ≡ i
        → (after_insert inbox e s i).0 ≡ ok r
        → (d : InboxEvent) × (view (after_insert inbox e s i).1 (event_key e) ≡ some d)
          × (d.payload_hash ≡ e.payload_hash)
    unfolding after_insert get found_event
    after_insert-stored e r s (Inserted.inserted s') at h =
        (e, ground (arith, laws.insert_lem (event_key e) e s s' at (event_key e)), refl)
    after_insert-stored e r s Inserted.duplicate_key at h =
        elim (Found-cases (inbox.find_one (event_key e) s)) [
          | inl (d, there) ↦ (d, laws.found_lem (event_key e) s d there, ground arith)
          | inr other ↦ absurd (ground arith)
        ]
    after_insert-stored e r s Inserted.failed at h = absurd (ground arith)

    claim-stored :
        (c : InboxClaim) (e : InboxEvent) (r : InboxClaimResult) (s : S)
        → normalize_claim sha256_hex c ≡ ok e
        → (claim inbox sha256_hex c s).0 ≡ ok r
        → (d : InboxEvent) × (view (claim inbox sha256_hex c s).1 (event_key e) ≡ some d)
          × (d.payload_hash ≡ e.payload_hash)
    unfolding claim claim_normalized
    claim-stored c e r s valid =
        rw valid (after_insert-stored e r s (inbox.insert_one (event_key e) e s) refl)

    -- A claim of an event that is stored.
    after_insert-again :
        (e d : InboxEvent) (s : S) (i : Inserted S)
        → inbox.insert_one (event_key e) e s ≡ i
        → view s (event_key e) ≡ some d
        → ((after_insert inbox e s i).1 ≡ s)
          × (((after_insert inbox e s i).0 ≡ (
                if d.payload_hash == e.payload_hash
                then ok (record { event = d; duplicate = true })
                else err InboxError.payload_conflict))
              ⊎ ((after_insert inbox e s i).0 ≡ err InboxError.database_failed))
    unfolding after_insert get found_event
    after_insert-again e d s (Inserted.inserted s') at there =
        absurd (ground (arith, laws.fresh_lem (event_key e) e s s' at))
    after_insert-again e d s Inserted.duplicate_key at there =
        elim (Found-cases (inbox.find_one (event_key e) s)) [
          | inl (d', found_) ↦
              (refl, inl (ground (arith, laws.found_lem (event_key e) s d' found_)))
          | inr (inl gone) ↦ absurd (ground (arith, laws.absent_lem (event_key e) s gone))
          | inr (inr broken) ↦ (refl, inr (rw broken refl))
        ]
    after_insert-again e d s Inserted.failed at there = (refl, inr refl)

    claim-again :
        (c : InboxClaim) (e d : InboxEvent) (s : S)
        → normalize_claim sha256_hex c ≡ ok e
        → view s (event_key e) ≡ some d
        → ((claim inbox sha256_hex c s).1 ≡ s)
          × (((claim inbox sha256_hex c s).0 ≡ (
                if d.payload_hash == e.payload_hash
                then ok (record { event = d; duplicate = true })
                else err InboxError.payload_conflict))
              ⊎ ((claim inbox sha256_hex c s).0 ≡ err InboxError.database_failed))
    unfolding claim claim_normalized
    claim-again c e d s valid there =
        rw valid (after_insert-again e d s (inbox.insert_one (event_key e) e s) refl there)

    -- Once a claim has succeeded, no later claim of the same event and consumer, after any calls,
    -- claims it afresh or changes the inbox: unless the database fails, it is answered with the
    -- stored event as a duplicate if its payload hashes to the same, and refused as a conflict of
    -- payloads if not.
    pub claimed_once :
        (c c' : InboxClaim) (e e' : InboxEvent) (r : InboxClaimResult) (s : S) (calls : List Call)
        → normalize_claim sha256_hex c ≡ ok e
        → normalize_claim sha256_hex c' ≡ ok e'
        → event_key e' ≡ event_key e
        → (claim inbox sha256_hex c s).0 ≡ ok r
        → let s' = run calls (claim inbox sha256_hex c s).1 in
          ((claim inbox sha256_hex c' s').1 ≡ s')
          × ((d : InboxEvent) × (view s' (event_key e') ≡ some d)
              × (((claim inbox sha256_hex c' s').0 ≡ (
                    if e.payload_hash == e'.payload_hash
                    then ok (record { event = d; duplicate = true })
                    else err InboxError.payload_conflict))
                  ⊎ ((claim inbox sha256_hex c' s').0 ≡ err InboxError.database_failed)))
    claimed_once c c' e e' r s calls valid valid' same h =
        let s1 = (claim inbox sha256_hex c s).1 in
        let (d, there, hash) = claim-stored c e r s valid h in
        let (d', there', hash') = (run-Keeps calls s1 (event_key e)).stays d there in
        let at : view (run calls s1) (event_key e') ≡ some d' = rw same there' in
        let (kept, answer) = claim-again c' e' d' (run calls s1) valid' at in
        (kept, (d', at, rw (sym (hash' ∙ hash)) answer))
