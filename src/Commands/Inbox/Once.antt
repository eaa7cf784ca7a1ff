-- ===== src/Commands/Inbox/Once.antt =====
-- The inbox runs its owner once for an operation, and answers again with what it answered.
use record_hub.Base.{
  Text, text_eq, Bool, true, List, [], ◌∷◌, Option, none, some, Result, ok, ◌>>◌, int_eq, Time, ◌≡◌,
  refl, sym, ◌∙◌, arith,
}
use record_hub.Base.Map.{lookup}
use record_hub.Commands.Model.{Error, Envelope, ResultEnvelope, validate_envelope}
use record_hub.Commands.Inbox.{
  InboxStatus, inbox_status_eq, InboxEntry, Entries, inbox_key, claim, process,
}
use record_hub.Commands.Inbox.Laws.{HasResults, Keeps}
use record_hub.Commands.Inbox.Effect.{Keeps-all, Keeps-twice, process-Processed}

module _ (sha256_hex : Text → Text) {Owner : Type 0}
    (execute : Envelope → Owner → Result Error ResultEnvelope × Owner) where
  claim_again :
      (e : Envelope) (entries : Entries) (c : InboxEntry)
      → lookup (inbox_key e) entries ≡ some c
      → c.status ≡ InboxStatus.committed
      → c.payload_hash ≡ e.payload_hash
      → c.owner_system ≡ e.owner_system
      → c.action ≡ e.action
      → claim e entries ≡ ok (c, true, entries)
  unfolding claim
  claim_again e entries c at done digest own act = ground arith

  -- A sequence of calls, each with its time and its envelope.
  unfoldable pub process_all : List (Time × Envelope) → Entries → Owner → Entries × Owner
  process_all [] entries owner = (entries, owner)
  process_all ((now, e) ∷ calls) entries owner =
      let (answer, entries', owner') = process sha256_hex execute now e entries owner in
      process_all calls entries' owner'

  process_all-Keeps :
      (calls : List (Time × Envelope)) (entries : Entries) (owner : Owner)
      → HasResults entries
      → let (entries', owner') = process_all calls entries owner in
        HasResults entries' × ((k : Text) → Keeps k entries entries')
  unfolding process_all
  process_all-Keeps [] entries owner has = (has, Keeps-all sha256_hex execute entries)
  process_all-Keeps ((now, e) ∷ calls) entries owner has =
      let (answer, entries', owner') = process sha256_hex execute now e entries owner in
      let p = process-Processed sha256_hex execute now e entries owner has in
      let (has', keeps) = process_all-Keeps calls entries' owner' p.has in
      (
        has',
        λ k.
            Keeps-twice sha256_hex execute entries entries' (process_all calls entries' owner').0 k
              (p.keeps k) (keeps k),
      )

  module _ (now : Time) (e : Envelope) (entries : Entries) (owner : Owner)
      (has : HasResults entries) (valid : validate_envelope sha256_hex e ≡ ok tt) where
    -- Once a valid envelope has been processed, whatever came of it, no later call for an envelope
    -- with the same key, after any sequence of calls, runs the owner: its state stays as it is.
    pub owner_runs_once :
        (calls : List (Time × Envelope)) (later : Time) (e' : Envelope)
        → inbox_key e' ≡ inbox_key e
        → let (answer, entries1, owner1) = process sha256_hex execute now e entries owner in
          let (entries2, owner2) = process_all calls entries1 owner1 in
          (process sha256_hex execute later e' entries2 owner2).2 ≡ owner2
    owner_runs_once calls later e' same =
        let (answer, entries1, owner1) = process sha256_hex execute now e entries owner in
        let (entries2, owner2) = process_all calls entries1 owner1 in
        let p = process-Processed sha256_hex execute now e entries owner has in
        let (has2, keeps) = process_all-Keeps calls entries1 owner1 p.has in
        let (c, at) = p.claims valid in
        let (c2, at2) = (keeps (inbox_key e)).stays c at in
        (process-Processed sha256_hex execute later e' entries2 owner2 has2).once c2 (rw same at2)

    -- A result that was answered is answered again, as a replay that changes neither the inbox nor
    -- the owner, after any sequence of calls, for a valid envelope with the same key, payload hash,
    -- owner and action.
    pub result_answered_again :
        (r : ResultEnvelope) (replay : Bool) (failed : Option Error)
        → (process sha256_hex execute now e entries owner).0 ≡ ok (r, replay, failed)
        → (calls : List (Time × Envelope)) (later : Time) (e' : Envelope)
        → validate_envelope sha256_hex e' ≡ ok tt
        → inbox_key e' ≡ inbox_key e
        → e'.payload_hash ≡ e.payload_hash
        → e'.owner_system ≡ e.owner_system
        → e'.action ≡ e.action
        → let (answer, entries1, owner1) = process sha256_hex execute now e entries owner in
          let (entries2, owner2) = process_all calls entries1 owner1 in
          process sha256_hex execute later e' entries2 owner2
          ≡ (ok (r, true, none), entries2, owner2)
    unfolding process
    result_answered_again r replay failed h calls later e' good same digest own act =
        let (answer, entries1, owner1) = process sha256_hex execute now e entries owner in
        let (entries2, owner2) = process_all calls entries1 owner1 in
        let p = process-Processed sha256_hex execute now e entries owner has in
        let (has2, keeps) = process_all-Keeps calls entries1 owner1 p.has in
        let (c, at, answers) = p.answers r replay failed h in
        let at2 = (keeps (inbox_key e)).ends c at answers.0 in
        let claimed =
          claim_again e' entries2 c (rw same at2) answers.0 (answers.2 ∙ sym digest)
            (answers.3 ∙ sym own) (answers.4 ∙ sym act) in
        let passed : (validate_envelope sha256_hex e' >> claim e' entries2)
            ≡ ok (c, true, entries2) =
          rw good claimed in
        rw passed (rw answers.1 refl)
