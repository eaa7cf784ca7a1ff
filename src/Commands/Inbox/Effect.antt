-- ===== src/Commands/Inbox/Effect.antt =====
-- What Process does to the inbox and to its owner.
use record_hub.Base.{
  Text, text_eq, Bool, true, false, Option, none, some, Result, ok, err, ◌>>◌, int_eq, Time, ◌≡◌,
  refl, sym, ap, ◌∙◌, ◌⊎◌, inl, inr, arith, Option-cases, Result-cases, Bool-cases, >>=-eq-ok,
}
use record_hub.Base.Map.{lookup, insert, lookup-insert_self}
use record_hub.Commands.Model.{Error, Envelope, ResultEnvelope, validate_envelope, validate_result}
use record_hub.Commands.Inbox.{
  InboxStatus, inbox_status_eq, InboxEntry, Entries, inbox_key, new_entry, claim, committed_with,
  commit, is_foreign, owner_result, conclude, run_owner, process, Answer, failure,
}
use record_hub.Commands.Inbox.Laws.{
  HasResults, Claimed, claim-Claimed, Committed, commit-Committed, Keeps, claim-Keeps, commit-Keeps,
  claim-HasResults, commit-HasResults,
}

module _ (sha256_hex : Text → Text) {Owner : Type 0}
    (execute : Envelope → Owner → Result Error ResultEnvelope × Owner) where
  conclude_cases :
      (now : Time) (e : Envelope) (c : InboxEntry) (out : Result Error ResultEnvelope)
      (entries : Entries)
      → let (answer, entries') = conclude sha256_hex execute now e c out entries in
        let r = owner_result now e out in
        (((x : Error) × (answer ≡ err x)) × (entries' ≡ entries))
        ⊎ (Committed c r entries entries'
            × (answer ≡ ok (r, false, failure sha256_hex execute out)))
  unfolding conclude
  conclude_cases now e c out entries = elim (Bool-cases (is_foreign e (owner_result now e out))) [
    | inl foreign ↦ inl (rw foreign ((Error.result_conflict, refl), refl))
    | inr own ↦
        rw own
          (elim (Result-cases (
            validate_result (owner_result now e out)
            >> commit c (owner_result now e out) entries)) [
              | inr (x, failed) ↦ inl (rw failed ((x, refl), refl))
              | inl ((saved, entries'), done) ↦
                  let (u, valid, done') =
                    >>=-eq-ok (validate_result (owner_result now e out)) _ done in
                  inr (
                    rw done (
                      commit-Committed c saved (owner_result now e out) entries entries' done',
                      refl,
                    ))
            ])
  ]

  -- The entry answers for the envelope: what it was claimed with.
  abbrev pub Answers : Envelope → ResultEnvelope → InboxEntry → Type 0
  Answers e r c =
      (c.status ≡ InboxStatus.committed)
      × (c.result ≡ some r)
      × (c.payload_hash ≡ e.payload_hash)
      × (c.owner_system ≡ e.owner_system)
      × (c.action ≡ e.action)

  claim_err :
      (e : Envelope) (entries : Entries) (x : Error)
      → claim e entries ≡ err x
      → (c : InboxEntry) × (lookup (inbox_key e) entries ≡ some c)
  unfolding claim
  claim_err e entries x h = elim (Option-cases (lookup (inbox_key e) entries)) [
    | inl nothing ↦ absurd (ground arith)
    | inr there ↦ there
  ]

  process_cases :
      (now : Time) (e : Envelope) (entries : Entries) (owner : Owner)
      → HasResults entries
      → (((x : Error) × (process sha256_hex execute now e entries owner ≡ (err x, entries, owner)))
          × (validate_envelope sha256_hex e ≡ ok tt
              → (c : InboxEntry) × (lookup (inbox_key e) entries ≡ some c)))
        ⊎ ((c : InboxEntry) × (r : ResultEnvelope) × (process sha256_hex execute now e entries owner
              ≡ (ok (r, true, none), entries, owner))
            × (lookup (inbox_key e) entries ≡ some c)
            × Answers e r c)
        ⊎ ((lookup (inbox_key e) entries ≡ none)
            × (process sha256_hex execute now e entries owner
                ≡ run_owner sha256_hex execute now e
                    (new_entry e)
                    (insert (inbox_key e) (new_entry e) entries)
                    owner))
  unfolding process
  process_cases now e entries owner has = elim (Result-cases (validate_envelope sha256_hex e)) [
    | inr (x, bad) ↦
        let failed : (validate_envelope sha256_hex e >> claim e entries) ≡ err x = rw bad refl in
        inl ((x, rw failed refl), λ good. absurd (ground arith))
    | inl (u, good) ↦ elim (Result-cases (claim e entries)) [
      | inr (x, refused) ↦
          let failed : (validate_envelope sha256_hex e >> claim e entries) ≡ err x =
            rw good refused in
          inl ((x, rw failed refl), λ h. claim_err e entries x refused)
      | inl ((c, replayed, entries'), claimed) ↦
          let passed : (validate_envelope sha256_hex e >> claim e entries)
              ≡ ok (c, replayed, entries') =
            rw good claimed in
          elim (claim-Claimed e entries entries' c replayed claimed) [
            | inl (again, same, at, done, digest, own, act) ↦
                let (r, stored) = has (inbox_key e) c at done in
                inr (
                  inl (
                    c,
                    r,
                    rw (passed) (rw again (rw stored (rw same refl))),
                    at,
                    (done, stored, digest, own, act),
                  ))
            | inr (fresh, nothing, new, added) ↦
                let passed' : (validate_envelope sha256_hex e >> claim e entries)
                    ≡ ok (new_entry e, false, insert (inbox_key e) (new_entry e) entries) =
                  passed ∙ rw (fresh, new, added) refl in
                inr (inr (nothing, rw passed' refl))
          ]
    ]
  ]

  -- What a call of Process does.
  pub record Processed (e : Envelope) (entries : Entries) (owner : Owner)
      (out : Answer sha256_hex execute × Entries × Owner) : Type 0 where
    pub keeps : (k : Text) → Keeps k entries out.1
    pub has : HasResults out.1
    pub once : (c : InboxEntry) → lookup (inbox_key e) entries ≡ some c → out.2 ≡ owner
    pub claims :
        validate_envelope sha256_hex e ≡ ok tt
        → (c : InboxEntry) × (lookup (inbox_key e) out.1 ≡ some c)
    pub answers :
        (r : ResultEnvelope) (replay : Bool) (failed : Option Error)
        → out.0 ≡ ok (r, replay, failed)
        → (c : InboxEntry) × (lookup (inbox_key e) out.1 ≡ some c) × Answers e r c

  pub Keeps-all : (entries : Entries) (k : Text) → Keeps k entries entries
  Keeps-all entries k = record { ends = λ c there done. there; stays = λ c there. (c, there) }

  pub Keeps-twice : (a b c : Entries) (k : Text) → Keeps k a b → Keeps k b c → Keeps k a c
  Keeps-twice a b c k f g = record {
    ends = λ d there done. g.ends d (f.ends d there done) done;
    stays = λ d there. let (d', there') = f.stays d there in g.stays d' there';
  }

  fresh_commit :
      (e : Envelope) (r : ResultEnvelope) (entries entries' : Entries)
      → lookup (inbox_key e) entries ≡ some (new_entry e)
      → Committed (new_entry e) r entries entries'
      → lookup (inbox_key e) entries' ≡ some (committed_with r (new_entry e))
  fresh_commit e r entries entries' at (c, there, inl h) = absurd (ground arith)
  fresh_commit e r entries entries' at (c, there, inr (before, h)) =
      let same : c ≡ new_entry e = cc in
      rw h (rw same (lookup-insert_self (inbox_key e) (committed_with r (new_entry e)) entries))

  run_owner-Processed :
      (now : Time) (e : Envelope) (entries : Entries) (owner : Owner)
      → HasResults entries
      → lookup (inbox_key e) entries ≡ none
      → Processed e entries owner (
          run_owner sha256_hex execute now e
            (new_entry e)
            (insert (inbox_key e) (new_entry e) entries)
            owner)
  unfolding run_owner
  run_owner-Processed now e entries owner has free =
      let added = insert (inbox_key e) (new_entry e) entries in
      let claimed : Claimed e entries (new_entry e) false added = inr (refl, free, refl, refl) in
      let at = lookup-insert_self (inbox_key e) (new_entry e) entries in
      let has' = claim-HasResults e entries added (new_entry e) false has claimed in
      let out = (execute e owner).0 in
      let r = owner_result now e out in
      let (answer, entries') = conclude sha256_hex execute now e (new_entry e) out added in
      elim (conclude_cases now e (new_entry e) out added) [
        | inl ((x, failed), same) ↦ record {
          keeps = λ k. rw same (claim-Keeps e entries added (new_entry e) false k claimed);
          has = rw same has';
          once = λ c there. absurd (ground arith);
          claims = λ good. (new_entry e, rw same at);
          answers = λ r replay x' h. absurd (ground arith);
        }
        | inr (done, answered) ↦ record {
          keeps = λ k.
              Keeps-twice entries added entries' k
                (claim-Keeps e entries added (new_entry e) false k claimed)
                (commit-Keeps (new_entry e) r added entries' k done);
          has = commit-HasResults (new_entry e) r added entries' has' done;
          once = λ c there. absurd (ground arith);
          claims = λ good.
              (commit-Keeps (new_entry e) r added entries' (inbox_key e) done).stays (new_entry e)
                at;
          answers = λ r' replay x' h.
              let same : r ≡ r' = cc in
              (
                committed_with r (new_entry e),
                fresh_commit e r added entries' at done,
                (refl, ap some same, refl, refl, refl),
              );
        }
      ]

  pub process-Processed :
      (now : Time) (e : Envelope) (entries : Entries) (owner : Owner)
      → HasResults entries
      → Processed e entries owner (process sha256_hex execute now e entries owner)
  process-Processed now e entries owner has = elim (process_cases now e entries owner has) [
    | inl ((x, refused), there) ↦ rw refused (record {
      keeps = Keeps-all entries;
      has = has;
      once = λ c at. refl;
      claims = there;
      answers = λ r replay failed h. absurd (ground arith);
    })
    | inr (inl (c, r, again, at, answers)) ↦ rw again (record {
      keeps = Keeps-all entries;
      has = has;
      once = λ c at. refl;
      claims = λ good. (c, at);
      answers = λ r' replay failed h. let same : r ≡ r' = cc in (c, at, rw (sym same) answers);
    })
    | inr (inr (free, runs)) ↦ rw runs (run_owner-Processed now e entries owner has free)
  ]
