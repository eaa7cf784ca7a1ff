-- ===== src/Connector/Onboarding/Runs.antt =====
-- Runs of the onboarding service: what holds of its records after any sequence of calls.
use record_hub.Base.{
  Text, text_eq, List, [], ◌∷◌, ◌++◌, some, Has-append_right, ◌≡◌, sym, ◌⊎◌, inl, inr, arith,
  Text-discrete,
}
use mathlib.Core.Path.{subst}
use mathlib.Core.List.{append-nil, append_assoc}
use record_hub.Base.Map.{lookup, lookup-insert}
use record_hub.Audit
use record_hub.Identity.Authorization.{MembershipReader}
use record_hub.Connector.Manifest.{Status}
use record_hub.Connector.Onboarding.{OnboardingRecord, Records, World}
use record_hub.Connector.Onboarding.Calls.{Deed, Call, after, run, deeds_of, deeds}
use record_hub.Connector.Onboarding.Laws.{SoundAs, IsSound, SoundAs-more}
use record_hub.Connector.Onboarding.Changes.{Changed, after-Changed}

module _ (lower_unicode : Text → Text) (digest : OnboardingRecord → Text)
    (memberships : MembershipReader) where
  -- Every record is sound by the deeds so far.
  abbrev pub AllSound : List Deed → Records → Type 0
  AllSound ds entries =
      (k : Text) (r : OnboardingRecord) → lookup k entries ≡ some r → IsSound ds k r

  Changed-AllSound :
      (ds more : List Deed) (entries entries' : Records)
      → Changed lower_unicode digest memberships more entries entries'
      → AllSound ds entries
      → AllSound (ds ++ more) entries'
  Changed-AllSound ds more entries entries' (inl same) all k r h =
      SoundAs-more ds more k r r.manifest.status (all k r (ground arith))
  Changed-AllSound ds more entries entries' (inr (key, new, same, by)) all k r h =
      elim (Text-discrete key k) [
        | no other ↦
            SoundAs-more ds more k r r.manifest.status
              (all k r (ground (arith, lookup-insert key k new entries)))
        | yes here ↦
            let new_e : new ≡ r = ground (arith, lookup-insert key k new entries) in
            subst (λ x. IsSound (ds ++ more) x r) here
              (subst (λ x. IsSound (ds ++ more) key x) new_e
                (elim by [
                  | inl (free, draft) ↦ subst (λ x. SoundAs (ds ++ more) key x new) (sym draft) tt
                  | inr (i, step, was, done, there, moves) ↦
                      moves.sound (ds ++ more) key (Has-append_right _ ds more done)
                        (SoundAs-more ds more key was was.manifest.status (all key was there))
                ]))
      ]

  run-AllSound :
      (ds : List Deed) (cs : List Call) (w : World)
      → AllSound ds w.entries
      → AllSound
          (ds ++ deeds lower_unicode digest memberships cs w)
          (run lower_unicode digest memberships cs w).entries
  unfolding run deeds
  run-AllSound ds [] w all = subst (λ x. AllSound x w.entries) (sym (append-nil ds)) all
  run-AllSound ds (c ∷ cs) w all =
      let more = deeds_of lower_unicode digest memberships c w in
      let w' = after lower_unicode digest memberships c w in
      subst (λ x. AllSound x (run lower_unicode digest memberships cs w').entries)
        (append_assoc ds more (deeds lower_unicode digest memberships cs w'))
        (run-AllSound (ds ++ more) cs w' (
          Changed-AllSound ds more w.entries w'.entries
            (after-Changed lower_unicode digest memberships c w) all))

  -- Whatever calls a new service has taken, and whether or not their audits were written, and of the
  -- identities whose steps on a record passed their checks: a record that is approved or rejected was
  -- reviewed by another identity than its submitter's, whose subject it names; one that is enabled or
  -- disabled was so reviewed, and was enabled by another identity than the submitter's, whose subject it
  -- names and which is not the reviewer's, with every check passed; and no record has a status beside
  -- these and draft and in review.
  pub run_separates_duties :
      (cs : List Call) (audits : List Audit.Entry) (k : Text) (r : OnboardingRecord)
      → let start : World = record { entries = []; audits = audits } in
        lookup k (run lower_unicode digest memberships cs start).entries ≡ some r
        → IsSound (deeds lower_unicode digest memberships cs start) k r
  unfolding lookup
  run_separates_duties cs audits k r h =
      run-AllSound [] cs (record { entries = []; audits = audits }) (λ k r h. absurd (ground arith))
        k r h

  Changed-final :
      (ds : List Deed) (entries entries' : Records) (k : Text) (r : OnboardingRecord)
      → Changed lower_unicode digest memberships ds entries entries'
      → lookup k entries ≡ some r
      → (r.manifest.status ≡ Status.rejected) ⊎ (r.manifest.status ≡ Status.disabled)
      → lookup k entries' ≡ some r
  Changed-final ds entries entries' k r (inl same) h ended = ground arith
  Changed-final ds entries entries' k r (inr (key, new, same, by)) h ended =
      elim (Text-discrete key k) [
        | no other ↦ ground (arith, lookup-insert key k new entries)
        | yes here ↦ elim by [
          | inl (free, draft) ↦ absurd (ground arith)
          | inr (i, step, was, done, there, moves) ↦ absurd (ground (arith, moves.edge))
        ]
      ]

  -- A record that was rejected or disabled is found unchanged after any sequence of calls.
  pub run_keeps_final :
      (cs : List Call) (w : World) (k : Text) (r : OnboardingRecord)
      → lookup k w.entries ≡ some r
      → (r.manifest.status ≡ Status.rejected) ⊎ (r.manifest.status ≡ Status.disabled)
      → lookup k (run lower_unicode digest memberships cs w).entries ≡ some r
  unfolding run
  run_keeps_final [] w k r h ended = h
  run_keeps_final (c ∷ cs) w k r h ended =
      run_keeps_final cs (after lower_unicode digest memberships c w) k r
        (Changed-final (deeds_of lower_unicode digest memberships c w) w.entries
          (after lower_unicode digest memberships c w).entries k r
          (after-Changed lower_unicode digest memberships c w) h ended)
        ended
