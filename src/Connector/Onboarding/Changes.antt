-- ===== src/Connector/Onboarding/Changes.antt =====
-- What a call of the onboarding service does to its records.
use record_hub.Base.{
  Has, Text, text_eq, ℤ, int_eq, List, [], ◌!=◌, none, some, Result, ok, err, reject_if, ◌≡◌, refl,
  sym, ◌⊎◌, inl, inr, arith, >>=-eq-ok, Option-cases, Result-cases, Bool-cases,
}
use mathlib.Core.Path.{subst}
use record_hub.Base.Map.{lookup, insert}
use record_hub.Identity.Principal.{Principal, IdentityKey, identity_key}
use record_hub.Identity.Authorization.{Action, MembershipReader}
use record_hub.Connector.Names.{Error}
use record_hub.Connector.Manifest.{Status, status_eq, Key, Manifest, normal_key, normal_manifest}
use record_hub.Connector.Onboarding.{
  OnboardingEvidence, OnboardingRecord, Records, World, Env, onboarding_key, Check, to_review,
  reviewed, approved_by, to_disable, advanced, verdict, validate_manifest, permitted, stored,
  admitted, finished, submit, next_record, Step,
}
use record_hub.Connector.Onboarding.Calls.{
  Deed, Call, submits, steps, after, step_result, take_step-finished, deed_if, deeds_of,
}
use record_hub.Connector.Onboarding.Laws.{
  Advanced, to_review-Advanced, reviewed-Advanced, approved_by-Advanced, to_disable-Advanced,
}

module _ (lower_unicode : Text → Text) (digest : OnboardingRecord → Text)
    (memberships : MembershipReader) where
  -- The record under the key is new, or one of the deeds moved it along an edge.
  abbrev pub Stored : List Deed → Text → OnboardingRecord → Records → Type 0
  Stored ds key r entries =
      ((lookup key entries ≡ none) × (r.manifest.status ≡ Status.draft))
      ⊎ ((i : IdentityKey) × (step : Step) × (was : OnboardingRecord) × Has
            (record { key = key; by = i; step = step }) ds
          × (lookup key entries ≡ some was)
          × Advanced i step was r)

  -- What a call with these deeds does to the records.
  abbrev pub Changed : List Deed → Records → Records → Type 0
  Changed ds entries entries' =
      (entries' ≡ entries)
      ⊎ ((key : Text) × (r : OnboardingRecord) × (entries' ≡ insert key r entries)
          × Stored ds key r entries)

  finished-Changed :
      (ds : List Deed) (env : Env) (p : Principal) (action : Text)
      (x : Result Error (Text × OnboardingRecord)) (w : World)
      → ((key : Text) (r : OnboardingRecord) → x ≡ ok (key, r) → Stored ds key r w.entries)
      → Changed ds w.entries (finished lower_unicode digest memberships env p action x w).1.entries
  unfolding stored
  finished-Changed ds env p action (err e) w f = inl refl
  finished-Changed ds env p action (ok (key, r)) w f = elim (Bool-cases env.audit_runs) [
    | inl runs ↦ inr (key, r, rw runs refl, f key r refl)
    | inr fails ↦ inr (key, r, rw fails refl, f key r refl)
  ]

  validated_draft :
      (m n : Manifest) (e : OnboardingEvidence)
      → validate_manifest lower_unicode digest memberships m e ≡ ok n
      → n.status ≡ Status.draft
  unfolding validate_manifest
  validated_draft m n e h = elim (Result-cases (normal_manifest lower_unicode m)) [
    | inl (x, done) ↦ ground (arith, done)
    | inr (x, failed) ↦ absurd (ground (arith, failed))
  ]

  admitted-Stored :
      (env : Env) (p : Principal) (tenant workspace : Text) (m : Manifest) (e : OnboardingEvidence)
      (w : World) (key : Text) (r : OnboardingRecord)
      → admitted lower_unicode digest memberships env p tenant workspace m e w ≡ ok (key, r)
      → Stored [] key r w.entries
  unfolding admitted
  admitted-Stored env p tenant workspace m e w key r h =
      let (u, may, h1) =
        >>=-eq-ok
          (permitted lower_unicode digest memberships p tenant workspace Action.connector_onboard) _
          h in
      let (n, valid, h2) =
        >>=-eq-ok (validate_manifest lower_unicode digest memberships m e) _ h1 in
      elim (Option-cases (lookup (onboarding_key tenant workspace n.key) w.entries)) [
        | inr there ↦ absurd (ground arith)
        | inl free ↦ inl (ground (arith, validated_draft m n e valid))
      ]

  next_record-Stored :
      (env : Env) (p : Principal) (tenant workspace : Text) (key : Key) (expected : ℤ)
      (status : Status) (action : Action) (check : Check) (step : Step) (w : World) (k : Text)
      (r : OnboardingRecord)
      → ((was r : OnboardingRecord)
          → check was ≡ ok r
          → Advanced (identity_key p) step was (advanced env.now status r))
      → next_record lower_unicode digest memberships env p tenant workspace key expected status
          action check w
        ≡ ok (k, r)
      → (was : OnboardingRecord) × (lookup k w.entries ≡ some was)
        × (was.manifest.revision ≡ expected)
        × Advanced (identity_key p) step was r
  unfolding next_record
  next_record-Stored env p tenant workspace key expected status action check step w k r moves h =
      let (u, may, h1) =
        >>=-eq-ok (permitted lower_unicode digest memberships p tenant workspace action) _ h in
      let (n, valid, h2) = >>=-eq-ok (normal_key lower_unicode key) _ h1 in
      elim (Option-cases (lookup (onboarding_key tenant workspace n) w.entries)) [
        | inl nothing ↦ absurd (ground arith)
        | inr (was, there) ↦
            let (u', fresh, h3) =
              >>=-eq-ok (reject_if (was.manifest.revision != expected) Error.revision_conflict) _
                (rw there at h2) in
            let (next, checked, h4) = >>=-eq-ok (check was) _ h3 in
            let k_e : onboarding_key tenant workspace n ≡ k = cc in
            let r_e : advanced env.now status next ≡ r = cc in
            (
              was,
              subst (λ x. lookup x w.entries ≡ some was) k_e there,
              ground arith,
              subst (λ x. Advanced (identity_key p) step was x) r_e (moves was next checked),
            )
      ]

  step_result-Advanced :
      (env : Env) (p : Principal) (tenant workspace : Text) (key : Key) (expected : ℤ) (step : Step)
      (w : World) (k : Text) (r : OnboardingRecord)
      → step_result lower_unicode digest memberships env p tenant workspace key expected step w
        ≡ ok (k, r)
      → (was : OnboardingRecord) × (lookup k w.entries ≡ some was)
        × (was.manifest.revision ≡ expected)
        × Advanced (identity_key p) step was r
  unfolding step_result
  step_result-Advanced env p tenant workspace key expected Step.submit_for_review w k r h =
      next_record-Stored env p tenant workspace key expected Status.in_review
        Action.connector_onboard to_review Step.submit_for_review w k r
        (to_review-Advanced env.now (identity_key p)) h
  step_result-Advanced env p tenant workspace key expected (Step.review b) w k r h =
      next_record-Stored env p tenant workspace key expected (verdict b) Action.connector_review
        (reviewed p) (Step.review b) w k r (reviewed-Advanced env.now p b) h
  step_result-Advanced env p tenant workspace key expected Step.enable w k r h =
      next_record-Stored env p tenant workspace key expected Status.enabled Action.connector_approve
        (approved_by p) Step.enable w k r (approved_by-Advanced env.now p) h
  step_result-Advanced env p tenant workspace key expected Step.disable w k r h =
      next_record-Stored env p tenant workspace key expected Status.disabled
        Action.connector_approve to_disable Step.disable w k r
        (to_disable-Advanced env.now (identity_key p)) h

  deed_if-Has :
      (p : Principal) (step : Step) (x : Result Error (Text × OnboardingRecord)) (k : Text)
      (r : OnboardingRecord)
      → x ≡ ok (k, r)
      → Has
          (record { key = k; by = identity_key p; step = step })
          (deed_if lower_unicode digest memberships p step x)
  unfolding deed_if
  deed_if-Has p step (err e) k r h = absurd (ground arith)
  deed_if-Has p step (ok (k', r')) k r h = inl (ground arith)

  pub after-Changed :
      (c : Call) (w : World)
      → Changed
          (deeds_of lower_unicode digest memberships c w)
          w.entries
          (after lower_unicode digest memberships c w).entries
  unfolding after submit deeds_of
  after-Changed (submits env p tenant workspace m e) w =
      finished-Changed [] env p _
        (admitted lower_unicode digest memberships env p tenant workspace m e w) w
        (λ key r h. admitted-Stored env p tenant workspace m e w key r h)
  after-Changed (steps env p tenant workspace key expected step) w =
      let stored_as =
        step_result lower_unicode digest memberships env p tenant workspace key expected step w in
      let ds = deed_if lower_unicode digest memberships p step stored_as in
      let (action, same) =
        take_step-finished lower_unicode digest memberships env p tenant workspace key expected step
          w in
      subst (λ x. Changed ds w.entries x.1.entries) (sym same)
        (finished-Changed ds env p action stored_as w (λ k r h.
          let (was, there, fresh, moves) =
            step_result-Advanced env p tenant workspace key expected step w k r h in
          inr (identity_key p, step, was, deed_if-Has p step stored_as k r h, there, moves)))
