-- ===== src/Connector/Onboarding/Calls.antt =====
-- Any sequence of calls of the onboarding service, and who took its steps.
use record_hub.Base.{Text, text_eq, ℤ, int_eq, List, ◌++◌, [], ◌∷◌, Result, ok, err, ◌≡◌, refl}
use record_hub.Identity.Principal.{Principal, IdentityKey, identity_key}
use record_hub.Identity.Authorization.{Action, MembershipReader}
use record_hub.Connector.Names.{Error}
use record_hub.Connector.Manifest.{Status, status_eq, Key, Manifest}
use record_hub.Connector.Onboarding.{
  OnboardingEvidence, OnboardingRecord, World, Env, to_review, reviewed, approved_by, to_disable,
  verdict, finished, submit, next_record, transition, Step, take_step,
}

pub data Call : Type 0 where
  submits : Env → Principal → Text → Text → Manifest → OnboardingEvidence → Call
  steps : Env → Principal → Text → Text → Key → ℤ → Step → Call

-- A step that moved the record under a key, and whose it was.
pub record Deed : Type 0 where
  pub key : Text
  pub by : IdentityKey
  pub step : Step

module _ (lower_unicode : Text → Text) (digest : OnboardingRecord → Text)
    (memberships : MembershipReader) where
  unfoldable pub after : Call → World → World
  after (submits env p tenant workspace m e) w =
      (submit lower_unicode digest memberships env p tenant workspace m e w).1
  after (steps env p tenant workspace key expected step) w =
      (take_step lower_unicode digest memberships env p tenant workspace key expected step w).1

  unfoldable pub run : List Call → World → World
  run [] w = w
  run (c ∷ cs) w = run cs (after c w)

  -- The record that a step stores: its result before the audit.
  unfoldable pub step_result :
      Env
      → Principal
      → Text
      → Text
      → Key
      → ℤ
      → Step
      → World
      → Result Error (Text × OnboardingRecord)
  step_result env p tenant workspace key expected Step.submit_for_review w =
      next_record lower_unicode digest memberships env p tenant workspace key expected
        Status.in_review Action.connector_onboard to_review w
  step_result env p tenant workspace key expected (Step.review b) w =
      next_record lower_unicode digest memberships env p tenant workspace key expected (verdict b)
        Action.connector_review (reviewed p) w
  step_result env p tenant workspace key expected Step.enable w =
      next_record lower_unicode digest memberships env p tenant workspace key expected
        Status.enabled Action.connector_approve (approved_by p) w
  step_result env p tenant workspace key expected Step.disable w =
      next_record lower_unicode digest memberships env p tenant workspace key expected
        Status.disabled Action.connector_approve to_disable w

  pub take_step-finished :
      (env : Env) (p : Principal) (tenant workspace : Text) (key : Key) (expected : ℤ) (step : Step)
      (w : World)
      → (action : Text) × (take_step lower_unicode digest memberships env p tenant workspace key
            expected step w
          ≡ finished lower_unicode digest memberships env p action
              (step_result env p tenant workspace key expected step w)
              w)
  unfolding take_step step_result transition
  take_step-finished env p tenant workspace key expected Step.submit_for_review w = (_, refl)
  take_step-finished env p tenant workspace key expected (Step.review b) w = (_, refl)
  take_step-finished env p tenant workspace key expected Step.enable w = (_, refl)
  take_step-finished env p tenant workspace key expected Step.disable w = (_, refl)

  unfoldable pub deed_if : Principal → Step → Result Error (Text × OnboardingRecord) → List Deed
  deed_if p step (err e) = []
  deed_if p step (ok (key, r)) = record { key = key; by = identity_key p; step = step } ∷ []

  -- The deed of a call: of a step that passed its checks.
  unfoldable pub deeds_of : Call → World → List Deed
  unfolding deed_if
  deeds_of (submits env p tenant workspace m e) w = []
  deeds_of (steps env p tenant workspace key expected step) w =
      deed_if p step (step_result env p tenant workspace key expected step w)

  -- The deeds of a run, in their order.
  unfoldable pub deeds : List Call → World → List Deed
  deeds [] w = []
  deeds (c ∷ cs) w = deeds_of c w ++ deeds cs (after c w)
