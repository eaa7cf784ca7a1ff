-- ===== src/Connector/Onboarding/Laws.antt =====
-- Separation of duties in the onboarding of a connector.
use record_hub.Base.{
  Text, List, ◌++◌, Has, Has-append_left, text_eq, int_eq, Bool, true, false, ok, Time, ◌≡◌, ◌≢◌,
  refl, sym, ◌⊎◌, inl, inr, arith, inc64,
}
use mathlib.Core.Path.{subst}
use record_hub.Identity.Principal.{Principal, IdentityKey, identity_eq, identity_key}
use record_hub.Connector.Manifest.{Status, status_eq}
use record_hub.Connector.Onboarding.Calls.{Deed}
use record_hub.Connector.Onboarding.{
  Step, OnboardingRecord, to_review, reviewed, approved_by, to_disable, advanced, verdict,
}

module _ (ds : List Deed) (key : Text) where
  -- The review among the deeds was of another identity than the submitter's, and the record names the
  -- subject of that identity as its reviewer.
  abbrev pub Reviewed : OnboardingRecord → Type 0
  Reviewed r =
      (i : IdentityKey) × (b : Bool) × Has (record { key = key; by = i; step = Step.review b }) ds
      × (i.subject ≡ r.evidence.reviewer)
      × (r.submitter ≢ i)

  -- The enabling among the deeds was of another identity than the submitter's, which the record names
  -- as its approver and not as its reviewer, with every check passed.
  abbrev pub SignedOff : OnboardingRecord → Type 0
  SignedOff r =
      (i : IdentityKey) × Has (record { key = key; by = i; step = Step.enable }) ds
      × (i.subject ≡ r.evidence.approver)
      × (r.submitter ≢ i)
      × (r.evidence.reviewer ≢ r.evidence.approver)
      × (r.evidence.compatibility_pass ≡ true)
      × (r.evidence.fixture_pass ≡ true)
      × (r.evidence.redaction_pass ≡ true)
      × (r.evidence.operator_audit ≡ true)
      × (r.evidence.owner_signoff ≡ true)

  -- What a record of each status has behind it.
  abbrev pub SoundAs : Status → OnboardingRecord → Type 0
  SoundAs Status.draft r = Unit
  SoundAs Status.in_review r = Unit
  SoundAs Status.approved r = Reviewed r
  SoundAs Status.rejected r = Reviewed r
  SoundAs Status.enabled r = Reviewed r × SignedOff r
  SoundAs Status.disabled r = Reviewed r × SignedOff r
  SoundAs _ r = false ≡ true

  abbrev pub IsSound : OnboardingRecord → Type 0
  IsSound r = SoundAs r.manifest.status r

module _ (ds more : List Deed) (key : Text) (r : OnboardingRecord) where
  Reviewed-more : Reviewed ds key r → Reviewed (ds ++ more) key r
  Reviewed-more (i, b, done, named, apart) = (i, b, Has-append_left _ ds more done, named, apart)

  SignedOff-more : SignedOff ds key r → SignedOff (ds ++ more) key r
  SignedOff-more (i, done, named, apart, other, c1, c2, c3, c4, c5) =
      (i, Has-append_left _ ds more done, named, apart, other, c1, c2, c3, c4, c5)

  pub SoundAs-more : (s : Status) → SoundAs ds key s r → SoundAs (ds ++ more) key s r
  SoundAs-more Status.draft h = h
  SoundAs-more Status.in_review h = h
  SoundAs-more Status.approved h = Reviewed-more h
  SoundAs-more Status.rejected h = Reviewed-more h
  SoundAs-more Status.enabled (h, g) = (Reviewed-more h, SignedOff-more g)
  SoundAs-more Status.disabled (h, g) = (Reviewed-more h, SignedOff-more g)
  SoundAs-more Status.deprecated h = absurd (ground arith)
  SoundAs-more (Status.other x) h = absurd (ground arith)

-- The edges of the life of a record.
abbrev pub Edge : Status → Status → Type 0
Edge s t =
    ((s ≡ Status.draft) × (t ≡ Status.in_review))
    ⊎ ((s ≡ Status.in_review) × (t ≡ Status.approved))
    ⊎ ((s ≡ Status.in_review) × (t ≡ Status.rejected))
    ⊎ ((s ≡ Status.approved) × (t ≡ Status.enabled))
    ⊎ ((s ≡ Status.enabled) × (t ≡ Status.disabled))

-- What a successful step of an identity makes of the record that stood there.
pub record Advanced (by : IdentityKey) (step : Step) (r r' : OnboardingRecord) : Type 0 where
  pub sound :
      (ds : List Deed) (key : Text)
      → Has (record { key = key; by = by; step = step }) ds
      → IsSound ds key r
      → IsSound ds key r'
  pub edge : Edge r.manifest.status r'.manifest.status
  pub revision : r'.manifest.revision ≡ inc64 r.manifest.revision
  pub submitter : r'.submitter ≡ r.submitter
  pub scope : (r'.tenant_id ≡ r.tenant_id) × (r'.workspace_id ≡ r.workspace_id)
  pub manifest : r'.manifest.key ≡ r.manifest.key

pub to_review-Advanced :
    (now : Time) (by : IdentityKey) (r r' : OnboardingRecord)
    → to_review r ≡ ok r'
    → Advanced by Step.submit_for_review r (advanced now Status.in_review r')
to_review-Advanced now by r r' h = record {
  sound = λ ds key done s. tt;
  edge = inl (ground arith, refl);
  revision = ground arith;
  submitter = ground arith;
  scope = ground arith;
  manifest = ground arith;
}

pub reviewed-Advanced :
    (now : Time) (p : Principal) (b : Bool) (r r' : OnboardingRecord)
    → reviewed p r ≡ ok r'
    → Advanced (identity_key p) (Step.review b) r (advanced now (verdict b) r')
reviewed-Advanced now p true r r' h = record {
  sound = λ ds key done s. (identity_key p, true, done, ground arith, ground arith);
  edge = inr (inl (ground arith, refl));
  revision = ground arith;
  submitter = ground arith;
  scope = ground arith;
  manifest = ground arith;
}
reviewed-Advanced now p false r r' h = record {
  sound = λ ds key done s. (identity_key p, false, done, ground arith, ground arith);
  edge = inr (inr (inl (ground arith, refl)));
  revision = ground arith;
  submitter = ground arith;
  scope = ground arith;
  manifest = ground arith;
}

was_approved :
    (p : Principal) (r r' : OnboardingRecord)
    → approved_by p r ≡ ok r'
    → r.manifest.status ≡ Status.approved
was_approved p r r' h = ground arith

approved_by-SignedOff :
    (now : Time) (p : Principal) (r r' : OnboardingRecord) (ds : List Deed) (key : Text)
    → approved_by p r ≡ ok r'
    → Has (record { key = key; by = identity_key p; step = Step.enable }) ds
    → SignedOff ds key (advanced now Status.enabled r')
approved_by-SignedOff now p r r' ds key h done = (
  identity_key p,
  done,
  ground arith,
  ground arith,
  ground arith,
  ground arith,
  ground arith,
  ground arith,
  ground arith,
  ground arith,
)

pub approved_by-Advanced :
    (now : Time) (p : Principal) (r r' : OnboardingRecord)
    → approved_by p r ≡ ok r'
    → Advanced (identity_key p) Step.enable r (advanced now Status.enabled r')
approved_by-Advanced now p r r' h = record {
  sound = λ ds key done s.
      let (i, b, before, seen, apart) = subst (λ x. SoundAs ds key x r) (was_approved p r r' h) s in
      ((i, b, before, ground arith, ground arith), approved_by-SignedOff now p r r' ds key h done);
  edge = inr (inr (inr (inl (ground arith, refl))));
  revision = ground arith;
  submitter = ground arith;
  scope = ground arith;
  manifest = ground arith;
}

was_enabled :
    (r r' : OnboardingRecord)
    → to_disable r ≡ ok r'
    → (r.manifest.status ≡ Status.enabled) × (r ≡ r')
was_enabled r r' h = (ground arith, ground arith)

pub to_disable-Advanced :
    (now : Time) (by : IdentityKey) (r r' : OnboardingRecord)
    → to_disable r ≡ ok r'
    → Advanced by Step.disable r (advanced now Status.disabled r')
to_disable-Advanced now by r r' h =
    let (e, same) = was_enabled r r' h in
    rw (sym same) (record {
      sound = λ ds key done s. subst (λ x. SoundAs ds key x r) e s;
      edge = inr (inr (inr (inr (e, refl))));
      revision = refl;
      submitter = refl;
      scope = (refl, refl);
      manifest = refl;
    })
