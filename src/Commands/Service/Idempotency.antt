-- ===== src/Commands/Service/Idempotency.antt =====
-- Submitting twice, and what a submission that succeeds has passed.
use record_hub.Base.{
  Text, text_eq, Bool, true, false, not, ◌&&◌, length, ok, err, reject_if, ℤ, pos, ◌≤ℤ◌, ◌<ℤ◌,
  ltb_ℤ, Option, none, some, is_empty, refl, ◌≡◌, ◌≢◌, sym, ap, ◌∙◌, arith, >>=-eq-ok,
}
use record_hub.Identity.Principal.{Principal, PrincipalKind, kind_eq}
use record_hub.Binding.Reference.{RecordRef, parse_record_ref}
use record_hub.Commands.Model.{Error, Operation, SubmitRequest, Policy}
use record_hub.Commands.Store.{StoreLaws}
use record_hub.Commands.Service.{
  Gateway, Env, is_service, is_some, wrong_reference, normalize_request,
}
use record_hub.Commands.Service.Submit.{receipt, dispatch, found, admit, submit, GatewayWorld}
use record_hub.Commands.Service.SubmitEffect.{hash, submit-Submitted, dispatch_answer}

module _ (g : Gateway) (laws : StoreLaws g.store) (env : Env) (principal : Principal)
    (raw : SubmitRequest) (w : GatewayWorld g) (p : Operation) (replay : Bool) (w' : GatewayWorld g)
    (valid : laws.IsValid w.state) (done : submit g env principal raw w ≡ ok (p, replay, w')) where
  -- A request that succeeded and is sent again, in any surroundings, succeeds as a replay: it
  -- answers with the operation of the first call, its identifier and payload hash.
  pub submit_again :
      (later : Env)
      → (q : Operation) × (w'' : GatewayWorld g) × (submit g later principal raw w'
          ≡ ok (q, true, w''))
        × (q.id ≡ p.id)
        × (q.payload_hash ≡ p.payload_hash)
  unfolding submit found
  submit_again later =
      let s = submit-Submitted g laws env principal raw w p replay w' valid done in
      let r = s.recorded in
      let (q, w'') = dispatch g later r.stands w' in
      let answer =
        dispatch_answer g laws later (receipt s.request s.policy) r.stands w' r.valid r.kept in
      (
        q,
        w'',
        rw s.admitted (rw r.kept (ground (arith, r.digests.0))),
        answer.0 ∙ r.same,
        answer.1 ∙ r.digests.0 ∙ sym r.digests.1,
      )

  -- A request that passes the checks with the same policy and idempotency key as one that succeeded,
  -- but another payload hash, is refused, in any surroundings.
  pub submit_conflict :
      (later : Env) (principal' : Principal) (raw' r r' : SubmitRequest) (payload payload' : Text)
      (policy policy' : Policy)
      → admit g principal raw ≡ ok (r, payload, policy)
      → admit g principal' raw' ≡ ok (r', payload', policy')
      → receipt r' policy' ≡ receipt r policy
      → hash g laws payload' ≢ hash g laws payload
      → submit g later principal' raw' w' ≡ err Error.idempotency
  unfolding submit found
  submit_conflict later principal' raw' r r' payload payload' policy policy' first second same
        other =
      let s = submit-Submitted g laws env principal raw w p replay w' valid done in
      let r_e : s.request ≡ r = cc in
      let payload_e : s.payload ≡ payload = cc in
      let policy_e : s.policy ≡ policy = cc in
      let digest : s.recorded.stands.payload_hash ≡ hash g laws payload =
        s.recorded.digests.0 ∙ ap (hash g laws) payload_e in
      let kept : g.store.find_by_idempotency (receipt r' policy') w'.state ≡ ok s.recorded.stands =
        rw same (rw (sym r_e, sym policy_e) s.recorded.kept) in
      rw second (rw kept (ground (arith, digest, other)))

-- What holds of a submission that succeeds, of the normal form of its request: a service with an
-- issuer and a subject sent it; its policy was found, in its tenant and workspace; the payload has no
-- more bytes than the policy's limit, if that is positive; the reference is of the policy's owner system
-- and resource type; the version is there if the policy requires it; and the principal is authorized
-- for that tenant, workspace and reference with the policy's purpose, owner system and resource type.
pub record Permitted (g : Gateway) (principal : Principal) (raw : SubmitRequest) : Type 0 where
  pub request : SubmitRequest
  pub payload : Text
  pub policy : Policy
  pub normal : normalize_request g.codec raw ≡ ok (request, payload)
  pub service : principal.kind ≡ PrincipalKind.service
  pub issued : is_empty principal.issuer ≡ false
  pub named : is_empty principal.subject ≡ false
  pub known : g.find_policy request.tenant_id request.workspace_id request.policy_id ≡ ok policy
  pub fits : (pos 0 <ℤ policy.max_payload) → pos (length payload) ≤ℤ policy.max_payload
  pub reference : RecordRef
  pub refers : parse_record_ref request.resource_ref ≡ some reference
  pub of_owner : reference.system ≡ policy.owner_system
  pub of_type : reference.type ≡ policy.resource_type
  pub version :
      policy.expected_version_required ≡ true → (v : ℤ) × (request.expected_version ≡ some v)
  pub allowed :
      g.authorize principal (record {
        tenant_id = request.tenant_id;
        workspace_id = request.workspace_id;
        purpose = policy.purpose;
        record_ref = request.resource_ref;
        resource_system = policy.owner_system;
        resource_type = policy.resource_type;
      })
      ≡ true

payload_fits :
    (limit size : ℤ) (e : Error) {u : Unit {0}}
    → pos 0 <ℤ limit
    → reject_if (ltb_ℤ (pos 0) limit && ltb_ℤ limit size) e ≡ ok u
    → size ≤ℤ limit
payload_fits limit size e positive h = ground arith

right_reference :
    (found : Option RecordRef) (policy : Policy)
    → wrong_reference found policy ≡ false
    → (r : RecordRef) × (found ≡ some r)
      × (r.system ≡ policy.owner_system)
      × (r.type ≡ policy.resource_type)
right_reference none policy h = absurd (ground arith)
right_reference (some r) policy h = (r, refl, ground arith, ground arith)

given_version :
    (required : Bool) (v : Option ℤ)
    → (required && not (is_some v)) ≡ false
    → required ≡ true
    → (n : ℤ) × (v ≡ some n)
given_version required none h needs = absurd (ground arith)
given_version required (some n) h needs = (n, refl)

-- Every submission that succeeds, as a replay or not, was sent by a service and fits the policy it
-- names: in the size of its payload, its reference, its version and what the principal may do.
pub submit-Permitted :
    (g : Gateway) (env : Env) (principal : Principal) (raw : SubmitRequest) (w : GatewayWorld g)
    (p : Operation) (replay : Bool) (w' : GatewayWorld g)
    → submit g env principal raw w ≡ ok (p, replay, w')
    → Permitted g principal raw
unfolding submit admit
submit-Permitted g env principal raw w p replay w' h =
    let ((r, payload, policy), passed, rest) = >>=-eq-ok (admit g principal raw) _ h in
    let ((r', payload'), normal, more) = >>=-eq-ok (normalize_request g.codec raw) _ passed in
    let (u, service, more) =
      >>=-eq-ok (reject_if (not (is_service principal)) Error.policy_denied) _ more in
    let (policy', known, more) =
      >>=-eq-ok (g.find_policy r'.tenant_id r'.workspace_id r'.policy_id) _ more in
    let (u', small, rest) =
      >>=-eq-ok
        (reject_if
          (ltb_ℤ (pos 0) policy'.max_payload && ltb_ℤ policy'.max_payload (pos (length payload')))
          Error.payload_too_large)
        _ more in
    let right : wrong_reference (parse_record_ref r'.resource_ref) policy' ≡ false = ground arith in
    let (ref, refers, of_owner, of_type) =
      right_reference (parse_record_ref r'.resource_ref) policy' right in
    let present : (policy'.expected_version_required && not (is_some r'.expected_version)) ≡ false =
      ground arith in
    record {
      request = r';
      payload = payload';
      policy = policy';
      normal = normal;
      service = ground arith;
      issued = ground arith;
      named = ground arith;
      known = known;
      fits = λ positive.
          payload_fits policy'.max_payload (pos (length payload')) Error.payload_too_large positive
            small;
      reference = ref;
      refers = refers;
      of_owner = of_owner;
      of_type = of_type;
      version = given_version policy'.expected_version_required r'.expected_version present;
      allowed = ground arith;
    }
