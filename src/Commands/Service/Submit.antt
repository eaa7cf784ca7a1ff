-- ===== src/Commands/Service/Submit.antt =====
-- server/internal/modules/commands/service.go: Submit, dispatch and Get.
use record_hub.Base.{
  Text, text_eq, codes, Bool, true, false, not, ◌&&◌, ◌!=◌, ◌==◌, [], ◌∷◌, length, Option, none,
  some, Result, ok, err, ◌>>=◌, ◌>>◌, reject_if, if◌then◌else◌, pos, ltb_ℤ, inc64, Time,
}
use record_hub.Base.Trim.{trim_space}
use record_hub.Identity.Principal.{Principal, identity_key}
use record_hub.Binding.Reference.{parse_record_ref}
use record_hub.Commands.Model.{
  Error, Status, status_eq, Policy, SubmitRequest, Operation, validate_operation, payload_hash_of,
}
use record_hub.Commands.Store.{Receipt}
use record_hub.Commands.Service.{
  Gateway, Env, World, normalize_request, command_subject, envelope_of, is_service, is_some,
  wrong_reference, authorization,
}
use record_hub.Audit

abbrev pub receipt : SubmitRequest → Policy → Receipt
receipt r policy = record {
  tenant_id = r.tenant_id;
  workspace_id = r.workspace_id;
  policy_id = policy.id;
  key = r.idempotency_key;
}

module _ (g : Gateway) where
  -- The world of a gateway.
  abbrev pub GatewayWorld : Type 0
  GatewayWorld = World g.store.State

  abbrev pub moved_on : Time → Operation → Operation
  moved_on now o = record o {
    status = Status.dispatched;
    revision = inc64 o.revision;
    updated_at = now;
  }

  -- `if saved, err := SaveCAS(...); err == nil { return saved }; return operation`
  unfoldable pub saved :
      Operation → GatewayWorld → Result Error (Operation × g.store.State) → Operation × GatewayWorld
  saved o w (ok (p, state)) = (p, record w { state = state })
  saved o w (err _) = (o, w)

  unfoldable pub dispatch : Env → Operation → GatewayWorld → Operation × GatewayWorld
  unfolding saved
  dispatch env o w = elim env.publish [
    | none ↦ (o, w)
    | some sent ↦
        if o.status != Status.accepted
        then (o, w)
        else if not sent
        then (o, w)
        else (let w' = record w {
          published = (command_subject o.owner_system o.action, envelope_of o) ∷ w.published;
        } in
            saved o w' (g.store.save_cas (moved_on env.dispatched o) o.revision w'.state))
  ]

  abbrev pub new_operation : Text → Env → Principal → SubmitRequest → Text → Policy → Operation
  new_operation id env principal r payload policy = record {
    id = id;
    tenant_id = r.tenant_id;
    workspace_id = r.workspace_id;
    policy_id = policy.id;
    owner_system = policy.owner_system;
    resource_type = policy.resource_type;
    action = policy.action;
    purpose = policy.purpose;
    resource_ref = r.resource_ref;
    expected_version = r.expected_version;
    payload_hash = payload_hash_of g.codec.sha256_hex payload;
    payload = payload;
    idempotency_key = r.idempotency_key;
    request_id = r.request_id;
    status = Status.accepted;
    revision = pos 1;
    safe_error = [];
    result_event_id = [];
    result_hash = [];
    result_version = none;
    created_by = identity_key principal;
    created_at = env.created;
    updated_at = env.created;
  }

  submit_entry : Operation → Audit.Entry
  submit_entry o = record {
    tenant_id = o.tenant_id;
    workspace_id = o.workspace_id;
    action = codes "command.submit";
    actor = o.created_by;
    resource_type = codes "CommandOperation";
    resource_id = o.id;
    resource_version = o.revision;
    request_id = o.request_id;
    idempotency_key = o.idempotency_key;
    before_hash = [];
    after_hash = o.payload_hash;
    view_id = [];
    field_set = [];
    redacted_fields = [];
    created_at = o.created_at;
  }

  -- The audit of a created operation; a failing writer only marks the copy at hand.
  unfoldable pub audited : Option Bool → Operation → GatewayWorld → Operation × GatewayWorld
  unfolding submit_entry
  audited none o w = (o, w)
  audited (some true) o w = (o, record w { audits = submit_entry o ∷ w.audits })
  audited (some false) o w = (record o { safe_error = codes "audit unavailable" }, w)

  abbrev pub Outcome : Type 0
  Outcome = Result Error (Operation × Bool × GatewayWorld)

  -- The answer to a receipt that was found again after Create had refused.
  unfoldable pub raced : Text → GatewayWorld → Result Error Operation → Outcome
  raced hash w (ok existing) =
      if existing.payload_hash == hash then ok (existing, true, w) else err Error.idempotency
  raced hash w (err _) = err Error.idempotency

  -- What follows Create.
  unfoldable pub created :
      Env → Receipt → Operation → GatewayWorld → Result Error g.store.State → Outcome
  unfolding audited dispatch raced
  created env q o w (ok state) =
      let (o', w') = audited env.audit o (record w { state = state }) in
      let (p, w'') = dispatch env o' w' in ok (p, false, w'')
  created env q o w (err Error.exists) =
      raced o.payload_hash w (g.store.find_by_idempotency q w.state)
  created env q o w (err e) = err e

  -- A receipt that is not there yet: a new operation.
  unfoldable pub submit_new :
      Env → Principal → SubmitRequest → Text → Policy → GatewayWorld → Outcome
  unfolding created
  submit_new env principal r payload policy w = elim env.new_id [
    | none ↦ err Error.unavailable
    | some id ↦
        let o = new_operation id env principal r payload policy in
        validate_operation o >> created env (receipt r policy) o w (g.store.create o w.state)
  ]

  -- What follows FindByIdempotency.
  unfoldable pub found :
      Env
      → Principal
      → SubmitRequest
      → Text
      → Policy
      → GatewayWorld
      → Result Error Operation
      → Outcome
  unfolding submit_new dispatch
  found env principal r payload policy w (ok existing) =
      if existing.payload_hash != payload_hash_of g.codec.sha256_hex payload
      then err Error.idempotency
      else (let (o, w') = dispatch env existing w in ok (o, true, w'))
  found env principal r payload policy w (err Error.not_found) =
      submit_new env principal r payload policy w
  found env principal r payload policy w (err e) = err e

  -- The checks before the store is asked: the trimmed request, the payload and the policy.
  unfoldable pub admit : Principal → SubmitRequest → Result Error (SubmitRequest × Text × Policy)
  admit principal raw = do
    (r, payload) ← normalize_request g.codec raw
    reject_if (not (is_service principal)) Error.policy_denied
    policy ← g.find_policy r.tenant_id r.workspace_id r.policy_id
    reject_if (ltb_ℤ (pos 0) policy.max_payload && ltb_ℤ policy.max_payload (pos (length payload)))
        Error.payload_too_large
    reject_if (wrong_reference (parse_record_ref r.resource_ref) policy) Error.policy_denied
    reject_if (policy.expected_version_required && not (is_some r.expected_version))
        Error.expected_version
    reject_if
        (not
          (g.authorize principal (authorization r.tenant_id r.workspace_id r.resource_ref policy)))
        Error.policy_denied
    ok (r, payload, policy)

  -- `Service.Submit`: the operation, and whether it is the replay of an earlier one.
  unfoldable pub submit : Env → Principal → SubmitRequest → GatewayWorld → Outcome
  unfolding found
  submit env principal raw w = do
    (r, payload, policy) ← admit principal raw
    found env principal r payload policy w (g.store.find_by_idempotency (receipt r policy) w.state)

  -- `Service.Get`
  unfoldable pub get : Principal → Text → Text → Text → GatewayWorld → Result Error Operation
  get principal tenant workspace id w = do
    o ← g.store.find (trim_space tenant) (trim_space workspace) (trim_space id) w.state
    reject_if (not (is_service principal)) Error.policy_denied
    elim (g.find_policy o.tenant_id o.workspace_id o.policy_id) [
      | err _ ↦ err Error.policy_denied
      | ok policy ↦
          reject_if
            (not (
              g.authorize principal
                (authorization o.tenant_id o.workspace_id o.resource_ref policy)))
            Error.policy_denied
          >> ok o
    ]
