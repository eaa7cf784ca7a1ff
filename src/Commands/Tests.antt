-- ===== src/Commands/Tests.antt =====
-- The command gateway on concrete requests.
use record_hub.Base.{
  inl, arith, Text, codes, Bool, true, false, List, [], ◌∷◌, Option, none, some, Result, ok, err, ℤ,
  pos, Time, ◌≡◌, refl, arith, ℕ_discrete, split, utf8_valid,
}
use record_hub.Identity.Principal.{Principal, PrincipalKind, PrincipalKind-discrete}
use record_hub.Base.Trim.{trim_space, is_blank}
use record_hub.Binding.Reference.{parse_record_ref, bad_part}
use record_hub.Commands.Model.{
  Error, Status, Policy, SubmitRequest, Operation, ResultEnvelope, Envelope, bad_version,
  validate_result,
}
use record_hub.Commands.Memory.{memory_store}
use record_hub.Commands.Memory.Contract.{memory_laws}
use record_hub.Commands.Service.{Codec, Gateway, Env, normalize_request, canonical_payload}
use record_hub.Commands.Service.Submit.{GatewayWorld, submit, admit, new_operation}
use record_hub.Commands.Service.Results.{apply_result, advanced, is_replay, is_pending}
use record_hub.Commands.Service.Idempotency.{
  Permitted, submit_again, submit_conflict, submit-Permitted,
}
use record_hub.Commands.Service.Replay.{result_replay, result_conflict}
use record_hub.Commands.Service.Runs.{Call, run, run_keeps_ended}

-- A codec whose objects are texts, and whose digest is the text.
abbrev plain_codec : Codec
plain_codec = record {
  Object = Text;
  sha256_hex = λ s. s;
  decode = λ s. some s;
  encode = λ s. some s;
}

abbrev policy : Policy
policy = record {
  id = codes "pay";
  tenant_id = codes "t";
  workspace_id = codes "w";
  purpose = codes "settle";
  owner_system = codes "bids";
  resource_type = codes "bid";
  action = codes "close";
  expected_version_required = false;
  max_payload = pos 100;
}

abbrev gateway : Gateway
gateway = record {
  codec = plain_codec;
  store = memory_store;
  find_policy = λ tenant workspace id. ok policy;
  authorize = λ principal request. true;
}

abbrev robot : Principal
robot = record {
  kind = PrincipalKind.service;
  issuer = codes "iss";
  subject = codes "robot";
  audience = [];
  email = [];
  email_verified = false;
  name = [];
  preferred_username = [];
  groups = [];
  scopes = [];
}

abbrev request : SubmitRequest
request = record {
  tenant_id = codes "t";
  workspace_id = codes " w ";
  policy_id = codes "pay";
  resource_ref = codes "bids:bid:7";
  expected_version = none;
  payload = codes "{}";
  request_id = codes "r1";
  idempotency_key = codes "k1";
}

abbrev env : Env
env = record {
  new_id = some (codes "op1");
  created = pos 5;
  dispatched = pos 6;
  audit = none;
  publish = none;
}

abbrev start : GatewayWorld gateway
start = record { state = []; published = []; audits = [] }

abbrev trimmed_request : SubmitRequest
trimmed_request = record request { workspace_id = codes "w" }

abbrev order : Operation
order = new_operation gateway (codes "op1") env robot trimmed_request (codes "{}") policy

abbrev after_first : GatewayWorld gateway
after_first = record { state = (codes "t\0w\0op1", order) ∷ []; published = []; audits = [] }

first_runs : submit gateway env robot request start ≡ ok (order, false, after_first)
unfolding submit admit normalize_request trim_space ℕ_discrete bad_version parse_record_ref split
    bad_part is_blank canonical_payload utf8_valid PrincipalKind-discrete
    record_hub.Base.Text-discrete record_hub.Commands.Memory.find_by_idempotency
    record_hub.Commands.Model.validate_operation record_hub.Base.ℤ-discrete
    record_hub.Commands.Memory.create record_hub.Base.Map.lookup record_hub.Base.Map.insert
first_runs = refl

start-IsValid : memory_laws.IsValid start.state
start-IsValid = tt

submit_again_example :
    (q : Operation) × (w : GatewayWorld gateway) × (submit gateway env robot request after_first
      ≡ ok (q, true, w))
    × (q.id ≡ order.id)
    × (q.payload_hash ≡ order.payload_hash)
submit_again_example =
    submit_again gateway memory_laws env robot request start order false after_first start-IsValid
      first_runs env

abbrev other_request : SubmitRequest
other_request = record request { payload = codes "{1}" }

request_admitted : admit gateway robot request ≡ ok (trimmed_request, codes "{}", policy)
unfolding admit normalize_request trim_space ℕ_discrete bad_version parse_record_ref split bad_part
    is_blank canonical_payload utf8_valid PrincipalKind-discrete record_hub.Base.Text-discrete
request_admitted = refl

other_admitted :
    admit gateway robot other_request
    ≡ ok (record trimmed_request { payload = codes "{1}" }, codes "{1}", policy)
unfolding admit normalize_request trim_space ℕ_discrete bad_version parse_record_ref split bad_part
    is_blank canonical_payload utf8_valid PrincipalKind-discrete record_hub.Base.Text-discrete
other_admitted = refl

submit_conflict_example : submit gateway env robot other_request after_first ≡ err Error.idempotency
submit_conflict_example =
    submit_conflict gateway memory_laws env robot request start order false after_first
      start-IsValid first_runs env robot other_request trimmed_request
      (record trimmed_request { payload = codes "{1}" }) (codes "{}") (codes "{1}") policy policy
      request_admitted other_admitted refl (ground arith)

submit-Permitted_example : Permitted gateway robot request
submit-Permitted_example =
    submit-Permitted gateway env robot request start order false after_first first_runs

abbrev result : ResultEnvelope
result = record {
  event_id = codes "e1";
  operation_id = codes "op1";
  tenant_id = codes "t";
  workspace_id = codes "w";
  owner_system = codes "bids";
  action = codes "close";
  status = Status.succeeded;
  result_hash = codes "h";
  error_code = [];
  safe_error = [];
  result_version = some (pos 2);
  occurred_at = pos 9;
}

abbrev closed : Operation
closed = advanced (pos 9) result order

abbrev after_result : GatewayWorld gateway
after_result = record { state = (codes "t\0w\0op1", closed) ∷ []; published = []; audits = [] }

result_runs :
    apply_result memory_store (pos 9) none result after_first ≡ ok (closed, false, after_result)
unfolding apply_result validate_result record_hub.Base.ℤ-discrete record_hub.Commands.Memory.find
    record_hub.Base.Map.lookup record_hub.Base.Text-discrete record_hub.Commands.Memory.save_cas
    record_hub.Base.Map.insert
result_runs = refl

after_first-IsValid : memory_laws.IsValid after_first.state
unfolding record_hub.Base.Map.lookup record_hub.Commands.Memory.scan
after_first-IsValid = (refl, refl, refl, tt)

result_replay_example :
    apply_result memory_store (pos 20) none result after_result ≡ ok (closed, true, after_result)
result_replay_example =
    result_replay memory_store memory_laws (pos 9) none result after_first closed false after_result
      after_first-IsValid result_runs (pos 20) none

abbrev late_result : ResultEnvelope
late_result = record result { event_id = codes "e2"; status = Status.failed }

result_conflict_example :
    apply_result memory_store (pos 20) none late_result after_result ≡ err Error.result_conflict
unfolding validate_result is_replay record_hub.Base.ℤ-discrete record_hub.Base.Text-discrete
result_conflict_example =
    result_conflict memory_store memory_laws (pos 9) none result after_first closed false
      after_result after_first-IsValid result_runs (pos 20) none late_result refl refl refl refl
      refl refl (inl (λ h. absurd (ground arith)))

abbrev calls : List Call
calls =
    Call.submitted env robot request
    ∷ Call.resulted (pos 20) none late_result
    ∷ Call.submitted env robot other_request
    ∷ []

after_result-IsValid : memory_laws.IsValid after_result.state
unfolding record_hub.Base.Map.lookup record_hub.Commands.Memory.scan
after_result-IsValid = (refl, refl, refl, tt)

closed_found :
    memory_store.find (codes "t") (codes "w") (codes "op1") after_result.state ≡ ok closed
unfolding record_hub.Commands.Memory.find record_hub.Base.Map.lookup record_hub.Base.Text-discrete
closed_found = refl

run_keeps_ended_example :
    memory_store.find (codes "t") (codes "w") (codes "op1") (run gateway calls after_result).state
    ≡ ok closed
unfolding is_pending
run_keeps_ended_example =
    run_keeps_ended gateway memory_laws (codes "t") (codes "w") (codes "op1") closed calls
      after_result after_result-IsValid closed_found refl
