-- ===== src/Commands/Inbox/Tests.antt =====
-- The inbox with an owner that counts its runs.
use record_hub.Base.{
  ℕ, ◌+◌, Text, codes, Bool, true, false, List, [], ◌∷◌, Option, none, some, Result, ok, err, ℤ,
  pos, Time, ◌≡◌, refl, arith,
}
use record_hub.Base.Map.{lookup}
use record_hub.Commands.Model.{Error, Status, Envelope, ResultEnvelope, validate_envelope}
use record_hub.Commands.Inbox.{Entries, process, InboxEntry, committed_with, new_entry, inbox_key}
use record_hub.Commands.Inbox.Laws.{HasResults}
use record_hub.Commands.Inbox.Once.{process_all, owner_runs_once, result_answered_again}

abbrev plain : Text → Text
plain s = s

abbrev envelope : Envelope
envelope = record {
  operation_id = codes "op1";
  tenant_id = codes "t";
  workspace_id = codes "w";
  policy_id = codes "pay";
  owner_system = codes "bids";
  resource_type = codes "bid";
  action = codes "close";
  purpose = codes "settle";
  resource_ref = codes "bids:bid:7";
  expected_version = none;
  payload_hash = codes "sha256:{}";
  payload = codes "{}";
  requested_by = record { issuer = codes "iss"; subject = codes "robot" };
  created_at = pos 5;
}

abbrev other_envelope : Envelope
other_envelope = record envelope { operation_id = codes "op2" }

abbrev result : ResultEnvelope
result = record {
  event_id = codes "e1";
  operation_id = codes "op1";
  tenant_id = codes "t";
  workspace_id = codes "w";
  owner_system = codes "bids";
  action = codes "close";
  status = Status.succeeded;
  result_hash = codes "h";
  error_code = [];
  safe_error = [];
  result_version = none;
  occurred_at = pos 9;
}

-- The owner counts its runs and always answers for the first operation.
abbrev counting : Envelope → ℕ → Result Error ResultEnvelope × ℕ
counting e n = (ok result, n + 1)

abbrev empty : Entries
empty = []

empty-HasResults : HasResults empty
unfolding lookup
empty-HasResults k c h = absurd (ground arith)

envelope_valid : validate_envelope plain envelope ≡ ok tt
unfolding validate_envelope record_hub.Base.ℤ-discrete record_hub.Base.Text-discrete
envelope_valid = refl

owner_runs_once_example :
    let (answer, entries, count) = process plain counting (pos 10) envelope empty 0 in
    let (entries', count') =
      process_all plain counting
        ((pos 11, other_envelope) ∷ (pos 12, envelope) ∷ [])
        entries
        count in
    (process plain counting (pos 13) envelope entries' count').2 ≡ count'
owner_runs_once_example =
    owner_runs_once plain counting (pos 10) envelope empty 0 empty-HasResults envelope_valid
      ((pos 11, other_envelope) ∷ (pos 12, envelope) ∷ []) (pos 13) envelope refl

envelope_answered : (process plain counting (pos 10) envelope empty 0).0 ≡ ok (result, false, none)
unfolding process validate_envelope record_hub.Base.ℤ-discrete record_hub.Base.Text-discrete
    record_hub.Commands.Inbox.claim lookup record_hub.Commands.Model.validate_result
    record_hub.Commands.Inbox.commit record_hub.Base.Map.insert
    record_hub.Commands.Inbox.InboxStatus-discrete
envelope_answered = refl

result_answered_again_example :
    let (answer, entries, count) = process plain counting (pos 10) envelope empty 0 in
    let (entries', count') =
      process_all plain counting ((pos 11, other_envelope) ∷ []) entries count in
    process plain counting (pos 13) envelope entries' count'
    ≡ (ok (result, true, none), entries', count')
result_answered_again_example =
    result_answered_again plain counting (pos 10) envelope empty 0 empty-HasResults envelope_valid
      result false none envelope_answered ((pos 11, other_envelope) ∷ []) (pos 13) envelope
      envelope_valid refl refl refl refl
