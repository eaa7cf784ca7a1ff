-- ===== src/Commands/Inbox.antt =====
-- server/internal/modules/commands/inbox.go: the inbox of an owner, which claims an operation
-- before the owner executes it and commits the result. The owner's callback `execute` is a
-- parameter over the owner's own state; so are the SHA-256 digest and, per call, the clock.
pub mod Laws
pub mod Effect
pub mod Once
mod Tests
use record_hub.Base.{
  Text, Text-discrete, text_eq, Eq, codes, is_empty, Bool, true, false, not, ◌&&◌, ◌||◌, ◌==◌, ◌!=◌,
  List, [], ◌∷◌, ◌++◌, Option, none, some, Result, ok, err, ◌>>=◌, ◌>>◌, reject_if, if◌then◌else◌,
  ℤ, pos, int_eq, inc64, Time, is_zero,
}
use record_hub.Base.Map.{lookup, insert}
use record_hub.Commands.Model.{
  Error, Status, Envelope, ResultEnvelope, validate_envelope, validate_result,
}

-- A Go string, CLAIMED or COMMITTED.
pub data InboxStatus : Type 0 where
  claimed committed : InboxStatus
  other : Text → InboxStatus

unfoldable pub InboxStatus-discrete : Discrete InboxStatus
InboxStatus-discrete = hlevel Text-discrete

instance abbrev pub inbox_status_eq : Eq InboxStatus
inbox_status_eq = record { dec = InboxStatus-discrete }

pub record InboxEntry : Type 0 where
  pub operation_id : Text
  pub tenant_id : Text
  pub workspace_id : Text
  pub owner_system : Text
  pub action : Text
  pub payload_hash : Text
  pub status : InboxStatus
  pub result : Option ResultEnvelope
  pub revision : ℤ
  pub created_at : Time
  pub updated_at : Time

abbrev pub Entries : Type 0
Entries = List (Text × InboxEntry)

-- `tenantID + "\x00" + workspaceID + "\x00" + ownerSystem + "\x00" + operationID`
abbrev pub inbox_key_values : Text → Text → Text → Text → Text
inbox_key_values tenant workspace owner operation =
    tenant ++ (0 ∷ (workspace ++ (0 ∷ (owner ++ (0 ∷ operation)))))

abbrev pub inbox_key : Envelope → Text
inbox_key e = inbox_key_values e.tenant_id e.workspace_id e.owner_system e.operation_id

abbrev pub new_entry : Envelope → InboxEntry
new_entry e = record {
  operation_id = e.operation_id;
  tenant_id = e.tenant_id;
  workspace_id = e.workspace_id;
  owner_system = e.owner_system;
  action = e.action;
  payload_hash = e.payload_hash;
  status = InboxStatus.claimed;
  result = none;
  revision = pos 1;
  created_at = e.created_at;
  updated_at = e.created_at;
}

-- `MemoryInboxStore.Claim`: the entry, whether it was committed before, and the store.
unfoldable pub claim : Envelope → Entries → Result Error (InboxEntry × Bool × Entries)
claim e entries = elim (lookup (inbox_key e) entries) [
  | some existing ↦
      if existing.payload_hash != e.payload_hash
        || existing.owner_system != e.owner_system
        || existing.action != e.action
      then err Error.inbox_conflict
      else if existing.status == InboxStatus.committed
      then ok (existing, true, entries)
      else err Error.inbox_claimed
  | none ↦ ok (new_entry e, false, insert (inbox_key e) (new_entry e) entries)
]

-- `current.Result != nil && current.Result.EventID == result.EventID`
abbrev pub same_event : Option ResultEnvelope → ResultEnvelope → Bool
same_event none r = false
same_event (some stored) r = stored.event_id == r.event_id

abbrev pub committed_with : ResultEnvelope → InboxEntry → InboxEntry
committed_with r current = record current {
  status = InboxStatus.committed;
  result = some r;
  revision = inc64 current.revision;
  updated_at = r.occurred_at;
}

-- `MemoryInboxStore.Commit`
unfoldable pub commit : InboxEntry → ResultEnvelope → Entries → Result Error (InboxEntry × Entries)
commit entry r entries = do
  validate_result r
  let key =
      inbox_key_values entry.tenant_id entry.workspace_id entry.owner_system entry.operation_id
  elim (lookup key entries) [
    | none ↦ err Error.not_found
    | some current ↦
        if current.status == InboxStatus.committed
        then if same_event current.result r then ok (current, entries) else err Error.inbox_conflict
        else if current.revision != entry.revision || current.status != InboxStatus.claimed
        then err Error.inbox_conflict
        else ok (committed_with r current, insert key (committed_with r current) entries)
  ]

-- `if result.X == "" { result.X = envelope.X }`
abbrev pub or_else : Text → Text → Text
or_else value fallback = if is_empty value then fallback else value

abbrev pub result_event_id : Envelope → Text
result_event_id e = codes "command-result-" ++ e.operation_id

-- The result of an owner that failed, at the clock's reading `now`.
abbrev pub failed_result : Time → Envelope → ResultEnvelope
failed_result now e = record {
  event_id = result_event_id e;
  operation_id = e.operation_id;
  tenant_id = e.tenant_id;
  workspace_id = e.workspace_id;
  owner_system = e.owner_system;
  action = e.action;
  status = Status.failed;
  result_hash = [];
  error_code = codes "OWNER_EXECUTION_FAILED";
  safe_error = codes "owner execution failed";
  result_version = none;
  occurred_at = now;
}

abbrev pub completed : Time → Envelope → ResultEnvelope → ResultEnvelope
completed now e r = record r {
  event_id = or_else r.event_id (result_event_id e);
  operation_id = or_else r.operation_id e.operation_id;
  tenant_id = or_else r.tenant_id e.tenant_id;
  workspace_id = or_else r.workspace_id e.workspace_id;
  owner_system = or_else r.owner_system e.owner_system;
  action = or_else r.action e.action;
  occurred_at = if is_zero r.occurred_at then now else r.occurred_at;
}

abbrev pub is_foreign : Envelope → ResultEnvelope → Bool
is_foreign e r =
    r.operation_id != e.operation_id
    || r.tenant_id != e.tenant_id
    || r.workspace_id != e.workspace_id
    || r.owner_system != e.owner_system
    || r.action != e.action

-- What is answered for an owner's result, or for its error.
abbrev pub owner_result : Time → Envelope → Result Error ResultEnvelope → ResultEnvelope
owner_result now e (ok r) = completed now e r
owner_result now e (err x) = completed now e (failed_result now e)

module _ (sha256_hex : Text → Text) {Owner : Type 0}
    (execute : Envelope → Owner → Result Error ResultEnvelope × Owner) where
  -- What Process returns: the result with whether it is a replay, and the owner's error beside it.
  abbrev pub Answer : Type 0
  Answer = Result Error (ResultEnvelope × Bool × Option Error)

  abbrev pub failure : {A : Type 0} → Result Error A → Option Error
  failure (ok a) = none
  failure (err e) = some e

  -- What follows the owner's callback.
  unfoldable pub conclude :
      Time → Envelope → InboxEntry → Result Error ResultEnvelope → Entries → Answer × Entries
  conclude now e entry out entries =
      let r = owner_result now e out in
      if is_foreign e r
      then (err Error.result_conflict, entries)
      else elim (validate_result r >> commit entry r entries) [
        | err x ↦ (err x, entries)
        | ok (saved, entries') ↦ (ok (r, false, failure out), entries')
      ]

  unfoldable pub run_owner :
      Time → Envelope → InboxEntry → Entries → Owner → Answer × Entries × Owner
  unfolding conclude
  run_owner now e entry entries owner =
      let (out, owner') = execute e owner in
      let (answer, entries') = conclude now e entry out entries in (answer, entries', owner')

  -- What follows the claim: a stored result of a replay is answered, or else the owner runs.
  unfoldable pub stored_or_run :
      Time
      → Envelope
      → InboxEntry
      → Entries
      → Owner
      → Option ResultEnvelope
      → Answer × Entries × Owner
  unfolding run_owner
  stored_or_run now e entry entries owner (some r) = (ok (r, true, none), entries, owner)
  stored_or_run now e entry entries owner none = run_owner now e entry entries owner

  unfoldable pub after_claim :
      Time
      → Envelope
      → Entries
      → Owner
      → Result Error (InboxEntry × Bool × Entries)
      → Answer × Entries × Owner
  unfolding stored_or_run
  after_claim now e entries owner (err x) = (err x, entries, owner)
  after_claim now e entries owner (ok (entry, replayed, entries')) =
      stored_or_run now e entry entries' owner (if replayed then entry.result else none)

  -- `InboxService.Process`
  unfoldable pub process : Time → Envelope → Entries → Owner → Answer × Entries × Owner
  unfolding after_claim
  process now e entries owner =
      after_claim now e entries owner (validate_envelope sha256_hex e >> claim e entries)
