-- ===== src/Commands/Service/Results.antt =====
-- server/internal/modules/commands/service.go: ApplyResult, which advances an operation by the
-- owner's result. `now` is the clock's reading for a result that is older than the operation.
use record_hub.Base.{
  text_eq, codes, Bool, true, false, not, ◌&&◌, ◌||◌, ◌!=◌, ◌==◌, [], ◌∷◌, Option, none, some,
  Result, ok, err, ◌>>=◌, ◌>>◌, if◌then◌else◌, ℤ, int_eq, inc64, Time, before,
}
use record_hub.Commands.Model.{Error, Status, status_eq, Operation, ResultEnvelope, validate_result}
use record_hub.Commands.Store.{Store}
use record_hub.Commands.Service.{World}
use record_hub.Audit

unfoldable pub same_optional_version : Option ℤ → Option ℤ → Bool
same_optional_version none none = true
same_optional_version none (some b) = false
same_optional_version (some a) none = false
same_optional_version (some a) (some b) = a == b

-- The stored result is the one that comes again.
unfoldable pub is_replay : Operation → ResultEnvelope → Bool
unfolding same_optional_version
is_replay o r =
    o.result_event_id == r.event_id
    && o.status == r.status
    && o.result_hash == r.result_hash
    && o.safe_error == r.safe_error
    && same_optional_version o.result_version r.result_version

unfoldable pub is_pending : Status → Bool
is_pending Status.accepted = true
is_pending Status.dispatched = true
is_pending _ = false

abbrev pub advanced : Time → ResultEnvelope → Operation → Operation
advanced now r o = record o {
  status = r.status;
  safe_error = r.safe_error;
  result_event_id = r.event_id;
  result_hash = r.result_hash;
  result_version = r.result_version;
  revision = inc64 o.revision;
  updated_at = if before r.occurred_at o.updated_at then now else r.occurred_at;
}

result_entry : Operation → Audit.Entry
result_entry o = record {
  tenant_id = o.tenant_id;
  workspace_id = o.workspace_id;
  action = codes "command.result";
  actor = record { issuer = o.owner_system; subject = o.owner_system };
  resource_type = codes "CommandOperation";
  resource_id = o.id;
  resource_version = o.revision;
  request_id = [];
  idempotency_key = [];
  before_hash = [];
  after_hash = o.result_hash;
  view_id = [];
  field_set = [];
  redacted_fields = [];
  created_at = o.updated_at;
}

-- The entry is written if there is a writer and it succeeds; its error is ignored.
logged : Option Bool → Audit.Entry → {S : Type 0} → World S → World S
logged (some true) e w = record w { audits = e ∷ w.audits }
logged _ e w = w

module _ (store : Store) where
  abbrev pub ResultOutcome : Type 0
  ResultOutcome = Result Error (Operation × Bool × World store.State)

  unfoldable pub finish : Option Bool → World store.State → Operation × store.State → ResultOutcome
  unfolding logged result_entry
  finish audit w (o, state) =
      ok (o, false, logged audit (result_entry o) (record w { state = state }))

  -- The result on the operation that was found.
  unfoldable pub advance :
      Time → Option Bool → ResultEnvelope → World store.State → Operation → ResultOutcome
  unfolding finish is_pending
  advance now audit r w o =
      if o.owner_system != r.owner_system || o.action != r.action
      then err Error.result_conflict
      else if not (is_pending o.status)
      then if is_replay o r then ok (o, true, w) else err Error.result_conflict
      else store.save_cas (advanced now r o) o.revision w.state >>= finish audit w

  -- `Service.ApplyResult`
  unfoldable pub apply_result :
      Time → Option Bool → ResultEnvelope → World store.State → ResultOutcome
  unfolding advance
  apply_result now audit r w = do
    validate_result r
    o ← store.find r.tenant_id r.workspace_id r.operation_id w.state
    advance now audit r w o
