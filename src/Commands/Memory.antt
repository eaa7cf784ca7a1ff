-- ===== src/Commands/Memory.antt =====
-- server/internal/modules/commands/repository.go: MemoryStore. The map is an association list; the
-- loop of FindByIdempotency, which Go runs in any order, runs in the order of the list.
pub mod Laws
pub mod Contract
pub mod Order
mod Tests
use record_hub.Base.{
  Text, text_eq, ℤ, int_eq, List, [], ◌∷◌, Option, none, some, Result, ok, err, ◌>>=◌, ◌>>◌, ◌==◌,
  ◌!=◌, if◌then◌else◌, reject_if, Bool, true, false,
}
use record_hub.Base.Map.{lookup, insert}
use record_hub.Commands.Model.{Error, Operation, validate_operation}
use record_hub.Commands.Store.{Store, Receipt, receipt_eq, receipt_of, scope_key, own_key}

abbrev pub Values : Type 0
Values = List (Text × Operation)

unfoldable pub scan : Receipt → Values → Option Operation
scan q [] = none
scan q ((k, o) ∷ values) = if receipt_of o == q then some o else scan q values

abbrev pub or_not_found : Option Operation → Result Error Operation
or_not_found none = err Error.not_found
or_not_found (some o) = ok o

unfoldable pub find_by_idempotency : Receipt → Values → Result Error Operation
unfolding scan
find_by_idempotency q values = or_not_found (scan q values)

unfoldable pub find : Text → Text → Text → Values → Result Error Operation
find tenant workspace id values = or_not_found (lookup (scope_key tenant workspace id) values)

-- Whether another operation has taken the receipt: `err == nil && existing.ID != operation.ID`.
abbrev taken_by : Result Error Operation → Text → Bool
taken_by (err _) id = false
taken_by (ok existing) id = existing.id != id

unfoldable pub create : Operation → Values → Result Error Values
unfolding find_by_idempotency
create o values = do
  validate_operation o
  elim (lookup (own_key o) values) [
    | some _ ↦ err Error.exists
    | none ↦
        if taken_by (find_by_idempotency (receipt_of o) values) o.id
        then err Error.exists
        else ok (insert (own_key o) o values)
  ]

unfoldable pub save_cas : Operation → ℤ → Values → Result Error (Operation × Values)
unfolding find
save_cas o expected values = do
  current ← find o.tenant_id o.workspace_id o.id values
  reject_if (current.revision != expected) Error.idempotency
  ok (o, insert (own_key o) o values)

abbrev pub memory_store : Store
memory_store = record {
  State = Values;
  find_by_idempotency = find_by_idempotency;
  find = find;
  create = create;
  save_cas = save_cas;
}
