-- ===== src/Commands/Store.antt =====
-- The interface `Store` of server/internal/modules/commands/service.go: four operations over a
-- state, and what the service relies on.
use record_hub.Base.{
  Text, ℤ, Result, ok, err, ◌≡◌, ◌≢◌, ◌++◌, ◌∷◌, Eq, Text-discrete, ◌==◌, if◌then◌else◌,
}
use record_hub.Commands.Model.{Error, Operation, validate_operation}

-- What an idempotency receipt is found by.
pub record Receipt : Type 0 where
  pub tenant_id : Text
  pub workspace_id : Text
  pub policy_id : Text
  pub key : Text

unfoldable pub Receipt-discrete : Discrete Receipt
Receipt-discrete = hlevel Text-discrete

instance abbrev pub receipt_eq : Eq Receipt
receipt_eq = record { dec = Receipt-discrete }

abbrev pub receipt_of : Operation → Receipt
receipt_of o = record {
  tenant_id = o.tenant_id;
  workspace_id = o.workspace_id;
  policy_id = o.policy_id;
  key = o.idempotency_key;
}

-- `tenantID + "\x00" + workspaceID + "\x00" + operationID`
abbrev pub scope_key : Text → Text → Text → Text
scope_key tenant workspace id = tenant ++ (0 ∷ (workspace ++ (0 ∷ id)))

abbrev pub own_key : Operation → Text
own_key o = scope_key o.tenant_id o.workspace_id o.id

-- One command at two points of its life: its place and its receipt are the same.
abbrev pub SameCommand : Operation → Operation → Type 0
SameCommand a b = (own_key a ≡ own_key b) × (receipt_of a ≡ receipt_of b)

pub record Store : Type 1 where
  pub State : Type 0
  pub find_by_idempotency : Receipt → State → Result Error Operation
  pub find : Text → Text → Text → State → Result Error Operation
  pub create : Operation → State → Result Error State
  pub save_cas : Operation → ℤ → State → Result Error (Operation × State)

-- `t` is `s` with `o` in its place: `o` is found there and by its receipt, all else is as before.
pub record Put (store : Store) (s : store.State) (o : Operation) (t : store.State) : Type 0 where
  pub found : (a b c : Text) → scope_key a b c ≡ own_key o → store.find a b c t ≡ ok o
  pub others :
      (a b c : Text) → scope_key a b c ≢ own_key o → store.find a b c t ≡ store.find a b c s
  pub receipts :
      (q : Receipt)
      → store.find_by_idempotency q t
        ≡ (if receipt_of o == q then ok o else store.find_by_idempotency q s)

pub record StoreLaws (store : Store) : Type 1 where
  pub IsValid : store.State → Type 0
  -- A place is its key.
  pub find-scope_key :
      (a b c d e f : Text) (s : store.State)
      → scope_key a b c ≡ scope_key d e f
      → store.find a b c s ≡ store.find d e f s
  -- What is found at a place belongs there, and is found by its own fields.
  pub find-own_key :
      (a b c : Text) (s : store.State) (o : Operation)
      → IsValid s
      → store.find a b c s ≡ ok o
      → (scope_key a b c ≡ own_key o) × (store.find o.tenant_id o.workspace_id o.id s ≡ ok o)
  -- A receipt leads to an operation that has it, and that stands in its place.
  pub find_by-find :
      (q : Receipt) (s : store.State) (o : Operation)
      → IsValid s
      → store.find_by_idempotency q s ≡ ok o
      → (receipt_of o ≡ q) × (store.find o.tenant_id o.workspace_id o.id s ≡ ok o)
  -- Every operation in its place is found by its receipt.
  pub find-find_by :
      (a b c : Text) (s : store.State) (o : Operation)
      → IsValid s
      → store.find a b c s ≡ ok o
      → store.find_by_idempotency (receipt_of o) s ≡ ok o
  pub create-Put :
      (o : Operation) (s t : store.State)
      → IsValid s
      → store.create o s ≡ ok t
      → IsValid t
        × Put store s o t
        × (store.find o.tenant_id o.workspace_id o.id s ≡ err Error.not_found)
        × (store.find_by_idempotency (receipt_of o) s ≡ err Error.not_found)
  -- A save succeeds exactly at the expected revision, and puts the operation.
  pub save_cas-Put :
      (o p : Operation) (revision : ℤ) (s t : store.State)
      → IsValid s
      → store.save_cas o revision s ≡ ok (p, t)
      → (c : Operation) × (store.find o.tenant_id o.workspace_id o.id s ≡ ok c)
        × (c.revision ≡ revision)
        × (SameCommand c o → (p ≡ o) × IsValid t × Put store s o t)
  pub save_cas-runs :
      (o c : Operation) (s : store.State)
      → store.find o.tenant_id o.workspace_id o.id s ≡ ok c
      → validate_operation o ≡ ok tt
      → (out : Operation × store.State) × (store.save_cas o c.revision s ≡ ok out)
