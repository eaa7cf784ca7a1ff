-- ===== src/Commands/Memory/Contract.antt =====
-- The memory store keeps the contract of the interface.
use record_hub.Base.{
  Text, text_eq, ℤ, int_eq, none, some, ok, err, ◌≡◌, inl, inr, arith, Option-cases, >>=-eq-ok,
}
use record_hub.Base.Map.{lookup, insert, lookup-insert}
use record_hub.Commands.Model.{Error, Operation, validate_operation}
use record_hub.Commands.Store.{
  StoreLaws, Put, Receipt, receipt_eq, receipt_of, scope_key, own_key, SameCommand,
}
use record_hub.Commands.Memory.{
  Values, scan, find_by_idempotency, find, create, save_cas, memory_store,
}
use record_hub.Commands.Memory.Laws.{
  IsValid, IsFree, IsSamePlace, lookup-own_key, scan-receipt, scan-lookup, lookup-scan, scan-insert,
  insert-IsValid,
}

insert-Put :
    (o : Operation) (s : Values)
    → IsValid s
    → IsFree o s
    → IsSamePlace o s
    → Put memory_store s o (insert (own_key o) o s)
unfolding find find_by_idempotency
insert-Put o s v free place = record {
  found = λ a b c e. ground (arith, lookup-insert (own_key o) (scope_key a b c) o s);
  others = λ a b c n. ground (arith, lookup-insert (own_key o) (scope_key a b c) o s);
  receipts = λ q. ground (arith, scan-insert o q s v free place);
}

pub find-scope_key :
    (a b c d e f : Text) (s : Values)
    → scope_key a b c ≡ scope_key d e f
    → find a b c s ≡ find d e f s
unfolding find
find-scope_key a b c d e f s h = ground arith

pub find-own_key :
    (a b c : Text) (s : Values) (o : Operation)
    → IsValid s
    → find a b c s ≡ ok o
    → (scope_key a b c ≡ own_key o) × (find o.tenant_id o.workspace_id o.id s ≡ ok o)
unfolding find
find-own_key a b c s o v h = ground (arith, lookup-own_key (scope_key a b c) s o v)

find-lookup :
    (a b c : Text) (s : Values) (o : Operation)
    → find a b c s ≡ ok o
    → lookup (scope_key a b c) s ≡ some o
unfolding find
find-lookup a b c s o h = ground arith

pub find_by-find :
    (q : Receipt) (s : Values) (o : Operation)
    → IsValid s
    → find_by_idempotency q s ≡ ok o
    → (receipt_of o ≡ q) × (find o.tenant_id o.workspace_id o.id s ≡ ok o)
unfolding find find_by_idempotency
find_by-find q s o v h = ground (arith, scan-receipt q s o, scan-lookup q s o v)

pub find-find_by :
    (a b c : Text) (s : Values) (o : Operation)
    → IsValid s
    → find a b c s ≡ ok o
    → find_by_idempotency (receipt_of o) s ≡ ok o
unfolding find find_by_idempotency
find-find_by a b c s o v h = ground (arith, lookup-scan (scope_key a b c) s o v)

-- What a successful `create` found.
create_fresh :
    (o : Operation) (s t : Values)
    → IsValid s
    → create o s ≡ ok t
    → (lookup (own_key o) s ≡ none) × (scan (receipt_of o) s ≡ none) × (t ≡ insert (own_key o) o s)
unfolding create
create_fresh o s t v h =
    let (u, checked, e) = >>=-eq-ok (validate_operation o) _ h in
    elim (Option-cases (lookup (own_key o) s)) [
      | inr (c, there) ↦ absurd (ground arith)
      | inl fresh ↦ elim (Option-cases (scan (receipt_of o) s)) [
        | inl new ↦ ground arith
        | inr (c, taken) ↦ absurd (
            ground (arith, scan-receipt (receipt_of o) s c, scan-lookup (receipt_of o) s c v taken))
      ]
    ]

pub create-Put :
    (o : Operation) (s t : Values)
    → IsValid s
    → create o s ≡ ok t
    → IsValid t
      × Put memory_store s o t
      × (find o.tenant_id o.workspace_id o.id s ≡ err Error.not_found)
      × (find_by_idempotency (receipt_of o) s ≡ err Error.not_found)
unfolding find find_by_idempotency
create-Put o s t v h =
    let (fresh, new, e) = create_fresh o s t v h in
    let free : IsFree o s = λ c f. absurd (ground arith) in
    let place : IsSamePlace o s = λ c f. absurd (ground arith) in
    (
      rw e (insert-IsValid o s v free place),
      rw e (insert-Put o s v free place),
      ground arith,
      ground arith,
    )

pub save_cas-Put :
    (o p : Operation) (revision : ℤ) (s t : Values)
    → IsValid s
    → save_cas o revision s ≡ ok (p, t)
    → (c : Operation) × (find o.tenant_id o.workspace_id o.id s ≡ ok c)
      × (c.revision ≡ revision)
      × (SameCommand c o → (p ≡ o) × IsValid t × Put memory_store s o t)
unfolding save_cas
save_cas-Put o p revision s t v h =
    let (c, found, e) = >>=-eq-ok (find o.tenant_id o.workspace_id o.id s) _ h in
    (
      c,
      found,
      ground arith,
      λ same.
          let there = find-lookup o.tenant_id o.workspace_id o.id s c found in
          let free : IsFree o s = λ d f. ground (arith, lookup-scan (own_key o) s c v there) in
          let place : IsSamePlace o s = λ d f. ground arith in
          let e' : t ≡ insert (own_key o) o s = ground arith in
          (
            ground arith,
            rw e' (insert-IsValid o s v free place),
            rw e' (insert-Put o s v free place),
          ),
    )

pub save_cas-runs :
    (o c : Operation) (s : Values)
    → find o.tenant_id o.workspace_id o.id s ≡ ok c
    → validate_operation o ≡ ok tt
    → (out : Operation × Values) × (save_cas o c.revision s ≡ ok out)
unfolding save_cas
save_cas-runs o c s h valid = ((o, insert (own_key o) o s), ground arith)

-- MemoryStore keeps the contract that the service relies on: what is found stands in its place and
-- has its receipt; a created or saved operation is found, by place and by receipt, and nothing else
-- changes; a save needs the stored revision, and a valid one at that revision succeeds.
abbrev pub memory_laws : StoreLaws memory_store
memory_laws = record {
  IsValid = IsValid;
  find-scope_key = find-scope_key;
  find-own_key = find-own_key;
  find_by-find = find_by-find;
  find-find_by = find-find_by;
  create-Put = create-Put;
  save_cas-Put = save_cas-Put;
  save_cas-runs = save_cas-runs;
}
