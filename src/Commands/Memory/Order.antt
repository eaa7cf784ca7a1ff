-- ===== src/Commands/Memory/Order.antt =====
-- The memory store answers alike in every order of its map, and takes one save for a revision.
use record_hub.Base.{
  Text, text_eq, ℤ, int_eq, some, ok, err, ◌≡◌, ◌≢◌, sym, ◌∙◌, inl, inr, arith, Option-cases, ap,
  reject_if, ◌!=◌, >>=-eq-ok,
}
use record_hub.Base.Map.{lookup, insert, lookup-insert}
use record_hub.Commands.Model.{Error, Operation}
use record_hub.Commands.Store.{Receipt, own_key}
use record_hub.Commands.Memory.{Values, scan, or_not_found, find_by_idempotency, find, save_cas}
use record_hub.Commands.Memory.Laws.{IsValid, scan-receipt, scan-lookup, lookup-scan}

-- Two lists of the same map.
abbrev pub SameMap : Values → Values → Type 0
SameMap s t = (k : Text) → lookup k s ≡ lookup k t

scan-some :
    (q : Receipt) (s t : Values) (o : Operation)
    → IsValid s
    → IsValid t
    → SameMap s t
    → scan q s ≡ some o
    → scan q t ≡ some o
scan-some q s t o v w same h =
    let there = sym (same (own_key o)) ∙ scan-lookup q s o v h in
    ap (λ x. scan x t) (sym (scan-receipt q s o h)) ∙ lookup-scan (own_key o) t o w there

-- Whatever order the store's map is read in, if no receipt is used twice in it, the search by a
-- receipt gives the same answer.
pub find_by_idempotency_order :
    (q : Receipt) (s t : Values)
    → IsValid s
    → IsValid t
    → SameMap s t
    → find_by_idempotency q s ≡ find_by_idempotency q t
unfolding find_by_idempotency
find_by_idempotency_order q s t v w same = elim (Option-cases (scan q s)) [
  | inr (o, h) ↦ ap or_not_found (h ∙ sym (scan-some q s t o v w same h))
  | inl nothing ↦ elim (Option-cases (scan q t)) [
    | inl gone ↦ ap or_not_found (nothing ∙ sym gone)
    | inr (o, h) ↦ absurd (ground (arith, scan-some q t s o w v (λ k. sym (same k)) h))
  ]
]

-- After a save at an expected revision that gave the operation another revision, a second save of
-- the same operation at that expected revision is refused: no update is lost.
pub save_cas_once :
    (o p o' : Operation) (revision : ℤ) (s t : Values)
    → save_cas o revision s ≡ ok (p, t)
    → o.revision ≢ revision
    → own_key o' ≡ own_key o
    → save_cas o' revision t ≡ err Error.idempotency
unfolding save_cas find
save_cas_once o p o' revision s t h moved place =
    let (c, there, rest) = >>=-eq-ok (find o.tenant_id o.workspace_id o.id s) _ h in
    let (u, fresh, done) =
      >>=-eq-ok (reject_if (c.revision != revision) Error.idempotency) _ rest in
    let put : insert (own_key o) o s ≡ t = cc in
    let found : lookup (own_key o') t ≡ some o =
      ground (arith, put, place, lookup-insert (own_key o) (own_key o') o s) in
    rw found (ground (arith, moved))
