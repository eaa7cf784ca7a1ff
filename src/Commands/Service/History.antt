-- ===== src/Commands/Service/History.antt =====
-- How the operations of a store may change: a relation, and what it keeps.
use record_hub.Base.{
  Text, Text-discrete, text_eq, true, false, ok, err, pos, inc64, ◌≡◌, sym, ◌∙◌, ◌⊎◌, arith,
}
use record_hub.Commands.Model.{Error, Status, Operation, is_terminal}
use record_hub.Commands.Store.{Store, StoreLaws, Put, receipt_of, scope_key, own_key, SameCommand}
use record_hub.Commands.Service.Results.{is_pending}

-- The same command: what was asked for, by whom, and its payload.
abbrev pub SameOrder : Operation → Operation → Type 0
SameOrder o p =
    SameCommand o p
    × (p.id ≡ o.id)
    × (p.owner_system ≡ o.owner_system)
    × (p.action ≡ o.action)
    × (p.resource_ref ≡ o.resource_ref)
    × (p.expected_version ≡ o.expected_version)
    × (p.payload_hash ≡ o.payload_hash)
    × (p.payload ≡ o.payload)
    × (p.created_by ≡ o.created_by)
    × (p.created_at ≡ o.created_at)

-- The edges of the life of an operation: it is dispatched, or it ends.
abbrev pub MovesOn : Status → Status → Type 0
MovesOn s t =
    ((s ≡ Status.accepted) × (t ≡ Status.dispatched))
    ⊎ ((is_pending s ≡ true) × (is_terminal t ≡ true))

module _ (store : Store) where
  pub data Change (s t : store.State) : Type 0 where
    -- A new operation, where neither its place nor its receipt was taken.
    create :
        (o : Operation)
        → o.status ≡ Status.accepted
        → o.revision ≡ pos 1
        → store.find o.tenant_id o.workspace_id o.id s ≡ err Error.not_found
        → store.find_by_idempotency (receipt_of o) s ≡ err Error.not_found
        → Put store s o t
        → Change s t
    -- The operation `o` becomes `p`, one revision later.
    move :
        (o p : Operation)
        → store.find o.tenant_id o.workspace_id o.id s ≡ ok o
        → SameOrder o p
        → MovesOn o.status p.status
        → p.revision ≡ inc64 o.revision
        → Put store s p t
        → Change s t

module _ (store : Store) (laws : StoreLaws store) where
  open laws use {IsValid, find-scope_key, find-own_key}

  pub data Changes (s : store.State) : store.State → Type 0 where
    here : Changes s s
    next : {t u : store.State} → Changes s t → Change store t u → IsValid u → Changes s u

  pub Changes-IsValid : {s t : store.State} → IsValid s → Changes s t → IsValid t
  Changes-IsValid v here = v
  Changes-IsValid v (next c e w) = w

  pub Changes-trans : {s t u : store.State} → Changes s t → Changes t u → Changes s u
  Changes-trans a here = a
  Changes-trans a (next b c v) = next (Changes-trans a b) c v

  pending_or_ended : (s t : Status) → MovesOn s t → is_pending s ≡ true
  unfolding is_pending
  pending_or_ended s t m = ground arith

  module _ (a b c : Text) (o : Operation) where
    Change_ended :
        (s t : store.State)
        → IsValid s
        → store.find a b c s ≡ ok o
        → is_pending o.status ≡ false
        → Change store s t
        → store.find a b c t ≡ ok o
    Change_ended s t v found done (create n acc rev free new put) =
        elim (Text-discrete (scope_key a b c) (own_key n)) [
          | no other ↦ put.others a b c other ∙ found
          | yes same ↦
              absurd (ground (arith, find-scope_key a b c n.tenant_id n.workspace_id n.id s same))
        ]
    Change_ended s t v found done (move m p there order moves rev put) =
        elim (Text-discrete (scope_key a b c) (own_key p)) [
          | no other ↦ put.others a b c other ∙ found
          | yes same ↦ absurd (
              ground (
                arith,
                find-scope_key a b c m.tenant_id m.workspace_id m.id s (same ∙ sym order.0.0),
                pending_or_ended m.status p.status moves,
              ))
        ]

    pub Changes-ended :
        {s t : store.State}
        → IsValid s
        → store.find a b c s ≡ ok o
        → is_pending o.status ≡ false
        → Changes s t
        → store.find a b c t ≡ ok o
    Changes-ended v found done here = found
    Changes-ended v found done (next {t = t} {u = u} r e w) =
        Change_ended t u (Changes-IsValid v r) (Changes-ended v found done r) done e
