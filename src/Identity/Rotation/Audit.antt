-- ===== src/Identity/Rotation/Audit.antt =====
-- What the audit trail holds of each call.
use record_hub.Base.{
  Text, text_eq, codes, false, [], ◌∷◌, ◌++◌, ok, int_eq, Time, ◌≡◌, refl, arith, some, inl, inr,
  Option-cases, >>=-eq-ok,
}
use record_hub.Base.Decimal.{decimal_ℤ}
use record_hub.Base.Map.{lookup, insert}
use record_hub.Identity.Rotation.{
  PrincipalState, state_text, AuditEntry, Rotation, CreateRequest, MemoryAudit, Service,
  validate_create, initial, Mutation, stamped, transition, to_dual_accept, to_drain, to_revoke,
  to_emergency, create_candidate, dual_accept, audit_entry, drain_old, revoke_old, emergency_revoke,
  set_in_flight,
}
use record_hub.Identity.Rotation.Laws.{Written, commit-Written, transition-Moved}
use record_hub.Identity.Rotation.Traces.{Call, method}

-- How the trail writes a state.
abbrev pub written : PrincipalState → Text
written PrincipalState.active = codes "ACTIVE"
written PrincipalState.candidate = codes "CANDIDATE"
written PrincipalState.draining = codes "DRAINING"
written PrincipalState.revoked = codes "REVOKED"

-- The entry of a rotation: `ACTION:OLD:NEW` for the action and its two states, numbered by owner and
-- revision, with its hashes, the actor, the reason and the time of the change.
abbrev pub entry_for : Text → Text → Text → Rotation → AuditEntry
entry_for action actor reason q = record {
  event_id = q.owner ++ codes "-" ++ decimal_ℤ q.revision;
  owner = q.owner;
  old_principal_hash = q.old_principal_hash;
  new_principal_hash = q.new_principal_hash;
  state = action ++ codes ":" ++ written q.old_state ++ codes ":" ++ written q.new_state;
  actor = actor;
  reason = reason;
  occurred_at = q.updated_at;
}

state_text-written : (s : PrincipalState) → state_text s ≡ written s
state_text-written s = ground arith

audit_entry-entry_for :
    (q : Rotation) (action actor reason : Text)
    → audit_entry q action actor reason ≡ entry_for action actor reason q
unfolding audit_entry
audit_entry-entry_for q action actor reason =
    rw (state_text-written q.old_state, state_text-written q.new_state) refl

-- One entry more, of the rotation as it now is; and the rotation is stored.
abbrev pub Logged : Text → Text → Text → Text → Service → Rotation × Service → Type 0
Logged owner action actor reason s (q, t) =
    (w : MemoryAudit) × (s.audit ≡ some w)
    × (w.failing ≡ false)
    × (t.audit ≡ some (record w { entries = w.entries ++ entry_for action actor reason q ∷ [] }))
    × (t.values ≡ insert owner q s.values)

-- What a successful call leaves in the trail.
abbrev pub Trail : Call → Service → Rotation × Service → Type 0
Trail (Call.create c) = Logged c.owner (codes "CREATE_CANDIDATE") c.actor c.reason
Trail (Call.dual owner actor reason) = Logged owner (codes "DUAL_ACCEPT") actor reason
Trail (Call.drain owner actor reason) = Logged owner (codes "DRAIN_OLD") actor reason
Trail (Call.revoke owner actor reason) = Logged owner (codes "REVOKE_OLD") actor reason
Trail (Call.emergency owner actor reason) = Logged owner (codes "EMERGENCY_REVOKE") actor reason
Trail (Call.in_flight owner count) = λ s out.
    (out.1.audit ≡ s.audit)
    × (out.1.values ≡ insert owner out.0 s.values)
    × (out.0.in_flight ≡ count)

Written-Logged :
    (s : Service) (owner : Text) (r : Rotation) (action actor reason : Text)
    (out : Rotation × Service)
    → Written s owner r action actor reason out
    → Logged owner action actor reason s out
Written-Logged s owner r action actor reason out w = (
  w.writer,
  w.had,
  w.running,
  ground (arith, w.trail, w.result, audit_entry-entry_for out.0 action actor reason),
  ground (arith, w.values, w.result),
)

transition-Logged :
    (now : Time) (owner action actor reason : Text) (mutate : Mutation) (s : Service)
    (out : Rotation × Service)
    → transition now owner action actor reason mutate s ≡ ok out
    → Logged owner action actor reason s out
transition-Logged now owner action actor reason mutate s out h =
    let m = transition-Moved now owner action actor reason mutate s h in
    Written-Logged s owner (stamped now m.next) action actor reason out m.write

create_candidate-Logged :
    (now : Time) (c : CreateRequest) (s : Service) (out : Rotation × Service)
    → create_candidate now c s ≡ ok out
    → Logged c.owner (codes "CREATE_CANDIDATE") c.actor c.reason s out
unfolding create_candidate
create_candidate-Logged now c s out h =
    let (u, checked, e) = >>=-eq-ok (validate_create c) _ h in
    elim (Option-cases (lookup c.owner s.values)) [
      | inr (q, there) ↦ absurd (ground arith)
      | inl fresh ↦ Written-Logged s c.owner (initial c now) _ c.actor c.reason out (
          commit-Written s c.owner (initial c now) (codes "CREATE_CANDIDATE") c.actor c.reason
            (ground arith))
    ]

-- Every call that succeeds is in the trail: creating, accepting, draining and revoking each append
-- one entry, with the text `ACTION:OLD:NEW` of the action and the two states reached, actor and
-- reason, owner, revision, hashes and time, to a writer that works, and
-- store the rotation they return; a change of the in-flight count only stores it.
pub method-Trail :
    (now : Time) (c : Call) (s : Service) (q : Rotation) (t : Service)
    → method now c s ≡ ok (q, t)
    → Trail c s (q, t)
unfolding method dual_accept drain_old revoke_old emergency_revoke set_in_flight
method-Trail now (Call.create c) s q t h = create_candidate-Logged now c s (q, t) h
method-Trail now (Call.dual o a w) s q t h = transition-Logged now o _ a w to_dual_accept s (q, t) h
method-Trail now (Call.drain o a w) s q t h = transition-Logged now o _ a w to_drain s (q, t) h
method-Trail now (Call.revoke o a w) s q t h = transition-Logged now o _ a w to_revoke s (q, t) h
method-Trail now (Call.emergency o a w) s q t h =
    transition-Logged now o _ a w to_emergency s (q, t) h
method-Trail now (Call.in_flight o n) s q t h = ground arith
