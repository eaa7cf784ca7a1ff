-- ===== src/Identity/Rotation/Handover.antt =====
-- A whole handover from the old principal to the new one.
use record_hub.Base.{
  Text, text_eq, codes, true, false, List, [], ◌∷◌, ◌++◌, ok, pos, int_eq, Time, ◌≡◌, refl, arith,
  none, some,
}
use record_hub.Base.Map.{lookup, lookup-insert_self}
use record_hub.Base.Trim.{is_blank}
use record_hub.Identity.Rotation.{
  PrincipalState, Rotation, CreateRequest, MemoryAudit, Service, validate_create, initial, Mutation,
  stamped, transition, to_dual_accept, to_drain, to_revoke, create_candidate, dual_accept,
  audit_entry, audit_locked, commit, drain_old, revoke_old,
}
use record_hub.Identity.Rotation.Traces.{Call, method, after, run}

-- The service logs to a writer that works, and holds `r` for the owner.
abbrev Holds : Text → Rotation → Service → Type 0
Holds owner r s =
    (w : MemoryAudit) × (s.audit ≡ some w) × (w.failing ≡ false) × (lookup owner s.values ≡ some r)

commit-Holds :
    (s : Service) (owner : Text) (r : Rotation) (action actor reason : Text) (w : MemoryAudit)
    → is_blank actor ≡ false
    → is_blank reason ≡ false
    → s.audit ≡ some w
    → w.failing ≡ false
    → Holds owner r (after s (commit s owner r action actor reason))
unfolding commit audit_locked
commit-Holds s owner r action actor reason w ba br e f = (
  record w { entries = w.entries ++ audit_entry r action actor reason ∷ [] },
  ground arith,
  f,
  ground (arith, lookup-insert_self owner r s.values),
)

-- A change that the stored rotation allows is made.
transition-Holds :
    (now : Time) (owner action actor reason : Text) (mutate : Mutation) (s : Service)
    (r q : Rotation)
    → is_blank owner ≡ false
    → is_blank actor ≡ false
    → is_blank reason ≡ false
    → Holds owner r s
    → mutate r ≡ ok q
    → Holds owner (stamped now q) (after s (transition now owner action actor reason mutate s))
unfolding transition
transition-Holds now owner action actor reason mutate s r q bo ba br (w, e, f, found) good =
    rw (bo, ba, br, found)
      (rw good (commit-Holds s owner (stamped now q) action actor reason w ba br e f))

create-Holds :
    (now : Time) (c : CreateRequest) (s : Service) (w : MemoryAudit)
    → validate_create c ≡ ok tt
    → is_blank c.actor ≡ false
    → is_blank c.reason ≡ false
    → s.audit ≡ some w
    → w.failing ≡ false
    → lookup c.owner s.values ≡ none
    → Holds c.owner (initial c now) (after s (create_candidate now c s))
unfolding create_candidate
create-Holds now c s w checked ba br e f fresh = rw checked (
    rw fresh (
      commit-Holds s c.owner (initial c now) (codes "CREATE_CANDIDATE") c.actor c.reason w ba br e
        f))

validated_names :
    (c : CreateRequest)
    → validate_create c ≡ ok tt
    → (is_blank c.actor ≡ false) × (is_blank c.reason ≡ false)
unfolding validate_create
validated_names c h = ground arith

-- The four calls of a handover by one operator.
abbrev pub handover_calls : Time → CreateRequest → List (Time × Call)
handover_calls now c =
    (now, Call.create c)
    ∷ (now, Call.dual c.owner c.actor c.reason)
    ∷ (now, Call.drain c.owner c.actor c.reason)
    ∷ (now, Call.revoke c.owner c.actor c.reason)
    ∷ []

abbrev pub handed_over : CreateRequest → Time → Rotation
handed_over c now = record (initial c now) {
  old_state = PrincipalState.revoked;
  new_state = PrincipalState.active;
  dual_accepted = true;
  revision = pos 4;
}

module _ (now : Time) (owner actor reason : Text) (bo : is_blank owner ≡ false)
    (ba : is_blank actor ≡ false) (br : is_blank reason ≡ false) (s : Service) (r : Rotation)
    (holds : Holds owner r s) where
  dual-Holds :
      r.old_state ≡ PrincipalState.active
      → r.new_state ≡ PrincipalState.candidate
      → Holds owner
          (stamped now (record r { dual_accepted = true }))
          (after s (method now (Call.dual owner actor reason) s))
  unfolding method dual_accept to_dual_accept
  dual-Holds old new =
      transition-Holds now owner _ actor reason _ s r (record r { dual_accepted = true }) bo ba br
        holds (ground arith)

  drain-Holds :
      r.dual_accepted ≡ true
      → r.old_state ≡ PrincipalState.active
      → r.new_state ≡ PrincipalState.candidate
      → Holds owner
          (stamped now (record r { old_state = PrincipalState.draining }))
          (after s (method now (Call.drain owner actor reason) s))
  unfolding method drain_old to_drain
  drain-Holds dual old new =
      transition-Holds now owner _ actor reason _ s r
        (record r { old_state = PrincipalState.draining }) bo ba br holds (ground arith)

  abbrev ended : Rotation
  ended = record r { old_state = PrincipalState.revoked; new_state = PrincipalState.active }

  revoke-Holds :
      r.old_state ≡ PrincipalState.draining
      → r.new_state ≡ PrincipalState.candidate
      → r.in_flight ≡ pos 0
      → Holds owner (stamped now ended) (after s (method now (Call.revoke owner actor reason) s))
  unfolding method revoke_old to_revoke
  revoke-Holds old new idle =
      transition-Holds now owner _ actor reason _ s r ended bo ba br holds (ground arith)

create_call-Holds :
    (now : Time) (c : CreateRequest) (s : Service) (w : MemoryAudit)
    → validate_create c ≡ ok tt
    → s.audit ≡ some w
    → w.failing ≡ false
    → lookup c.owner s.values ≡ none
    → Holds c.owner (initial c now) (after s (method now (Call.create c) s))
unfolding method
create_call-Holds now c s w checked e f fresh =
    let (ba, br) = validated_names c checked in create-Holds now c s w checked ba br e f fresh

-- A handover completes: for every valid request whose owner has no rotation yet, and a writer that
-- works, creating the candidate, accepting both, draining and revoking (no work in flight) ends with
-- the old principal revoked and the new one active, at revision 4.
pub handover_completes :
    (now : Time) (c : CreateRequest) (s : Service) (w : MemoryAudit)
    → validate_create c ≡ ok tt
    → is_blank c.owner ≡ false
    → s.audit ≡ some w
    → w.failing ≡ false
    → lookup c.owner s.values ≡ none
    → lookup c.owner (run (handover_calls now c) s).values ≡ some (handed_over c now)
unfolding run
handover_completes now c s w checked bo e f fresh =
    let (ba, br) = validated_names c checked in
    let h0 = create_call-Holds now c s w checked e f fresh in
    let h1 = dual-Holds now c.owner c.actor c.reason bo ba br _ _ h0 refl refl in
    let h2 = drain-Holds now c.owner c.actor c.reason bo ba br _ _ h1 refl refl refl in
    (revoke-Holds now c.owner c.actor c.reason bo ba br _ _ h2 refl refl refl).3
