-- ===== src/Identity/Rotation/Final.antt =====
-- Revocation of an old principal is final.
use record_hub.Base.{
  Text, Text-discrete, text_eq, codes, List, [], ◌∷◌, Result, ok, err, ℤ, Time, ◌≡◌, refl, inl, inr,
  arith, some, Option-cases, >>=-eq-ok,
}
use record_hub.Base.Map.{lookup, lookup-insert}
use record_hub.Identity.Rotation.{
  PrincipalState, Error, Rotation, CreateRequest, Service, validate_create, initial, Mutation,
  stamped, transition, to_dual_accept, to_drain, to_revoke, to_emergency, create_candidate,
  dual_accept, drain_old, revoke_old, emergency_revoke, set_in_flight,
}
use record_hub.Identity.Rotation.Laws.{Written, commit-Written, transition-Moved}
use record_hub.Identity.Rotation.Traces.{Call, method, after, run}

-- The old principal is still revoked, and neither the two principals, nor their scope, nor the
-- state of the new one has changed.
abbrev pub SameEnd : Rotation → Rotation → Type 0
SameEnd r q =
    (q.old_state ≡ PrincipalState.revoked)
    × (q.new_state ≡ r.new_state)
    × (q.old_principal_hash ≡ r.old_principal_hash)
    × (q.new_principal_hash ≡ r.new_principal_hash)
    × (q.scope ≡ r.scope)
    × (q.dual_accepted ≡ r.dual_accepted)

abbrev pub Ended : Text → Rotation → Service → Type 0
Ended owner r s = (q : Rotation) × (lookup owner s.values ≡ some q) × SameEnd r q

-- The four transitions refuse a rotation whose old principal is revoked.
abbrev Refuses : Mutation → Type 0
Refuses mutate =
    (r : Rotation) → r.old_state ≡ PrincipalState.revoked → mutate r ≡ err Error.invalid_state

to_dual_accept-Refuses : Refuses to_dual_accept
unfolding to_dual_accept
to_dual_accept-Refuses r e = ground arith

to_drain-Refuses : Refuses to_drain
unfolding to_drain
to_drain-Refuses r e = ground arith

to_revoke-Refuses : Refuses to_revoke
unfolding to_revoke
to_revoke-Refuses r e = ground arith

to_emergency-Refuses : Refuses to_emergency
unfolding to_emergency
to_emergency-Refuses r e = ground arith

module _ (owner : Text) (r : Rotation) (s : Service) (found : lookup owner s.values ≡ some r)
    (ended : r.old_state ≡ PrincipalState.revoked) (now : Time) where
  transition-Ended :
      (o action actor reason : Text) (mutate : Mutation) {out : Rotation × Service}
      → Refuses mutate
      → transition now o action actor reason mutate s ≡ ok out
      → Ended owner r out.1
  transition-Ended o action actor reason mutate {out} no_way h =
      let m = transition-Moved now o action actor reason mutate s h in
      (
        r,
        ground (
          arith,
          m.found,
          m.allowed,
          m.write.values,
          no_way r ended,
          lookup-insert o owner (stamped now m.next) s.values,
        ),
        (ended, refl, refl, refl, refl, refl),
      )

  create-Ended :
      (c : CreateRequest) {out : Rotation × Service}
      → create_candidate now c s ≡ ok out
      → Ended owner r out.1
  unfolding create_candidate
  create-Ended c {out} h =
      let (u, checked, e) = >>=-eq-ok (validate_create c) _ h in
      elim (Option-cases (lookup c.owner s.values)) [
        | inr (q, there) ↦ absurd (ground arith)
        | inl fresh ↦
            let w : Written s c.owner (initial c now) (codes "CREATE_CANDIDATE") c.actor c.reason
                out =
              commit-Written s c.owner (initial c now) (codes "CREATE_CANDIDATE") c.actor c.reason
                (ground arith) in
            (
              r,
              ground (arith, w.values, lookup-insert c.owner owner (initial c now) s.values),
              (ended, refl, refl, refl, refl, refl),
            )
      ]

  set_in_flight-Ended :
      (o : Text) (count : ℤ) {out : Rotation × Service}
      → set_in_flight now o count s ≡ ok out
      → Ended owner r out.1
  unfolding set_in_flight
  set_in_flight-Ended o count {out} h = elim (Text-discrete o owner) [
    | yes same ↦
        let q = stamped now (record r { in_flight = count }) in
        (q, ground (arith, lookup-insert o owner q s.values), (ended, refl, refl, refl, refl, refl))
    | no other ↦ elim (Option-cases (lookup o s.values)) [
      | inl nil ↦ absurd (ground arith)
      | inr (w, there) ↦
          let q = stamped now (record w { in_flight = count }) in
          (
            r,
            ground (arith, lookup-insert o owner q s.values),
            (ended, refl, refl, refl, refl, refl),
          )
    ]
  ]

  method-Ended :
      (c : Call) {out : Rotation × Service} → method now c s ≡ ok out → Ended owner r out.1
  unfolding method dual_accept drain_old revoke_old emergency_revoke
  method-Ended (Call.create q) h = create-Ended q h
  method-Ended (Call.dual o a w) h =
      transition-Ended o _ a w to_dual_accept to_dual_accept-Refuses h
  method-Ended (Call.drain o a w) h = transition-Ended o _ a w to_drain to_drain-Refuses h
  method-Ended (Call.revoke o a w) h = transition-Ended o _ a w to_revoke to_revoke-Refuses h
  method-Ended (Call.emergency o a w) h =
      transition-Ended o _ a w to_emergency to_emergency-Refuses h
  method-Ended (Call.in_flight o n) h = set_in_flight-Ended o n h

  after-Ended :
      (c : Call) (out : Result Error (Rotation × Service))
      → method now c s ≡ out
      → Ended owner r (after s out)
  after-Ended c (ok out) e = method-Ended c e
  after-Ended c (err _) e = (r, found, (ended, refl, refl, refl, refl, refl))

-- Revocation is final: once the old principal of an owner is revoked, by a drained handover or in an
-- emergency, then after any further calls it is revoked still, and neither the two principals, nor
-- their scope, nor the state of the new one has changed.
pub run-Ended :
    (calls : List (Time × Call)) (s : Service) (owner : Text) (r : Rotation)
    → lookup owner s.values ≡ some r
    → r.old_state ≡ PrincipalState.revoked
    → Ended owner r (run calls s)
unfolding run
run-Ended [] s owner r found ended = (r, found, (ended, refl, refl, refl, refl, refl))
run-Ended ((now, c) ∷ calls) s owner r found ended =
    let (q, there, same) = after-Ended owner r s found ended now c (method now c s) refl in
    let (p, last, kept) = run-Ended calls (after s (method now c s)) owner q there same.0 in
    (p, last, ground arith)
