-- ===== src/Identity/Rotation/Traces.antt =====
-- Any sequence of calls on a rotation service, from a new one on.
use record_hub.Base.{
  Text, text_eq, codes, List, [], ◌∷◌, Result, ok, err, ℤ, int_eq, Time, ◌≡◌, refl, inl, inr, arith,
  Option-cases, ◌∙◌, >>=-eq-ok,
}
use record_hub.Base.Map.{lookup}
use record_hub.Identity.Rotation.{
  Error, Rotation, CreateRequest, Service, validate_create, initial, Mutation, stamped, transition,
  to_dual_accept, to_drain, to_revoke, to_emergency, create_candidate, dual_accept, drain_old,
  revoke_old, emergency_revoke, set_in_flight,
}
use record_hub.Identity.Rotation.Laws.{
  IsValid, IsSound, commit-Written, insert-IsSound, transition-Moved,
}

pub data Call : Type 0 where
  create : CreateRequest → Call
  dual drain revoke emergency : Text → Text → Text → Call
  in_flight : Text → ℤ → Call

-- The method that a call runs.
unfoldable pub method : Time → Call → Service → Result Error (Rotation × Service)
method now (Call.create r) s = create_candidate now r s
method now (Call.dual owner actor reason) s = dual_accept now owner actor reason s
method now (Call.drain owner actor reason) s = drain_old now owner actor reason s
method now (Call.revoke owner actor reason) s = revoke_old now owner actor reason s
method now (Call.emergency owner actor reason) s = emergency_revoke now owner actor reason s
method now (Call.in_flight owner count) s = set_in_flight now owner count s

-- A refused call leaves the service as it was.
abbrev pub after : Service → Result Error (Rotation × Service) → Service
after s (ok (_, t)) = t
after s (err _) = s

unfoldable pub run : List (Time × Call) → Service → Service
run [] s = s
run ((now, c) ∷ calls) s = run calls (after s (method now c s))

to_dual_accept-IsValid :
    (r q : Rotation) → IsValid r → to_dual_accept r ≡ ok q → IsValid q × (q.owner ≡ r.owner)
unfolding to_dual_accept
to_dual_accept-IsValid r q v h = ground arith

to_drain-IsValid :
    (r q : Rotation) → IsValid r → to_drain r ≡ ok q → IsValid q × (q.owner ≡ r.owner)
unfolding to_drain
to_drain-IsValid r q v h = ground arith

to_revoke-IsValid :
    (r q : Rotation) → IsValid r → to_revoke r ≡ ok q → IsValid q × (q.owner ≡ r.owner)
unfolding to_revoke
to_revoke-IsValid r q v h = ground arith

to_emergency-IsValid :
    (r q : Rotation) → IsValid r → to_emergency r ≡ ok q → IsValid q × (q.owner ≡ r.owner)
unfolding to_emergency
to_emergency-IsValid r q v h = ground arith

transition-IsSound :
    (now : Time) (owner action actor reason : Text) (mutate : Mutation) (s : Service)
    {out : Rotation × Service}
    → ((r q : Rotation) → IsValid r → mutate r ≡ ok q → IsValid q × (q.owner ≡ r.owner))
    → IsSound s
    → transition now owner action actor reason mutate s ≡ ok out
    → IsSound out.1
transition-IsSound now owner action actor reason mutate s {out} keep sound h =
    let m = transition-Moved now owner action actor reason mutate s h in
    let v = sound.each owner m.was m.found in
    let k = keep m.was m.next v.0 m.allowed in
    insert-IsSound s out.1 owner (stamped now m.next) sound m.write.values (ground arith)
      (k.1 ∙ v.1)

create_candidate-IsSound :
    (now : Time) (r : CreateRequest) (s : Service) {out : Rotation × Service}
    → IsSound s
    → create_candidate now r s ≡ ok out
    → IsSound out.1
unfolding create_candidate
create_candidate-IsSound now r s {out} sound h =
    let (u, checked, e) = >>=-eq-ok (validate_create r) _ h in
    elim (Option-cases (lookup r.owner s.values)) [
      | inr (q, found) ↦ absurd (ground arith)
      | inl fresh ↦
          let w =
            commit-Written s r.owner (initial r now) (codes "CREATE_CANDIDATE") r.actor r.reason
              {out = out} (ground arith) in
          insert-IsSound s out.1 r.owner (initial r now) sound w.values (ground arith) refl
    ]

set_in_flight-IsSound :
    (now : Time) (owner : Text) (count : ℤ) (s : Service) {out : Rotation × Service}
    → IsSound s
    → set_in_flight now owner count s ≡ ok out
    → IsSound out.1
unfolding set_in_flight
set_in_flight-IsSound now owner count s {out} sound h =
    elim (Option-cases (lookup owner s.values)) [
      | inl nil ↦ absurd (ground arith)
      | inr (w, found) ↦
          let v = sound.each owner w found in
          let r = stamped now (record w { in_flight = count }) in
          insert-IsSound s out.1 owner r sound (ground arith) (ground arith) v.1
    ]

method-IsSound :
    (now : Time) (c : Call) (s : Service) {out : Rotation × Service}
    → IsSound s
    → method now c s ≡ ok out
    → IsSound out.1
unfolding method dual_accept drain_old revoke_old emergency_revoke
method-IsSound now (Call.create r) s sound h = create_candidate-IsSound now r s sound h
method-IsSound now (Call.dual o a w) s sound h =
    transition-IsSound now o _ a w to_dual_accept s to_dual_accept-IsValid sound h
method-IsSound now (Call.drain o a w) s sound h =
    transition-IsSound now o _ a w to_drain s to_drain-IsValid sound h
method-IsSound now (Call.revoke o a w) s sound h =
    transition-IsSound now o _ a w to_revoke s to_revoke-IsValid sound h
method-IsSound now (Call.emergency o a w) s sound h =
    transition-IsSound now o _ a w to_emergency s to_emergency-IsValid sound h
method-IsSound now (Call.in_flight o n) s sound h = set_in_flight-IsSound now o n s sound h

after-IsSound :
    (now : Time) (c : Call) (s : Service) (r : Result Error (Rotation × Service))
    → method now c s ≡ r
    → IsSound s
    → IsSound (after s r)
after-IsSound now c s (ok out) e sound = method-IsSound now c s sound e
after-IsSound now c s (err _) e sound = sound

-- After any calls on a sound service, such as one without rotations, the service is sound: every
-- stored rotation stands under its owner; an old principal drains only after dual acceptance; and a
-- new principal is active only where the old one is revoked and both were accepted before.
pub run-IsSound : (calls : List (Time × Call)) (s : Service) → IsSound s → IsSound (run calls s)
unfolding run
run-IsSound [] s sound = sound
run-IsSound ((now, c) ∷ calls) s sound =
    run-IsSound calls (after s (method now c s)) (after-IsSound now c s (method now c s) refl sound)
