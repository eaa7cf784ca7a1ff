-- ===== src/Commands/Service/ResultLaws.antt =====
-- Owner results: each is applied once, a repeated one changes nothing, another one is a conflict.
use record_hub.Base.{
  text_eq, Bool, true, false, Option, none, some, ok, ◌>>=◌, ℤ, int_eq, Time, ◌≡◌, refl, ◌∙◌, ◌⊎◌,
  inl, inr, arith, Bool-cases, >>=-eq-ok,
}
use record_hub.Commands.Model.{
  Status, status_eq, Operation, ResultEnvelope, validate_result, is_terminal,
}
use record_hub.Commands.Store.{Store, StoreLaws, Put, SameCommand}
use record_hub.Commands.Service.{World}
use record_hub.Commands.Service.Results.{
  same_optional_version, is_replay, is_pending, advanced, finish, advance, apply_result,
}

-- A result that passed validation ends an operation.
pub validated_is_terminal :
    (r : ResultEnvelope) → validate_result r ≡ ok tt → is_terminal r.status ≡ true
unfolding validate_result
validated_is_terminal r h = ground arith

terminal_not_pending : (s : Status) → is_terminal s ≡ true → is_pending s ≡ false
unfolding is_terminal is_pending
terminal_not_pending s h = ground arith

same_optional_version_refl : (v : Option ℤ) → same_optional_version v v ≡ true
unfolding same_optional_version
same_optional_version_refl none = refl
same_optional_version_refl (some v) = ground arith

-- The result that ended an operation is its own replay.
advanced-is_replay :
    (now : Time) (r : ResultEnvelope) (o : Operation) → is_replay (advanced now r o) r ≡ true
unfolding is_replay
advanced-is_replay now r o = ground (arith, same_optional_version_refl r.result_version)

module _ (store : Store) (laws : StoreLaws store) where
  open laws use {IsValid, find-own_key, save_cas-Put, save_cas-runs}

  -- What an application to the operation that was found did, if it succeeded.
  abbrev pub How :
      Time
      → ResultEnvelope
      → World store.State
      → Operation
      → Operation
      → Bool
      → World store.State
      → Type 0
  How now r w was p replay w' =
      ((replay ≡ true)
        × (p ≡ was)
        × (w' ≡ w)
        × (is_replay was r ≡ true)
        × (is_pending was.status ≡ false))
      ⊎ ((replay ≡ false)
          × (is_pending was.status ≡ true)
          × (p ≡ advanced now r was)
          × IsValid w'.state
          × Put store w.state p w'.state)

  pub record Applied (now : Time) (r : ResultEnvelope) (w : World store.State) (p : Operation)
      (replay : Bool) (w' : World store.State) : Type 0 where
    pub valid : validate_result r ≡ ok tt
    pub was : Operation
    pub stood : store.find r.tenant_id r.workspace_id r.operation_id w.state ≡ ok was
    pub owner : was.owner_system ≡ r.owner_system
    pub action : was.action ≡ r.action
    pub how : How now r w was p replay w'

  finish_lem :
      (audit : Option Bool) (w : World store.State) (q p : Operation) (t : store.State)
      (replay : Bool) (w' : World store.State)
      → finish store audit w (q, t) ≡ ok (p, replay, w')
      → (replay ≡ false) × (p ≡ q) × (w'.state ≡ t)
  unfolding finish
  finish_lem none w q p t replay w' h = ground arith
  finish_lem (some true) w q p t replay w' h = ground arith
  finish_lem (some false) w q p t replay w' h = ground arith

  saved-How :
      (now : Time) (r : ResultEnvelope) (w : World store.State) (o c q p : Operation)
      (t : store.State) (replay : Bool) (w' : World store.State)
      → is_pending o.status ≡ true
      → c ≡ o
      → (SameCommand c (advanced now r o)
          → (q ≡ advanced now r o) × IsValid t × Put store w.state (advanced now r o) t)
      → (replay ≡ false) × (p ≡ q) × (w'.state ≡ t)
      → How now r w o p replay w'
  saved-How now r w o c q p t replay w' pending same put (fresh, is_q, at) =
      let (new, valid, changed) = put (rw same (refl, refl)) in
      inr (fresh, pending, is_q ∙ new, rw at valid, rw (at, is_q ∙ new) changed)

  save-How :
      (now : Time) (audit : Option Bool) (r : ResultEnvelope) (w : World store.State)
      (o p : Operation) (replay : Bool) (w' : World store.State)
      → IsValid w.state
      → store.find o.tenant_id o.workspace_id o.id w.state ≡ ok o
      → is_pending o.status ≡ true
      → (store.save_cas (advanced now r o) o.revision w.state >>= finish store audit w)
        ≡ ok (p, replay, w')
      → How now r w o p replay w'
  save-How now audit r w o p replay w' valid place pending h =
      let ((q, t), done, e) =
        >>=-eq-ok (store.save_cas (advanced now r o) o.revision w.state) (finish store audit w) h in
      let (c, there, rev, put) =
        save_cas-Put (advanced now r o) q o.revision w.state t valid done in
      saved-How now r w o c q p t replay w' pending (cc) put (finish_lem audit w q p t replay w' e)

  advance-How :
      (now : Time) (audit : Option Bool) (r : ResultEnvelope) (w : World store.State)
      (o p : Operation) (replay : Bool) (w' : World store.State)
      → IsValid w.state
      → store.find o.tenant_id o.workspace_id o.id w.state ≡ ok o
      → advance store now audit r w o ≡ ok (p, replay, w')
      → (o.owner_system ≡ r.owner_system) × (o.action ≡ r.action) × How now r w o p replay w'
  unfolding advance
  advance-How now audit r w o p replay w' valid place h = elim (Bool-cases (is_pending o.status)) [
    | inl pending ↦ (
      ground arith,
      ground arith,
      save-How now audit r w o p replay w' valid place pending (ground arith),
    )
    | inr done ↦ (
      ground arith,
      ground arith,
      inl (ground arith, ground arith, ground arith, ground arith, done),
    )
  ]

  pub apply_result-Applied :
      (now : Time) (audit : Option Bool) (r : ResultEnvelope) (w : World store.State)
      (p : Operation) (replay : Bool) (w' : World store.State)
      → IsValid w.state
      → apply_result store now audit r w ≡ ok (p, replay, w')
      → Applied now r w p replay w'
  unfolding apply_result
  apply_result-Applied now audit r w p replay w' valid h =
      let (u, checked, e) = >>=-eq-ok (validate_result r) _ h in
      let (o, there, e') =
        >>=-eq-ok (store.find r.tenant_id r.workspace_id r.operation_id w.state) _ e in
      let (own, act, how) =
        advance-How now audit r w o p replay w' valid
          (find-own_key r.tenant_id r.workspace_id r.operation_id w.state o valid there).1 e' in
      record { valid = checked; was = o; stood = there; owner = own; action = act; how = how }

  -- After a success the operation stands at the result's place, ended, with the result in it.
  pub Applied-ends :
      (now : Time) (r : ResultEnvelope) (w : World store.State) (p : Operation) (replay : Bool)
      (w' : World store.State)
      → IsValid w.state
      → Applied now r w p replay w'
      → IsValid w'.state
        × (store.find r.tenant_id r.workspace_id r.operation_id w'.state ≡ ok p)
        × (p.owner_system ≡ r.owner_system)
        × (p.action ≡ r.action)
        × (is_pending p.status ≡ false)
        × (is_replay p r ≡ true)
  Applied-ends now r w p replay w' valid a = elim a.how [
    | inl (again, same, still, replayed, done) ↦ (
      rw still valid,
      ground (arith, a.stood),
      ground (arith, a.owner),
      ground (arith, a.action),
      rw same done,
      rw same replayed,
    )
    | inr (fresh, pending, new, valid', put) ↦ (
      valid',
      put.found r.tenant_id r.workspace_id r.operation_id (
          (find-own_key r.tenant_id r.workspace_id r.operation_id w.state a.was valid a.stood).0
          ∙ rw new refl),
      ground (arith, a.owner),
      ground (arith, a.action),
      rw new (terminal_not_pending r.status (validated_is_terminal r a.valid)),
      rw new (advanced-is_replay now r a.was),
    )
  ]
