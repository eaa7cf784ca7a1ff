-- ===== src/Commands/Service/Replay.antt =====
-- A result that comes twice, and one that contradicts the first.
use record_hub.Base.{
  text_eq, Bool, true, false, Option, none, some, ok, err, ℤ, int_eq, Time, ◌≡◌, ◌≢◌, refl, sym,
  ◌∙◌, ◌⊎◌, inl, inr, Bool-cases, arith, if◌then◌else◌,
}
use record_hub.Commands.Model.{Error, Operation, ResultEnvelope, validate_result}
use record_hub.Commands.Store.{Store, StoreLaws}
use record_hub.Commands.Service.{World}
use record_hub.Commands.Service.Results.{
  same_optional_version, is_replay, is_pending, advance, apply_result,
}
use record_hub.Commands.Service.ResultLaws.{apply_result-Applied, Applied-ends}

-- The two results differ in event, status, hash, error or version.
abbrev pub Differs : ResultEnvelope → ResultEnvelope → Type 0
Differs q r =
    (q.event_id ≢ r.event_id)
    ⊎ (q.status ≢ r.status)
    ⊎ (q.result_hash ≢ r.result_hash)
    ⊎ (q.safe_error ≢ r.safe_error)
    ⊎ (q.result_version ≢ r.result_version)

same_optional_version-eq : (a b : Option ℤ) → same_optional_version a b ≡ true → a ≡ b
unfolding same_optional_version
same_optional_version-eq none none h = refl
same_optional_version-eq none (some b) h = absurd (ground arith)
same_optional_version-eq (some a) none h = absurd (ground arith)
same_optional_version-eq (some a) (some b) h = ground arith

is_replay-fields :
    (o : Operation) (r : ResultEnvelope)
    → is_replay o r ≡ true
    → (o.result_event_id ≡ r.event_id)
      × (o.status ≡ r.status)
      × (o.result_hash ≡ r.result_hash)
      × (o.safe_error ≡ r.safe_error)
      × (o.result_version ≡ r.result_version)
unfolding is_replay
is_replay-fields o r h = (
  ground arith,
  ground arith,
  ground arith,
  ground arith,
  same_optional_version-eq o.result_version r.result_version (ground arith),
)

-- An operation that holds the one result does not hold another.
replay-Differs :
    (o : Operation) (q r : ResultEnvelope)
    → is_replay o r ≡ true
    → Differs q r
    → is_replay o q ≡ false
replay-Differs o q r held other = elim (Bool-cases (is_replay o q)) [
  | inr fresh ↦ fresh
  | inl again ↦
      let (event, status, hash, error, version) = is_replay-fields o r held in
      let (event', status', hash', error', version') = is_replay-fields o q again in
      absurd (elim other [
        | inl x ↦ x (sym event' ∙ event)
        | inr (inl x) ↦ x (sym status' ∙ status)
        | inr (inr (inl x)) ↦ x (sym hash' ∙ hash)
        | inr (inr (inr (inl x))) ↦ x (sym error' ∙ error)
        | inr (inr (inr (inr x))) ↦ x (sym version' ∙ version)
      ])
]

-- A valid result for an operation that has ended: its replay is answered without a change, any other
-- is a conflict.
apply_result_ended :
    (store : Store) (now : Time) (audit : Option Bool) (r : ResultEnvelope) (w : World store.State)
    (p : Operation)
    → validate_result r ≡ ok tt
    → store.find r.tenant_id r.workspace_id r.operation_id w.state ≡ ok p
    → p.owner_system ≡ r.owner_system
    → p.action ≡ r.action
    → is_pending p.status ≡ false
    → apply_result store now audit r w
      ≡ (if is_replay p r then ok (p, true, w) else err Error.result_conflict)
unfolding apply_result advance
apply_result_ended store now audit r w p valid there own act done =
    rw valid (rw there (ground arith))

module _ (store : Store) (laws : StoreLaws store) (now : Time) (audit : Option Bool)
    (r : ResultEnvelope) (w : World store.State) (p : Operation) (replay : Bool)
    (w' : World store.State) (valid : laws.IsValid w.state)
    (done : apply_result store now audit r w ≡ ok (p, replay, w')) where
  -- A result that was applied and comes again, at any time, is answered with the same operation, as
  -- a replay, and changes nothing.
  pub result_replay :
      (later : Time) (audit' : Option Bool)
      → apply_result store later audit' r w' ≡ ok (p, true, w')
  result_replay later audit' =
      let a = apply_result-Applied store laws now audit r w p replay w' valid done in
      let (valid', there, own, act, ended, again) =
        Applied-ends store laws now r w p replay w' valid a in
      apply_result_ended store later audit' r w' p a.valid there own act ended ∙ ground arith

  -- After a result was applied, a valid result of the same owner and action for the same operation
  -- that differs from it in event, status, hash, error or version is refused as a conflict.
  pub result_conflict :
      (later : Time) (audit' : Option Bool) (q : ResultEnvelope)
      → validate_result q ≡ ok tt
      → q.tenant_id ≡ r.tenant_id
      → q.workspace_id ≡ r.workspace_id
      → q.operation_id ≡ r.operation_id
      → q.owner_system ≡ r.owner_system
      → q.action ≡ r.action
      → Differs q r
      → apply_result store later audit' q w' ≡ err Error.result_conflict
  result_conflict later audit' q ok_q t ws id own' act' other =
      let a = apply_result-Applied store laws now audit r w p replay w' valid done in
      let (valid', there, own, act, ended, again) =
        Applied-ends store laws now r w p replay w' valid a in
      apply_result_ended store later audit' q w' p ok_q (rw (t, ws, id) there) (own ∙ sym own')
        (act ∙ sym act') ended
      ∙ rw (replay-Differs p q r again other) refl
