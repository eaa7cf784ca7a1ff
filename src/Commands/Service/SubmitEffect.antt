-- ===== src/Commands/Service/SubmitEffect.antt =====
-- The effect of a successful submission.
use record_hub.Base.{
  Text, Text-discrete, text_eq, Bool, true, false, Option, none, some, Result, ok, err, pos, ◌≡◌,
  refl, sym, ◌∙◌, ◌⊎◌, inl, inr, arith, Option-cases, >>=-eq-ok,
}
use mathlib.Core.Path.{subst}
use record_hub.Identity.Principal.{Principal}
use record_hub.Commands.Model.{
  Error, Status, status_eq, Operation, SubmitRequest, Policy, validate_operation, payload_hash_of,
}
use record_hub.Commands.Store.{StoreLaws, Receipt, receipt_eq, receipt_of}
use record_hub.Commands.Service.{Gateway, Env}
use record_hub.Commands.Service.Submit.{
  receipt, dispatch, new_operation, audited, created, raced, submit_new, found, admit, submit,
  GatewayWorld, Outcome,
}
use record_hub.Commands.Service.History.{SameOrder, Change, Changes, Changes-trans}
use record_hub.Commands.Service.SubmitLaws.{refl_order, Follows, dispatch-Follows}

module _ (g : Gateway) (laws : StoreLaws g.store) where
  open laws use {IsValid, find-own_key, find_by-find, find-find_by, create-Put}

  abbrev pub hash : Text → Text
  hash payload = payload_hash_of g.codec.sha256_hex payload

  -- What a submission with the receipt `q` and the payload's hash did.
  pub record Recorded (q : Receipt) (digest : Text) (w : GatewayWorld g) (p : Operation)
      (replay : Bool) (w' : GatewayWorld g) : Type 0 where
    pub changes : Changes g.store laws w.state w'.state
    pub valid : IsValid w'.state
    pub stands : Operation
    pub kept : g.store.find_by_idempotency q w'.state ≡ ok stands
    pub digests : (stands.payload_hash ≡ digest) × (p.payload_hash ≡ digest)
    pub same : stands.id ≡ p.id
    pub how :
        ((replay ≡ true)
          × ((c : Operation) × (g.store.find_by_idempotency q w.state ≡ ok c) × (c.id ≡ p.id)))
        ⊎ ((replay ≡ false) × (g.store.find_by_idempotency q w.state ≡ err Error.not_found))

  Follows-kept :
      (q : Receipt) (c : Operation) (s t : g.store.State) (p : Operation)
      (f : Follows g laws c s t p)
      → receipt_of c ≡ q
      → g.store.find_by_idempotency q t ≡ ok f.stands
  Follows-kept q c s t p f e =
      rw (sym e ∙ f.order.0.1)
        (find-find_by c.tenant_id c.workspace_id c.id t f.stands f.valid f.place)

  -- An accepted receipt that was there before.
  replay-Recorded :
      (env : Env) (q : Receipt) (c : Operation) (w : GatewayWorld g)
      → IsValid w.state
      → g.store.find_by_idempotency q w.state ≡ ok c
      → let (p, w') = dispatch g env c w in Recorded q c.payload_hash w p true w'
  replay-Recorded env q c w v there =
      let (at, home) = find_by-find q w.state c v there in
      let (p, w') = dispatch g env c w in
      let f = dispatch-Follows g laws env c c w v home (refl_order c) refl refl in
      record {
        changes = f.changes;
        valid = f.valid;
        stands = f.stands;
        kept = Follows-kept q c w.state w'.state p f at;
        digests = (f.order.6, f.answer.6);
        same = f.order.1 ∙ sym f.answer.1;
        how = inl (refl, (c, there, sym f.answer.1));
      }

  -- Dispatching what a receipt leads to answers with that operation.
  pub dispatch_answer :
      (env : Env) (q : Receipt) (c : Operation) (w : GatewayWorld g)
      → IsValid w.state
      → g.store.find_by_idempotency q w.state ≡ ok c
      → let (p, w') = dispatch g env c w in (p.id ≡ c.id) × (p.payload_hash ≡ c.payload_hash)
  dispatch_answer env q c w v there =
      let (at, home) = find_by-find q w.state c v there in
      let (p, w') = dispatch g env c w in
      let f = dispatch-Follows g laws env c c w v home (refl_order c) refl refl in
      (f.answer.1, f.answer.6)

  audited_lem :
      (b : Option Bool) (o : Operation) (w : GatewayWorld g)
      → let (p, w') = audited g b o w in
        SameOrder o p × (o.status ≡ p.status) × (o.revision ≡ p.revision) × (w'.state ≡ w.state)
  unfolding audited
  audited_lem none o w = (refl_order o, refl, refl, refl)
  audited_lem (some true) o w = (refl_order o, refl, refl, refl)
  audited_lem (some false) o w = (refl_order o, refl, refl, refl)

  -- A new operation that Create has taken.
  created-Recorded :
      (env : Env) (q : Receipt) (o : Operation) (w : GatewayWorld g) (t : g.store.State)
      → IsValid w.state
      → receipt_of o ≡ q
      → o.status ≡ Status.accepted
      → o.revision ≡ pos 1
      → g.store.create o w.state ≡ ok t
      → let (o', w1) = audited g env.audit o (record w { state = t }) in
        let (p, w') = dispatch g env o' w1 in Recorded q o.payload_hash w p false w'
  created-Recorded env q o w t v e acc one done =
      let (vt, put, free, new) = create-Put o w.state t v done in
      let (o', w1) = audited g env.audit o (record w { state = t }) in
      let (order, st, rev, at) = audited_lem env.audit o (record w { state = t }) in
      let (p, w') = dispatch g env o' w1 in
      let first : Changes g.store laws w.state w1.state = rw at (
        Changes.next {t = w.state} {u = t} Changes.here (Change.create o acc one free new put)
          vt) in
      let f =
        dispatch-Follows g laws env o' o w1 (rw at vt)
          (rw at (put.found o'.tenant_id o'.workspace_id o'.id (sym order.0.0))) order st rev in
      record {
        changes = Changes-trans g.store laws first f.changes;
        valid = f.valid;
        stands = f.stands;
        kept = Follows-kept q o w1.state w'.state p f e;
        digests = (f.order.6, f.answer.6);
        same = f.order.1 ∙ sym f.answer.1;
        how = inr (refl, rw (sym e) new);
      }

  -- The answer of a call is the triple that the effect is about.
  with_answer :
      (q : Receipt) (digest d : Text) (w : GatewayWorld g) (p p' : Operation) (b b' : Bool)
      (w1 w' : GatewayWorld g)
      → Recorded q d w p b w1
      → d ≡ digest
      → ◌≡◌ {A = Outcome g} (ok (p, b, w1)) (ok (p', b', w'))
      → Recorded q digest w p' b' w'
  with_answer q digest d w p p' b b' w1 w' rec e h =
      let pe : p ≡ p' = cc in
      let be : b ≡ b' = cc in
      let we : w1 ≡ w' = cc in
      subst (λ x. Recorded q digest w p' b' x) we
        (subst (λ x. Recorded q digest w p' x w1) be
          (subst (λ x. Recorded q digest w x b w1) pe (subst (λ x. Recorded q x w p b w1) e rec)))

  created-effect :
      (env : Env) (q : Receipt) (o : Operation) (w : GatewayWorld g) (p : Operation) (replay : Bool)
      (w' : GatewayWorld g)
      → IsValid w.state
      → receipt_of o ≡ q
      → o.status ≡ Status.accepted
      → o.revision ≡ pos 1
      → g.store.find_by_idempotency q w.state ≡ err Error.not_found
      → (r : Result Error g.store.State) → g.store.create o w.state ≡ r
      → created g env q o w r ≡ ok (p, replay, w')
      → Recorded q o.payload_hash w p replay w'
  unfolding created raced
  created-effect env q o w p replay w' v e acc one gone (ok t) done h =
      with_answer q o.payload_hash o.payload_hash w _ p false replay _ w'
        (created-Recorded env q o w t v e acc one done) refl h
  created-effect env q o w p replay w' v e acc one gone (err Error.exists) done h =
      absurd (ground arith)
  created-effect env q o w p replay w' v e acc one gone (err x) done h = absurd (ground arith)

  submit_new-effect :
      (env : Env) (principal : Principal) (r : SubmitRequest) (payload : Text) (policy : Policy)
      (w : GatewayWorld g) (p : Operation) (replay : Bool) (w' : GatewayWorld g)
      → IsValid w.state
      → g.store.find_by_idempotency (receipt r policy) w.state ≡ err Error.not_found
      → submit_new g env principal r payload policy w ≡ ok (p, replay, w')
      → Recorded (receipt r policy) (hash payload) w p replay w'
  unfolding submit_new
  submit_new-effect env principal r payload policy w p replay w' v gone h =
      elim (Option-cases env.new_id) [
        | inl nil ↦ absurd (ground arith)
        | inr (id, e) ↦
            let o = new_operation g id env principal r payload policy in
            let (u, checked, rest) = >>=-eq-ok (validate_operation o) _ (rw e at h) in
            created-effect env (receipt r policy) o w p replay w' v refl refl refl gone
              (g.store.create o w.state) refl rest
      ]

  found-effect :
      (env : Env) (principal : Principal) (r : SubmitRequest) (payload : Text) (policy : Policy)
      (w : GatewayWorld g) (p : Operation) (replay : Bool) (w' : GatewayWorld g)
      → IsValid w.state
      → (x : Result Error Operation) → g.store.find_by_idempotency (receipt r policy) w.state ≡ x
      → found g env principal r payload policy w x ≡ ok (p, replay, w')
      → Recorded (receipt r policy) (hash payload) w p replay w'
  unfolding found
  found-effect env principal r payload policy w p replay w' v (ok c) e h =
      elim (Text-discrete c.payload_hash (hash payload)) [
        | no other ↦ absurd (ground arith)
        | yes same ↦
            with_answer (receipt r policy) (hash payload) c.payload_hash w _ p true replay _ w'
              (replay-Recorded env (receipt r policy) c w v e) same (ground arith)
      ]
  found-effect env principal r payload policy w p replay w' v (err Error.not_found) e h =
      submit_new-effect env principal r payload policy w p replay w' v e h
  found-effect env principal r payload policy w p replay w' v (err x) e h = absurd (ground arith)

  -- What a successful submission passed, and what it did.
  pub record Submitted (principal : Principal) (raw : SubmitRequest) (w : GatewayWorld g)
      (p : Operation) (replay : Bool) (w' : GatewayWorld g) : Type 0 where
    pub request : SubmitRequest
    pub payload : Text
    pub policy : Policy
    pub admitted : admit g principal raw ≡ ok (request, payload, policy)
    pub recorded : Recorded (receipt request policy) (hash payload) w p replay w'

  pub submit-Submitted :
      (env : Env) (principal : Principal) (raw : SubmitRequest) (w : GatewayWorld g) (p : Operation)
      (replay : Bool) (w' : GatewayWorld g)
      → IsValid w.state
      → submit g env principal raw w ≡ ok (p, replay, w')
      → Submitted principal raw w p replay w'
  unfolding submit
  submit-Submitted env principal raw w p replay w' v h =
      let ((r, payload, policy), passed, rest) = >>=-eq-ok (admit g principal raw) _ h in
      record {
        request = r;
        payload = payload;
        policy = policy;
        admitted = passed;
        recorded =
            found-effect env principal r payload policy w p replay w' v
              (g.store.find_by_idempotency (receipt r policy) w.state) refl rest;
      }
