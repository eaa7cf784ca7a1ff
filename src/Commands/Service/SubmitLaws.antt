-- ===== src/Commands/Service/SubmitLaws.antt =====
-- What a submission does to the store.
use record_hub.Base.{
  text_eq, true, false, ◌∷◌, Result, ok, err, inc64, ◌≡◌, refl, sym, ap, ◌∙◌, ◌⊎◌, inl, inr, arith,
  Option-cases,
}
use record_hub.Commands.Model.{Error, Status, Status-discrete, status_eq, Operation}
use record_hub.Commands.Store.{StoreLaws, receipt_eq}
use record_hub.Commands.Service.{Gateway, Env, command_subject, envelope_of}
use record_hub.Commands.Service.Submit.{moved_on, saved, dispatch, GatewayWorld}
use record_hub.Commands.Service.History.{SameOrder, Change, Changes}

abbrev pub refl_order : (o : Operation) → SameOrder o o
refl_order o = ((refl, refl), refl, refl, refl, refl, refl, refl, refl, refl, refl)

module _ (g : Gateway) (laws : StoreLaws g.store) where
  open laws use {IsValid, find-own_key, find_by-find, find-find_by, create-Put, save_cas-Put}

  -- The state that follows `s`, where the operation `c` stood, and what stands there now.
  pub record Follows (c : Operation) (s t : g.store.State) (p : Operation) : Type 0 where
    pub changes : Changes g.store laws s t
    pub valid : IsValid t
    pub stands : Operation
    pub place : g.store.find c.tenant_id c.workspace_id c.id t ≡ ok stands
    pub order : SameOrder c stands
    pub answer : SameOrder c p

  saved-Follows :
      (env : Env) (o c : Operation) (w : GatewayWorld g)
      → IsValid w.state
      → g.store.find o.tenant_id o.workspace_id o.id w.state ≡ ok c
      → SameOrder c o
      → c.status ≡ Status.accepted
      → c.revision ≡ o.revision
      → (r : Result Error (Operation × g.store.State))
      → g.store.save_cas (moved_on g env.dispatched o) o.revision w.state ≡ r
      → let (p, w') = saved g o w r in Follows c w.state w'.state p
  unfolding saved
  saved-Follows env o c w v there order acc rev (err x) e = record {
    changes = Changes.here;
    valid = v;
    stands = c;
    place = ground (arith, find-own_key o.tenant_id o.workspace_id o.id w.state c v there);
    order = refl_order c;
    answer = order;
  }
  saved-Follows env o c w v there order acc rev (ok (p, t)) e =
      let (d, at, r, put) = save_cas-Put (moved_on g env.dispatched o) p o.revision w.state t v e in
      let d-c : d ≡ c = cc in
      let (new, v', changed) = put (rw d-c order.0) in
      let home = (find-own_key o.tenant_id o.workspace_id o.id w.state c v there).1 in
      record {
        changes =
            Changes.next {t = w.state} {u = t} Changes.here
              (Change.move c (moved_on g env.dispatched o) home order (inl (acc, refl))
                (ap inc64 (sym rev)) changed)
              v';
        valid = v';
        stands = moved_on g env.dispatched o;
        place = changed.found c.tenant_id c.workspace_id c.id order.0.0;
        order = order;
        answer = rw new order;
      }

  stays-Follows :
      (o c : Operation) (s : g.store.State)
      → IsValid s
      → g.store.find o.tenant_id o.workspace_id o.id s ≡ ok c
      → SameOrder c o
      → Follows c s s o
  stays-Follows o c s v there order = record {
    changes = Changes.here;
    valid = v;
    stands = c;
    place = (find-own_key o.tenant_id o.workspace_id o.id s c v there).1;
    order = refl_order c;
    answer = order;
  }

  -- The world once the message is out.
  abbrev sent_world : Operation → GatewayWorld g → GatewayWorld g
  sent_world o w = record w {
    published = (command_subject o.owner_system o.action, envelope_of o) ∷ w.published;
  }

  dispatch_cases :
      (env : Env) (o : Operation) (w : GatewayWorld g)
      → (dispatch g env o w ≡ (o, w))
        ⊎ ((o.status ≡ Status.accepted)
            × (dispatch g env o w
                ≡ saved g o
                    (sent_world o w)
                    (g.store.save_cas (moved_on g env.dispatched o) o.revision w.state)))
  unfolding dispatch
  dispatch_cases env o w = elim (Option-cases env.publish) [
    | inl nil ↦ inl (rw nil)
    | inr (false, e) ↦ inl (rw e (ground arith))
    | inr (true, e) ↦ elim (Status-discrete o.status Status.accepted) [
      | no moved ↦ inl (rw e (ground arith))
      | yes acc ↦ inr (acc, rw e (ground arith))
    ]
  ]

  pub dispatch-Follows :
      (env : Env) (o c : Operation) (w : GatewayWorld g)
      → IsValid w.state
      → g.store.find o.tenant_id o.workspace_id o.id w.state ≡ ok c
      → SameOrder c o
      → c.status ≡ o.status
      → c.revision ≡ o.revision
      → let (p, w') = dispatch g env o w in Follows c w.state w'.state p
  dispatch-Follows env o c w v there order status rev = elim (dispatch_cases env o w) [
    | inl stays ↦ rw stays (stays-Follows o c w.state v there order)
    | inr (acc, goes) ↦ rw goes (
        saved-Follows env o c (sent_world o w) v there order (status ∙ acc) rev
          (g.store.save_cas (moved_on g env.dispatched o) o.revision w.state) refl)
  ]
