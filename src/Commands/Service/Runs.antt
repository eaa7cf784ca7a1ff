-- ===== src/Commands/Service/Runs.antt =====
-- Runs of the service: any sequence of submissions and owner results.
use record_hub.Base.{
  Text, Bool, true, false, List, [], ◌∷◌, Result, ok, err, Time, Option, ◌≡◌, refl, inl, inr,
}
use record_hub.Identity.Principal.{Principal}
use record_hub.Commands.Model.{Error, Operation, SubmitRequest, ResultEnvelope, is_terminal}
use record_hub.Commands.Store.{StoreLaws, Put}
use mathlib.Core.Path.{subst}
use record_hub.Commands.Service.{Gateway, Env}
use record_hub.Commands.Service.Submit.{submit, GatewayWorld}
use record_hub.Commands.Service.Results.{is_pending, advanced, apply_result}
use record_hub.Commands.Service.ResultLaws.{How, apply_result-Applied, validated_is_terminal}
use record_hub.Commands.Service.History.{
  Change, Changes, Changes-IsValid, Changes-trans, Changes-ended,
}
use record_hub.Commands.Service.SubmitEffect.{submit-Submitted}

-- A call with what its surroundings give it.
pub data Call : Type 0 where
  submitted : Env → Principal → SubmitRequest → Call
  resulted : Time → Option Bool → ResultEnvelope → Call

-- A refused call leaves the state: the store of a gateway changes through its operations alone.
pub kept {ℓ} : {A : Type ℓ} {W : Type 0} → W → Result Error (A × Bool × W) → W
kept w (ok (a, b, w')) = w'
kept w (err e) = w

module _ (g : Gateway) where
  unfoldable pub after : Call → GatewayWorld g → GatewayWorld g
  unfolding kept
  after (submitted env principal r) w = kept w (submit g env principal r w)
  after (resulted now audit r) w = kept w (apply_result g.store now audit r w)

  unfoldable pub run : List Call → GatewayWorld g → GatewayWorld g
  run [] w = w
  run (c ∷ cs) w = run cs (after c w)

  module _ (laws : StoreLaws g.store) where
    open laws use {IsValid, find-own_key}

    How-Changes :
        (now : Time) (r : ResultEnvelope) (w : GatewayWorld g) (was p : Operation) (replay : Bool)
        (w' : GatewayWorld g)
        → g.store.find was.tenant_id was.workspace_id was.id w.state ≡ ok was
        → is_terminal r.status ≡ true
        → How g.store laws now r w was p replay w'
        → Changes g.store laws w.state w'.state
    How-Changes now r w was p replay w' place ends (inl (again, same, still, replayed, done)) =
        rw still Changes.here
    How-Changes now r w was p replay w' place ends (inr (fresh, pending, new, valid, put)) =
        Changes.next {t = w.state} {u = w'.state} Changes.here
          (Change.move was (advanced now r was) place
            ((refl, refl), refl, refl, refl, refl, refl, refl, refl, refl, refl)
            (inr (pending, ends)) refl (subst (λ x. Put g.store w.state x w'.state) new put))
          valid

    apply_result-Changes :
        (now : Time) (audit : Option Bool) (r : ResultEnvelope) (w : GatewayWorld g) (p : Operation)
        (replay : Bool) (w' : GatewayWorld g)
        → IsValid w.state
        → apply_result g.store now audit r w ≡ ok (p, replay, w')
        → Changes g.store laws w.state w'.state
    apply_result-Changes now audit r w p replay w' v h =
        let a = apply_result-Applied g.store laws now audit r w p replay w' v h in
        How-Changes now r w a.was p replay w'
          (find-own_key r.tenant_id r.workspace_id r.operation_id w.state a.was v a.stood).1
          (validated_is_terminal r a.valid) a.how

    kept-Changes {ℓ} :
        {A : Type ℓ} (w : GatewayWorld g) (x : Result Error (A × Bool × GatewayWorld g))
        → ((a : A) (b : Bool) (w' : GatewayWorld g)
            → x ≡ ok (a, b, w')
            → Changes g.store laws w.state w'.state)
        → Changes g.store laws w.state (kept w x).state
    unfolding kept
    kept-Changes w (ok (a, b, w')) f = f a b w' refl
    kept-Changes w (err e) f = Changes.here

    after-Changes :
        (c : Call) (w : GatewayWorld g)
        → IsValid w.state
        → Changes g.store laws w.state (after c w).state
    unfolding after
    after-Changes (submitted env principal r) w v =
        kept-Changes w (submit g env principal r w)
          (λ p b w' h. (submit-Submitted g laws env principal r w p b w' v h).recorded.changes)
    after-Changes (resulted now audit r) w v =
        kept-Changes w (apply_result g.store now audit r w)
          (λ p b w' h. apply_result-Changes now audit r w p b w' v h)

    pub run-Changes :
        (cs : List Call) (w : GatewayWorld g)
        → IsValid w.state
        → Changes g.store laws w.state (run cs w).state
    unfolding run
    run-Changes [] w v = Changes.here
    run-Changes (c ∷ cs) w v =
        let first = after-Changes c w v in
        Changes-trans g.store laws first
          (run-Changes cs (after c w) (Changes-IsValid g.store laws v first))

    -- An operation that has ended is found in its place, with all its fields as they were, after
    -- any sequence of submissions and owner results.
    pub run_keeps_ended :
        (a b c : Text) (o : Operation) (cs : List Call) (w : GatewayWorld g)
        → IsValid w.state
        → g.store.find a b c w.state ≡ ok o
        → is_pending o.status ≡ false
        → g.store.find a b c (run cs w).state ≡ ok o
    run_keeps_ended a b c o cs w v found done =
        Changes-ended g.store laws a b c o v found done (run-Changes cs w v)
