-- ===== src/Handlers/Order.antt =====
-- The order of the steps of a pass, and what a failing step means for those after it.
use gameserver_ingress_contr.Base.{ap, ◌≡◌, ◌∙◌, sym, Bool, Option, some, inl, inr}
use gameserver_ingress_contr.Base.Action.{>>=-inv}
use gameserver_ingress_contr.Base.Result.{ok}
use gameserver_ingress_contr.Gameserver.{GameServer}
use gameserver_ingress_contr.Handlers.{Handler, reconcile, reconcile_all, reconcile_route}
use gameserver_ingress_contr.Handlers.Gate.{IsEligible, reconcile-IsEligible}
use gameserver_ingress_contr.Objects.{Service}
use gameserver_ingress_contr.Platform.{Libs}
use gameserver_ingress_contr.Reconcilers.GameServer as GameServerReconciler
use gameserver_ingress_contr.Reconcilers.GameServer.{wrapping-ok, wrapping-inv}
use gameserver_ingress_contr.Reconcilers.Service as ServiceReconciler
use gameserver_ingress_contr.World.{World, Call}

module _ {E S : Type 0} (libs : Libs E)
    (retry_on_conflict : Call E S GameServer → Call E S GameServer) (h : Handler E S)
    (gs : GameServer) where
  -- The three steps have succeeded, each in the world that the one before has left.
  pub record AllDone (w w' : World S) : Type 0 where
    pub service : Option Service
    pub with_service : World S
    pub route_made : Bool
    pub with_route : World S
    pub result : GameServer
    pub served :
        ServiceReconciler.reconcile libs h.service_reconciler gs w ≡ (ok service, with_service)
    pub routed :
        reconcile_route libs retry_on_conflict h gs with_service ≡ (ok route_made, with_route)
    pub marked :
        GameServerReconciler.reconcile libs h.gameserver_reconciler retry_on_conflict gs with_route
        ≡ (ok result, w')

  pub eligible_pass :
      (w : World S)
      → IsEligible gs
      → reconcile libs retry_on_conflict h (some gs) w ≡ reconcile_all libs retry_on_conflict h gs w
  eligible_pass w eligible = elim (reconcile-IsEligible libs retry_on_conflict h gs w) [
    | inl (_, all) ↦ all
    | inr (refused, _) ↦ absurd (refused eligible)
  ]

  -- The handler reports success for an eligible game server only if the step on the Service, the
  -- step on the route and the step on the mark have all succeeded, in this order, and nothing else
  -- has happened.
  pub reconcile-AllDone :
      (w : World S) {w' : World S}
      → IsEligible gs
      → reconcile libs retry_on_conflict h (some gs) w ≡ (ok tt, w')
      → AllDone w w'
  unfolding reconcile_all
  reconcile-AllDone w eligible done =
      let (service, w1, e1, rest1) = >>=-inv _ _ (sym (eligible_pass w eligible) ∙ done) in
      let (made, w2, e2, rest2) = >>=-inv (reconcile_route libs retry_on_conflict h gs) _ rest1 in
      let (result, w3, e3, rest3) = >>=-inv _ _ rest2 in
      record {
        service = service;
        with_service = w1;
        route_made = made;
        with_route = w2;
        result = result;
        served = wrapping-inv libs _ _ e1;
        routed = e2;
        marked = wrapping-inv libs _ _ e3 ∙ ap (λ v. (ok result, v)) (ap (λ x. x.1) rest3);
      }
