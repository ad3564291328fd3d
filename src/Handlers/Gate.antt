-- ===== src/Handlers/Gate.antt =====
-- Which events the handler acts on, and what it does when nothing is left to be done.
use text.Mathlib.Text.{◌==◌}
use gameserver_ingress_contr.Base.{
  String, ◌≡◌, ◌∙◌, refl, true, false, ◌⊎◌, inl, inr, some, Bool-cases, Option-cases,
}
use gameserver_ingress_contr.Base.Action.{>>=-ok}
use gameserver_ingress_contr.Base.Result.{ok}
use gameserver_ingress_contr.Gameserver.{
  GameServer, has_annotation, is_shutdown, must_reconcile, get_router_backend,
  router_backend_gateway, octops_annotation_ingress_mode,
}
use gameserver_ingress_contr.Gameserver.Laws.{IsServing, IsServing-passes, must_reconcile-IsServing}
use gameserver_ingress_contr.Handlers.{Handler, reconcile, reconcile_all, reconcile_route}
use gameserver_ingress_contr.Objects.{Service, Ingress, HttpRoute}
use gameserver_ingress_contr.Platform.{Libs}
use gameserver_ingress_contr.Reconcilers.Gateway as GatewayReconciler
use gameserver_ingress_contr.Reconcilers.Gateway.{HttpRouteStore}
use gameserver_ingress_contr.Reconcilers.GameServer as GameServerReconciler
use gameserver_ingress_contr.Reconcilers.GameServer.{must_reconcile_mark, wrapping-ok}
use gameserver_ingress_contr.Reconcilers.Ingress as IngressReconciler
use gameserver_ingress_contr.Reconcilers.Service as ServiceReconciler
use gameserver_ingress_contr.World.{World, Call}

-- The game servers that the controller acts on: those with a routing mode that are serving.
abbrev pub IsEligible : GameServer → Type 0
IsEligible gs =
    IsServing gs.status.state
    × ((mode : String) × (has_annotation gs octops_annotation_ingress_mode ≡ some mode))

module _ {E S : Type 0} (h : Handler E S) where
  -- The store of the chosen backend finds the route.
  abbrev pub IsRouted : GameServer → World S → Type 0
  IsRouted gs w =
      (((get_router_backend gs == router_backend_gateway) ≡ true)
        × ((routes : HttpRouteStore E S) × (h.gateway_reconciler ≡ some routes)
            × ((route : HttpRoute) × (routes.get_http_route gs.name gs.namespace w
                  ≡ (ok route, w)))))
      ⊎ (((get_router_backend gs == router_backend_gateway) ≡ false)
          × ((ingress : Ingress) × (h.ingress_reconciler.get_ingress gs.name gs.namespace w
                ≡ (ok ingress, w))))

module _ {E S : Type 0} (libs : Libs E)
    (retry_on_conflict : Call E S GameServer → Call E S GameServer) (h : Handler E S) where
  -- A game server that is eligible goes through all the steps; for any other, the handler succeeds
  -- and changes and records nothing.
  pub reconcile-IsEligible :
      (gs : GameServer) (w : World S)
      → (IsEligible gs
          × (reconcile libs retry_on_conflict h (some gs) w
              ≡ reconcile_all libs retry_on_conflict h gs w))
        ⊎ (¬ IsEligible gs × (reconcile libs retry_on_conflict h (some gs) w ≡ (ok tt, w)))
  unfolding reconcile
  reconcile-IsEligible gs w =
      elim (Option-cases (has_annotation gs octops_annotation_ingress_mode)) [
        | inl e ↦ inr (λ (_, (mode, e')). absurd cc, rw e refl)
        | inr (mode, e) ↦ elim (Bool-cases (must_reconcile (some gs))) [
          | inl m ↦
              let serving = must_reconcile-IsServing gs m in
              let (s, _) = IsServing-passes gs serving in
              inl ((serving, (mode, e)), rw (e, s, m) refl)
          | inr m ↦
              let refused : ¬ IsServing gs.status.state =
                λ serving. let (_, m') = IsServing-passes gs serving in absurd cc in
              inr (
                λ (serving, _). refused serving,
                elim (Bool-cases (is_shutdown (some gs))) [
                  | inl s ↦ rw (e, s) refl
                  | inr s ↦ rw (e, s, m) refl
                ],
              )
        ]
      ]

  reconcile_route_found :
      (gs : GameServer) (w : World S)
      → IsRouted h gs w
      → reconcile_route libs retry_on_conflict h gs w ≡ (ok false, w)
  unfolding reconcile_route
  reconcile_route_found gs w (inl (backend, (routes, e, (route, found)))) =
      rw (backend, e)
        (>>=-ok _ _
          (wrapping-ok libs _ _ (GatewayReconciler.reconcile_found libs routes gs w found)))
  reconcile_route_found gs w (inr (backend, (ingress, found))) = rw backend (
      >>=-ok _ _ (
        wrapping-ok libs _ _
          (IngressReconciler.reconcile_found libs h.ingress_reconciler gs w found)))

  -- Where the Service and the route of the chosen backend are found and the game server has the
  -- mark, the handler succeeds and changes and records nothing, for a game server of any kind.
  pub reconcile_done :
      (gs : GameServer) (w : World S) {service : Service}
      → h.service_reconciler.get_service gs.name gs.namespace w ≡ (ok service, w)
      → IsRouted h gs w
      → must_reconcile_mark libs gs ≡ ok false
      → reconcile libs retry_on_conflict h (some gs) w ≡ (ok tt, w)
  unfolding reconcile_all
  reconcile_done gs w service routed marked = elim (reconcile-IsEligible gs w) [
    | inl (_, all) ↦
        all
        ∙ >>=-ok _ _ (
            wrapping-ok libs _ _
              (ServiceReconciler.reconcile_found libs h.service_reconciler gs w service))
        ∙ >>=-ok _ _ (reconcile_route_found gs w routed)
        ∙ >>=-ok _ _ (
            wrapping-ok libs _ _ (
              GameServerReconciler.reconcile_marked libs h.gameserver_reconciler retry_on_conflict
                gs w marked))
    | inr (_, skipped) ↦ skipped
  ]
