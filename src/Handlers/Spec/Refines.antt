-- ===== src/Handlers/Spec/Refines.antt =====
-- A pass of the handler as a run of the machine, and what the phases stand for.
use mathlib.Core.Path.{subst}
use text.Mathlib.Text.{◌==◌}
use gameserver_ingress_contr.Base.{
  ◌≡◌, refl, sym, Bool, true, false, Option, none, some, Option-cases, inl, inr,
}
use gameserver_ingress_contr.Base.Result.{IsOk}
use gameserver_ingress_contr.Gameserver.{GameServer, get_router_backend, router_backend_gateway}
use gameserver_ingress_contr.Handlers.{
  Handler, new_handler, service_store_of, game_server_store_of, reconcile, reconcile_all,
  reconcile_route,
}
use gameserver_ingress_contr.Handlers.Gate.{IsEligible}
use gameserver_ingress_contr.Handlers.Lands.{HasService, HasRoute, service_lands}
use gameserver_ingress_contr.Handlers.Order.{eligible_pass}
use gameserver_ingress_contr.Handlers.Pass.{route_lands}
use gameserver_ingress_contr.Handlers.Spec.{
  Phase, serving, routing, marking, make_service, service_there, make_ingress, make_http_route,
  route_there, mark, Steps, none_left, then_step,
}
use gameserver_ingress_contr.Handlers.Spec.Phases.{
  Within, within, Leads, Leads-Along, Leads-wrapping, Leads->>=,
}
use gameserver_ingress_contr.Handlers.Spec.Safe.{Established, Steps-Established}
use gameserver_ingress_contr.Handlers.Trail.{
  Along-reconcile_service, Along-reconcile_ingress, Along-reconcile_http_route,
  Along-reconcile_route, Along-reconcile_mark,
}
use gameserver_ingress_contr.Handlers.Trail.Updates.{Along-update_ready}
use gameserver_ingress_contr.Objects.{Service, Ingress, HttpRoute}
use gameserver_ingress_contr.Options.Custom.Twice.{IsMap}
use gameserver_ingress_contr.Platform.{Libs, IsLawful}
use gameserver_ingress_contr.Reconcilers.Gateway.Built as BuiltRoute
use gameserver_ingress_contr.Reconcilers.GameServer as GameServerReconciler
use gameserver_ingress_contr.Reconcilers.GameServer.{wrapping}
use gameserver_ingress_contr.Reconcilers.Ingress.Built as BuiltIngress
use gameserver_ingress_contr.Reconcilers.Service as ServiceReconciler
use gameserver_ingress_contr.Reconcilers.Service.{service_options}
use gameserver_ingress_contr.Reconcilers.Service.Built as BuiltService
use gameserver_ingress_contr.Stores.{Store, create_service, create_ingress, create_http_route}
use gameserver_ingress_contr.Stores.Live.{IsLive}
use gameserver_ingress_contr.World.{World, Call, Client, GameServerClient, Attempted}
use gameserver_ingress_contr.World.Along.{Along}

module _ {E S : Type 0} (libs : Libs E) (store : Store E S) (agones : Option (GameServerClient E S))
    (gs : GameServer) where
  make_a_service :
      (a : Service)
      → BuiltService.IsBuilt libs gs a
      → Along (Within libs store agones gs serving) (create_service libs store a)
  unfolding create_service
  make_a_service a built w =
      subst
        (λ ns.
          Within libs store agones gs serving w
            (record w { cluster = (store.service_store.create ns a w.cluster).1 }))
        (sym built.placed) (then_step none_left (make_service a built))

  make_an_ingress :
      (get_router_backend gs == router_backend_gateway) ≡ false
      → (a : Ingress) → BuiltIngress.IsBuilt libs gs a
      → Along (Within libs store agones gs routing) (create_ingress libs store a)
  unfolding create_ingress
  make_an_ingress other a built w =
      subst
        (λ ns.
          Within libs store agones gs routing w
            (record w { cluster = (store.ingress_store.create ns a w.cluster).1 }))
        (sym built.placed) (then_step none_left (make_ingress a other built))

  create_http_route-world :
      (client : Client E S HttpRoute) (a : HttpRoute) (w : World S)
      → store.gateway_store ≡ some client
      → record w { cluster = (client.create (a.namespace) a w.cluster).1 }
        ≡ (create_http_route libs store a w).1
  unfolding create_http_route
  create_http_route-world client a w e = rw e refl

  create_http_route-none :
      (a : HttpRoute) (w : World S)
      → store.gateway_store ≡ none
      → w ≡ (create_http_route libs store a w).1
  unfolding create_http_route
  create_http_route-none a w e = rw e refl

  make_an_http_route :
      (get_router_backend gs == router_backend_gateway) ≡ true
      → (a : HttpRoute) → BuiltRoute.IsBuilt libs gs a
      → Along (Within libs store agones gs routing) (create_http_route libs store a)
  make_an_http_route gateway a built w = elim (Option-cases store.gateway_store) [
    | inl e ↦ subst (Within libs store agones gs routing w) (create_http_route-none a w e) none_left
    | inr (client, e) ↦
        subst (Within libs store agones gs routing w) (create_http_route-world client a w e) (
          subst
            (λ ns.
              Within libs store agones gs routing w
                (record w { cluster = (client.create ns a w.cluster).1 }))
            (sym built.placed) (then_step none_left (make_http_route client a gateway e built)))
  ]

module _ {E S : Type 0} (libs : Libs E) (law : IsLawful libs) (store : Store E S)
    (agones : Option (GameServerClient E S)) (live : IsLive store agones libs)
    (gateway_enabled : Bool) (retry_on_conflict : Call E S GameServer → Call E S GameServer)
    (attempted : (f : Call E S GameServer) (w : World S)
      → Attempted libs f w (retry_on_conflict f w))
    (gs : GameServer) (u : IsMap gs) where
  abbrev h : Handler E S
  h = new_handler libs store agones gateway_enabled

  Leads-service :
      Leads libs store agones gs serving routing
        (ServiceReconciler.reconcile libs (service_store_of libs store) gs)
  Leads-service =
      Leads-Along libs store agones gs serving routing _ (λ w. HasService store gs w.cluster)
        (Along-reconcile_service libs store (Within libs store agones gs serving)
          (within libs store agones gs serving) gs
          λ a made.
            make_a_service libs store agones gs a
              (BuiltService.new_service-IsBuilt libs gs a u made))
        (service_lands libs law store agones live gs u) λ w there. service_there there

  Leads-route :
      Leads libs store agones gs routing marking (reconcile_route libs retry_on_conflict h gs)
  Leads-route =
      Leads-Along libs store agones gs routing marking _ (λ w. HasRoute store gs w.cluster)
        (Along-reconcile_route libs store (Within libs store agones gs routing)
          (within libs store agones gs routing) gs retry_on_conflict agones gateway_enabled
          (λ other.
            Along-reconcile_ingress libs store (Within libs store agones gs routing)
              (within libs store agones gs routing) gs
              λ a made.
                make_an_ingress libs store agones gs other a
                  (BuiltIngress.new_ingress-IsBuilt libs gs a u made))
          λ gateway.
            Along-reconcile_http_route libs store (Within libs store agones gs routing)
              (within libs store agones gs routing) gs
              λ a made.
                make_an_http_route libs store agones gs gateway a
                  (BuiltRoute.new_http_route-IsBuilt libs gs a u made))
        (route_lands libs law store agones live gateway_enabled retry_on_conflict attempted gs u)
        λ w there. route_there there

  Leads-mark :
      Leads libs store agones gs marking marking (
        GameServerReconciler.reconcile libs (game_server_store_of libs agones) retry_on_conflict gs)
  Leads-mark w = (
    marking,
    Along-reconcile_mark libs agones (Within libs store agones gs marking)
        (within libs store agones gs marking) gs retry_on_conflict attempted
        (Along-update_ready libs agones gs (Within libs store agones gs marking)
          (within libs store agones gs marking)
          λ client cached d w e got given. then_step none_left (mark client cached d e got given))
        w,
    λ _. refl,
  )

  Leads-all : Leads libs store agones gs serving marking (reconcile_all libs retry_on_conflict h gs)
  unfolding reconcile_all new_handler
  Leads-all =
      Leads->>= libs store agones gs serving routing _ marking _
        (Leads-wrapping libs store agones gs serving routing _ _ Leads-service)
        λ _. Leads->>= libs store agones gs routing marking _ marking _ Leads-route λ _.
          Leads->>= libs store agones gs marking marking _ marking _
            (Leads-wrapping libs store agones gs marking marking _ _ Leads-mark)
            λ _ w. (marking, none_left, λ _. refl)

  -- Over an API server whose caches are in step with it, and in which nobody else deletes, with
  -- wrapped errors that keep their reason and a retry that tries again on conflicts only: a pass of
  -- the handler for an eligible game server whose annotations are a map is a run of the machine of
  -- three phases, from making the Service on, whether it ends with success, with an error or with a
  -- panic: every change to the cluster is a step of the machine, in its order. The run ends in a
  -- phase for which all is there, for routing the Service and for marking the route too, and where
  -- the pass succeeds that is marking.
  pub reconcile-Steps :
      (w : World S)
      → IsEligible gs
      → let (r, w') = reconcile libs retry_on_conflict h (some gs) w in
        (p : Phase) × Steps libs store agones gs serving w p w'
        × Established libs store agones gs p w'.cluster
        × (IsOk r → p ≡ marking)
  reconcile-Steps w eligible = rw (eligible_pass libs retry_on_conflict h gs w eligible) (
      let (p, steps, done) = Leads-all w in
      (p, steps, Steps-Established libs store agones gs live steps, done))
