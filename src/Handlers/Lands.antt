-- ===== src/Handlers/Lands.antt =====
-- What a pass of the handler leaves in the cluster.
use text.Mathlib.Text.{◌==◌}
use gameserver_ingress_contr.Base.{◌≡◌, true, false, Option, some, ◌⊎◌, inl, inr}
use gameserver_ingress_contr.Gameserver.{GameServer, get_router_backend, router_backend_gateway}
use gameserver_ingress_contr.Handlers.{service_store_of, ingress_store_of, http_route_store_of}
use gameserver_ingress_contr.Objects.{HttpRoute}
use gameserver_ingress_contr.Options.Custom.Twice.{IsMap}
use gameserver_ingress_contr.Platform.{Libs, IsLawful}
use gameserver_ingress_contr.Reconcilers.Gateway as GatewayReconciler
use gameserver_ingress_contr.Reconcilers.Gateway.{http_route_options}
use gameserver_ingress_contr.Reconcilers.Gateway.Built as BuiltRoute
use gameserver_ingress_contr.Reconcilers.Ingress as IngressReconciler
use gameserver_ingress_contr.Reconcilers.Ingress.{ingress_options}
use gameserver_ingress_contr.Reconcilers.Ingress.Built as BuiltIngress
use gameserver_ingress_contr.Reconcilers.Push.Keeps.{Yields-push, Yields-found_or}
use gameserver_ingress_contr.Reconcilers.Service as ServiceReconciler
use gameserver_ingress_contr.Reconcilers.Service.{service_options}
use gameserver_ingress_contr.Reconcilers.Service.Built as BuiltService
use gameserver_ingress_contr.Stores.{
  Store, create_service, get_service, create_ingress, get_ingress, create_http_route,
  get_http_route,
}
use gameserver_ingress_contr.Stores.Live.{
  IsThere, IsLive, IsLasting, Yields-get_service, Yields-get_ingress, Yields-get_http_route,
  Makes-create_service, Makes-create_ingress, Makes-create_http_route,
}
use gameserver_ingress_contr.World.{Client, GameServerClient}
use gameserver_ingress_contr.World.Keeps.{Yields, Yields-keep, Yields-then}

module _ {E S : Type 0} (store : Store E S) (gs : GameServer) where
  abbrev pub HasService : S → Type 0
  HasService = IsThere store.service_store gs.namespace gs.name

  abbrev pub HasIngress : S → Type 0
  HasIngress = IsThere store.ingress_store gs.namespace gs.name

  abbrev pub HasHttpRoute : Client E S HttpRoute → S → Type 0
  HasHttpRoute client = IsThere client gs.namespace gs.name

  -- The route of the backend that the game server asks for.
  abbrev pub HasRoute : S → Type 0
  HasRoute s =
      (((get_router_backend gs == router_backend_gateway) ≡ true)
        × ((client : Client E S HttpRoute) × (store.gateway_store ≡ some client)
            × HasHttpRoute client s))
      ⊎ (((get_router_backend gs == router_backend_gateway) ≡ false) × HasIngress s)

  -- No call ends it, where none ends the parts.
  pub HasRoute-IsLasting :
      (libs : Libs E) (agones : Option (GameServerClient E S))
      → IsLive store agones libs
      → IsLasting store agones HasRoute
  HasRoute-IsLasting libs agones live = record {
    services_keep = λ ns a s h. elim h [
      | inl (b, (c, e, p)) ↦
          inl (b, (c, e, (live.routes_last c e gs.namespace gs.name).services_keep ns a s p))
      | inr (b, p) ↦ inr (b, (live.ingresses_last gs.namespace gs.name).services_keep ns a s p)
    ];
    ingresses_keep = λ ns a s h. elim h [
      | inl (b, (c, e, p)) ↦
          inl (b, (c, e, (live.routes_last c e gs.namespace gs.name).ingresses_keep ns a s p))
      | inr (b, p) ↦ inr (b, (live.ingresses_last gs.namespace gs.name).ingresses_keep ns a s p)
    ];
    routes_keep = λ client given ns a s h. elim h [
      | inl (b, (c, e, p)) ↦
          inl (
            b,
            (c, e, (live.routes_last c e gs.namespace gs.name).routes_keep client given ns a s p),
          )
      | inr (b, p) ↦
          inr (b, (live.ingresses_last gs.namespace gs.name).routes_keep client given ns a s p)
    ];
    updates_keep = λ client given ns a s h. elim h [
      | inl (b, (c, e, p)) ↦ inl (
        b,
        (c, e, (live.routes_last c e gs.namespace gs.name).updates_keep client given ns a s p),
      )
      | inr (b, p) ↦
          inr (b, (live.ingresses_last gs.namespace gs.name).updates_keep client given ns a s p)
    ];
  }

module _ {E S : Type 0} (libs : Libs E) (law : IsLawful libs) (store : Store E S)
    (agones : Option (GameServerClient E S)) (live : IsLive store agones libs) (gs : GameServer)
    (u : IsMap gs) where
  pub service_lands :
      Yields
        (HasService store gs)
        (ServiceReconciler.reconcile libs (service_store_of libs store) gs)
  unfolding ServiceReconciler.reconcile ServiceReconciler.reconcile_not_found
  service_lands =
      let P = HasService store gs in
      Yields-found_or P libs _ some _ (get_service libs store gs.name gs.namespace)
        (Yields-get_service libs store gs.name gs.namespace)
        (Yields-then P _ _ λ _. Yields-push P libs _ gs _ _ (create_service libs store) _ λ a made.
          let built = BuiltService.new_service-IsBuilt libs gs a u made in
          Makes-create_service libs store law agones live a built.placed built.named)

  pub ingress_lands :
      Yields
        (HasIngress store gs)
        (IngressReconciler.reconcile libs (ingress_store_of libs store) gs)
  unfolding IngressReconciler.reconcile IngressReconciler.reconcile_not_found
  ingress_lands =
      let P = HasIngress store gs in
      Yields-found_or P libs _ _ _ (get_ingress libs store gs.name gs.namespace)
        (Yields-get_ingress libs store gs.name gs.namespace)
        (Yields-then P _ _ λ _.
          Yields-keep P _ _
            (Yields-push P libs _ gs _ _ (create_ingress libs store) _ λ a made.
              let built = BuiltIngress.new_ingress-IsBuilt libs gs a u made in
              Makes-create_ingress libs store law agones live a built.placed built.named)
            λ _ w p. p)

  pub http_route_lands :
      (client : Client E S HttpRoute)
      → store.gateway_store ≡ some client
      → Yields
          (HasHttpRoute store gs client)
          (GatewayReconciler.reconcile libs (http_route_store_of libs store) gs)
  unfolding GatewayReconciler.reconcile GatewayReconciler.reconcile_not_found
  http_route_lands client e =
      let P = HasHttpRoute store gs client in
      Yields-found_or P libs _ _ _ (get_http_route libs store gs.name gs.namespace)
        (Yields-get_http_route libs store client e gs.name gs.namespace)
        (Yields-then P _ _ λ _. Yields-then P _ _ λ _. Yields-then P _ _ λ _.
          Yields-keep P _ _
            (Yields-push P libs _ gs _ _ (create_http_route libs store) _ λ a made.
              let built = BuiltRoute.new_http_route-IsBuilt libs gs a u made in
              Makes-create_http_route libs store law agones live client e a built.placed
                built.named)
            λ _ w p. p)
