-- ===== src/Handlers/Trail.antt =====
-- Where the steps of the handler lead, from where the calls of the stores lead.
pub mod Clients
pub mod Updates
pub mod Whole
use mathlib.Core.Path.{subst}
use text.Mathlib.Text.{◌==◌}
use gameserver_ingress_contr.Base.{
  String, ◌≡◌, refl, ap, sym, Bool, true, false, Option, none, some, Bool-cases, Option-cases, inl,
  inr, if◌then◌else◌, List, [], ◌∷◌, ◌++◌,
}
use gameserver_ingress_contr.Base.Action.{◌>>=◌, pure, attempt}
use gameserver_ingress_contr.Base.Result.{Result, ok}
use gameserver_ingress_contr.Gameserver.{
  GameServer, read, octops_annotation_ingress_class_name_legacy, get_router_backend,
  router_backend_gateway,
}
use gameserver_ingress_contr.Handlers.{
  Handler, new_handler, service_store_of, ingress_store_of, http_route_store_of,
  game_server_store_of, reconcile_route,
}
use gameserver_ingress_contr.Objects.{Service, Ingress, HttpRoute}
use gameserver_ingress_contr.Options.Gateway.{new_http_route}
use gameserver_ingress_contr.Options.Ingress.{new_ingress}
use gameserver_ingress_contr.Options.Service.{new_service}
use gameserver_ingress_contr.Platform.{Libs}
use gameserver_ingress_contr.Reconcilers.Gateway as GatewayReconciler
use gameserver_ingress_contr.Reconcilers.Gateway.{
  warn_if_present, terminate_tls_warning, issuer_warning, http_route_options,
}
use gameserver_ingress_contr.Reconcilers.GameServer as GameServerReconciler
use gameserver_ingress_contr.Reconcilers.GameServer.{
  update_ready, reconcile_mark, record_deprecated_annotations,
}
use gameserver_ingress_contr.Reconcilers.Ingress as IngressReconciler
use gameserver_ingress_contr.Reconcilers.Ingress.{ingress_options}
use gameserver_ingress_contr.Reconcilers.Push.Along.{Along-push, Along-found_or}
use gameserver_ingress_contr.Reconcilers.Service as ServiceReconciler
use gameserver_ingress_contr.Reconcilers.Service.{service_options}
use gameserver_ingress_contr.Recorder.{event, warning_event}
use gameserver_ingress_contr.Stores.{
  Store, create_service, get_service, create_ingress, get_ingress, create_http_route,
  get_http_route,
}
use gameserver_ingress_contr.World.{World, Call, Client, GameServerClient, Attempted}
use gameserver_ingress_contr.World.Along.{
  Along, IsTrail, Along->>=, Along-wrapping, Along-Attempted,
}

module _ {E S : Type 0} (libs : Libs E) (store : Store E S) (R : World S → World S → Type 0)
    (trail : IsTrail R) where
  Along-get_service : (name ns : String) → Along R (get_service libs store name ns)
  unfolding get_service
  Along-get_service name ns w = trail.stay w

  Along-get_ingress : (name ns : String) → Along R (get_ingress libs store name ns)
  unfolding get_ingress
  Along-get_ingress name ns w = trail.stay w

  Along-get_http_route : (name ns : String) → Along R (get_http_route libs store name ns)
  unfolding get_http_route
  Along-get_http_route name ns w = elim (Option-cases store.gateway_store) [
    | inl e ↦ rw e (trail.stay w)
    | inr (client, e) ↦ rw e (trail.stay w)
  ]

  module _ (gs : GameServer) where
    pub Along-reconcile_service :
        ((a : Service)
          → new_service libs gs (service_options libs) ≡ ok a
          → Along R (create_service libs store a))
        → Along R (ServiceReconciler.reconcile libs (service_store_of libs store) gs)
    unfolding ServiceReconciler.reconcile ServiceReconciler.reconcile_not_found
    Along-reconcile_service made = Along->>= R trail _ _ (Along-get_service gs.name gs.namespace) (
        Along-found_or R trail libs _ _ _ (
          Along->>= R trail _ _ (λ w. trail.note _ w)
            λ _. Along-push R trail libs _ gs _ _ (create_service libs store) _ made))

    pub Along-reconcile_ingress :
        ((a : Ingress)
          → new_ingress libs (some gs) (ingress_options libs gs) ≡ ok a
          → Along R (create_ingress libs store a))
        → Along R (IngressReconciler.reconcile libs (ingress_store_of libs store) gs)
    unfolding IngressReconciler.reconcile IngressReconciler.reconcile_not_found
    Along-reconcile_ingress made = Along->>= R trail _ _ (Along-get_ingress gs.name gs.namespace) (
        Along-found_or R trail libs _ _ _ (
          Along->>= R trail _ _ (λ w. trail.note _ w)
            λ _.
              Along->>= R trail _ _
                (Along-push R trail libs _ gs _ _ (create_ingress libs store) _ made)
                λ _ w. trail.stay w))

    Along-warn :
        (message : String) (o : Option String) → Along {E = E} R (warn_if_present gs message o)
    Along-warn message none w = trail.stay w
    Along-warn message (some _) w = trail.note _ w

    pub Along-reconcile_http_route :
        ((a : HttpRoute)
          → new_http_route libs (some gs) (http_route_options libs gs) ≡ ok a
          → Along R (create_http_route libs store a))
        → Along R (GatewayReconciler.reconcile libs (http_route_store_of libs store) gs)
    unfolding GatewayReconciler.reconcile GatewayReconciler.reconcile_not_found
    Along-reconcile_http_route made =
        Along->>= R trail _ _ (Along-get_http_route gs.name gs.namespace) (
          Along-found_or R trail libs _ _ _ (
            Along->>= R trail _ _ (λ w. trail.note _ w)
              λ _. Along->>= R trail _ _ (Along-warn terminate_tls_warning _) λ _.
                Along->>= R trail _ _ (Along-warn issuer_warning _) λ _.
                  Along->>= R trail _ _
                    (Along-push R trail libs _ gs _ _ (create_http_route libs store) _ made)
                    λ _ w. trail.stay w))

    -- The `switch` on the backend: an Ingress is made for the one, an HTTPRoute for the other.
    pub Along-reconcile_route :
        (retry_on_conflict : Call E S GameServer → Call E S GameServer)
        (agones : Option (GameServerClient E S)) (gateway_enabled : Bool)
        → ((get_router_backend gs == router_backend_gateway) ≡ false
            → Along R (IngressReconciler.reconcile libs (ingress_store_of libs store) gs))
        → ((get_router_backend gs == router_backend_gateway) ≡ true
            → Along R (GatewayReconciler.reconcile libs (http_route_store_of libs store) gs))
        → Along R (
            reconcile_route libs retry_on_conflict
              (new_handler libs store agones gateway_enabled)
              gs)
    unfolding reconcile_route new_handler
    Along-reconcile_route retry agones gateway_enabled hi hr w =
        elim (Bool-cases (get_router_backend gs == router_backend_gateway)) [
          | inl gateway ↦ elim (Bool-cases gateway_enabled) [
            | inl on ↦
                rw (gateway, on)
                  (Along->>= R trail _ _ (Along-wrapping R trail libs _ _ (hr gateway))
                    (λ _ w. trail.stay w) w)
            | inr off ↦ rw (gateway, off) (trail.stay w)
          ]
          | inr other ↦ rw other (
              Along->>= R trail _ _ (Along-wrapping R trail libs _ _ (hi other))
                (λ _ w. trail.stay w) w)
        ]

module _ {E S : Type 0} (libs : Libs E) (agones : Option (GameServerClient E S))
    (R : World S → World S → Type 0) (trail : IsTrail R) where
  Along-deprecated : (g : GameServer) → Along {E = E} R (record_deprecated_annotations g)
  Along-deprecated g w =
      elim (Option-cases (read octops_annotation_ingress_class_name_legacy g.annotations)) [
        | inl e ↦ rw (e, record_deprecated_annotations) (trail.stay w)
        | inr (d, e) ↦ rw (e, record_deprecated_annotations) (trail.note _ w)
      ]

  pub Along-reconcile_mark :
      (gs : GameServer) (retry_on_conflict : Call E S GameServer → Call E S GameServer)
      → ((f : Call E S GameServer) (w : World S) → Attempted libs f w (retry_on_conflict f w))
      → Along R (update_ready libs (game_server_store_of libs agones) gs)
      → Along R (
          GameServerReconciler.reconcile libs
            (game_server_store_of libs agones)
            retry_on_conflict
            gs)
  unfolding GameServerReconciler.reconcile reconcile_mark
  Along-reconcile_mark gs retry attempted h =
      Along->>= R trail _ _ (Along-wrapping R trail libs _ _ λ w. trail.stay w) λ must. branch must
    where
      branch :
          (must : Bool)
          → Along R (
              if must
              then reconcile_mark libs (game_server_store_of libs agones) retry gs
              else pure gs)
      branch false = λ w. trail.stay w
      branch true =
          Along->>= R trail _ _ (λ w. Along-Attempted R trail h (attempted _ w))
            λ result.
              Along->>= R trail _ _ (λ w. trail.note _ w)
                λ _. Along->>= R trail _ _ (Along-deprecated result) λ _ w. trail.stay w
