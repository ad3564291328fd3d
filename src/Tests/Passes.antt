-- ===== src/Tests/Passes.antt =====
-- The theorems on whole passes and on what they need, at the test cluster.
use text.Mathlib.Text.{◌==◌}
use gameserver_ingress_contr.Base.{String, ◌≡◌, refl, true, false, some, ◌↔◌, inl}
use gameserver_ingress_contr.Base.Dict.{lookup, insert}
use gameserver_ingress_contr.Base.Result.{ok, IsOk, IsOk-of_eq}
use gameserver_ingress_contr.Gameserver.{
  has_annotation, get_router_backend, get_ingress_routing_mode, get_ingress_class_name,
}
use gameserver_ingress_contr.Handlers.{reconcile, http_route_store_of}
use gameserver_ingress_contr.Handlers.Lands.{HasService, HasRoute}
use gameserver_ingress_contr.Handlers.Serves.{IsReadyFor, reconcile_serves}
use gameserver_ingress_contr.Handlers.Spec.{Phase, serving, marking, Steps}
use gameserver_ingress_contr.Handlers.Spec.Refines.{reconcile-Steps}
use gameserver_ingress_contr.Handlers.Spec.Safe.{Established}
use gameserver_ingress_contr.Options.Custom.{entries}
use gameserver_ingress_contr.Options.Gateway.{new_http_route}
use gameserver_ingress_contr.Options.Ingress.{new_ingress}
use gameserver_ingress_contr.Options.Service.{new_service}
use gameserver_ingress_contr.Reconcilers.Gateway as GatewayReconciler
use gameserver_ingress_contr.Reconcilers.Gateway.{http_route_options}
use gameserver_ingress_contr.Reconcilers.Gateway.Events.{route_notes, reconcile-route_notes}
use gameserver_ingress_contr.Reconcilers.Gateway.Ready.{IsRouteReady, new_http_route_iff}
use gameserver_ingress_contr.Reconcilers.GameServer.{mark_ready, must_reconcile_mark}
use gameserver_ingress_contr.Reconcilers.GameServer.Marked.{marked, mark_ready-must_reconcile_mark}
use gameserver_ingress_contr.Reconcilers.Push.Events.{ReconcileEvents}
use gameserver_ingress_contr.Reconcilers.Ingress.{ingress_options}
use gameserver_ingress_contr.Reconcilers.Ingress.Ready.{IsIngressReady, new_ingress_iff}
use gameserver_ingress_contr.Reconcilers.Service.{service_options}
use gameserver_ingress_contr.Reconcilers.Service.Ready.{IsServiceReady, new_service_iff}
use gameserver_ingress_contr.Tests.Handlers.{fresh, handler, domain_server-IsEligible}
use gameserver_ingress_contr.Tests.Live.{store, agones, is_live, retry-Attempted}
use gameserver_ingress_contr.Tests.Up.{IsListed, is_up, settled}
use gameserver_ingress_contr.Tests.Objects.{domain_ingress_made, domain_service_made}
use gameserver_ingress_contr.Tests.Options.{domain_server-IsMap, gateway_server-IsMap}
use gameserver_ingress_contr.Tests.Platform.{
  Cluster, libs, libs-IsLawful, domain_server, gateway_server, retry_on_conflict, game_servers,
}
use gameserver_ingress_contr.Recorder.{http_route_kind}
use gameserver_ingress_contr.Stores.{get_http_route, create_http_route}
use gameserver_ingress_contr.World.{World}

reconcile-Steps_example :
    let (r, w') = reconcile libs retry_on_conflict handler (some domain_server) fresh in
    (p : Phase) × Steps libs store agones domain_server serving fresh p w'
    × Established libs store agones domain_server p w'.cluster
    × (IsOk r → p ≡ marking)
reconcile-Steps_example =
    reconcile-Steps libs libs-IsLawful store agones is_live true retry_on_conflict retry-Attempted
      domain_server domain_server-IsMap fresh domain_server-IsEligible

new_ingress_iff_example :
    IsOk (new_ingress libs (some domain_server) (ingress_options libs domain_server))
    ↔ IsIngressReady libs domain_server
new_ingress_iff_example = new_ingress_iff libs domain_server domain_server-IsMap

new_service_iff_example :
    IsOk (new_service libs domain_server (service_options libs)) ↔ IsServiceReady libs domain_server
new_service_iff_example = new_service_iff libs domain_server domain_server-IsMap

mark_ready-must_reconcile_mark_example :
    (must_reconcile_mark libs (marked gateway_server (entries gateway_server.annotations))
      ≡ ok false)
    × ((k : String)
        → ("octops.io/ingress-ready" == k) ≡ false
        → has_annotation (marked gateway_server (entries gateway_server.annotations)) k
          ≡ has_annotation gateway_server k)
unfolding mark_ready insert
mark_ready-must_reconcile_mark_example =
    mark_ready-must_reconcile_mark libs gateway_server fresh {w' = fresh} refl

new_http_route_iff_example :
    IsOk (new_http_route libs (some gateway_server) (http_route_options libs gateway_server))
    ↔ IsRouteReady libs gateway_server
new_http_route_iff_example = new_http_route_iff libs gateway_server gateway_server-IsMap

pub domain_server-IsIngressReady : IsIngressReady libs domain_server
domain_server-IsIngressReady =
    (new_ingress_iff libs domain_server domain_server-IsMap).0 (IsOk-of_eq domain_ingress_made)

pub domain_server-IsReadyFor : IsReadyFor libs store true domain_server
unfolding has_annotation lookup get_router_backend get_ingress_routing_mode get_ingress_class_name
domain_server-IsReadyFor = record {
  service =
      (new_service_iff libs domain_server domain_server-IsMap).0 (IsOk-of_eq domain_service_made);
  route = inl (refl, domain_server-IsIngressReady);
  flag = λ v e full. absurd cc;
}

reconcile_serves_example :
    (w' : World Cluster) × (reconcile libs retry_on_conflict handler (some domain_server) fresh
      ≡ (ok tt, w'))
    × HasService store domain_server w'.cluster
    × HasRoute store domain_server w'.cluster
reconcile_serves_example =
    reconcile_serves libs libs-IsLawful IsListed store game_servers true retry_on_conflict
      retry-Attempted domain_server is_up settled domain_server-IsMap domain_server-IsReadyFor
      is_live domain_server-IsEligible fresh (refl, tt)

reconcile-route_notes_example :
    let (r, w') =
      GatewayReconciler.reconcile libs (http_route_store_of libs store) gateway_server fresh in
    ReconcileEvents libs http_route_kind gateway_server
      (route_notes gateway_server)
      fresh.events
      ((http_route_store_of libs store).get_http_route gateway_server.name gateway_server.namespace
        fresh).0
      r
      w'.events
unfolding get_http_route create_http_route
reconcile-route_notes_example =
    reconcile-route_notes libs (http_route_store_of libs store) gateway_server (λ w. refl)
      (λ a w. refl) fresh
