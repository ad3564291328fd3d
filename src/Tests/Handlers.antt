-- ===== src/Tests/Handlers.antt =====
-- The theorems on the handler and the queue, at the test cluster.
use gameserver_ingress_contr.Base.{◌≡◌, refl, true, some, [], ◌∷◌, ◌⊎◌, inr}
use gameserver_ingress_contr.Base.Action.{◌>>=◌}
use gameserver_ingress_contr.Base.Dict.{lookup, insert, erase}
use gameserver_ingress_contr.Base.Result.{Result, ok, panic, range}
use gameserver_ingress_contr.Base.Text.{
  split, trim_space, parse_bool, contains, strip_prefix, replace_all,
}
use gameserver_ingress_contr.Controller.{Request, created, forget, done, handle}
use gameserver_ingress_contr.Gameserver.{
  GameServer, gs_object, has_annotation, is_shutdown, must_reconcile, get_router_backend,
  get_ingress_class_name, get_tls_cert_issuer, get_ingress_routing_mode, get_game_server_port,
  get_game_server_container_port,
}
use gameserver_ingress_contr.Handlers.{
  Handler, new_handler, reconcile, reconcile_all, reconcile_route, game_server_store_of,
  ingress_store_of,
}
use gameserver_ingress_contr.Handlers.Again.{reconcile_again}
use gameserver_ingress_contr.Handlers.Gate.{IsEligible, reconcile-IsEligible, reconcile_done}
use gameserver_ingress_contr.Handlers.Lands.{HasService, HasRoute}
use gameserver_ingress_contr.Handlers.Order.{AllDone, reconcile-AllDone}
use gameserver_ingress_contr.Handlers.Pass.{reconcile_lands}
use gameserver_ingress_contr.Handlers.Queue.{effect, handle_settles}
use gameserver_ingress_contr.Options.Custom.{range_custom, custom_step, template_value}
use gameserver_ingress_contr.Options.Ingress.{
  bare_ingress, new_ingress, ingress_rules, terminated_tls, terminate_tls, required_annotation,
  annotated_secret, tls_for_domain, tls_for_path, with_custom_annotations,
  with_custom_annotations_template, with_ingress_rule, with_tls, with_tls_cert_issuer,
  with_ingress_class_name,
}
use gameserver_ingress_contr.Options.Service.{
  bare_service, new_service, with_custom_service_annotations,
  with_custom_service_annotations_template,
}
use gameserver_ingress_contr.Reconcilers.GameServer as GameServerReconciler
use gameserver_ingress_contr.Reconcilers.GameServer.{
  must_reconcile_mark, update_ready, mark_ready, reconcile_mark, wrapping,
}
use gameserver_ingress_contr.Reconcilers.GameServer.Marked.{IsMarked, reconcile-IsMarked}
use gameserver_ingress_contr.Reconcilers.Ingress as IngressReconciler
use gameserver_ingress_contr.Reconcilers.Ingress.{ingress_options}
use gameserver_ingress_contr.Reconcilers.Ingress.Events.{reconcile-ReconcileEvents}
use gameserver_ingress_contr.Reconcilers.Push.{push, pushed, found_or}
use gameserver_ingress_contr.Reconcilers.Push.Events.{ReconcileEvents}
use gameserver_ingress_contr.Recorder.{ingress_kind, creating_event}
use gameserver_ingress_contr.Reconcilers.Service as ServiceReconciler
use gameserver_ingress_contr.Reconcilers.Service.{service_options}
use gameserver_ingress_contr.Stores.{
  create_service, get_service, create_ingress, get_ingress, update_game_server, get_game_server,
}
use gameserver_ingress_contr.Tests.Live.{store, agones, is_live, retry-Attempted}
use gameserver_ingress_contr.Tests.Options.{domain_server-IsMap}
use gameserver_ingress_contr.Tests.Platform.{
  TestError, Cluster, libs, libs-IsLawful, domain_server, retry_on_conflict,
}
use gameserver_ingress_contr.World.{World}

-- A cluster with a game server that nothing has been made for, in which one update conflicts.
abbrev pub fresh : World Cluster
fresh = record {
  cluster = record {
    services = [];
    ingresses = [];
    http_routes = [];
    game_servers = domain_server ∷ [];
    conflicts = 1;
  };
  events = [];
}

abbrev pub handler : Handler TestError Cluster
handler = new_handler libs store agones true

pub domain_server-IsEligible : IsEligible domain_server
unfolding has_annotation lookup
domain_server-IsEligible = (tt, ("domain", refl))

-- The world after the first pass.
abbrev pub after : World Cluster
after = (reconcile libs retry_on_conflict handler (some domain_server) fresh).1

pub first_pass :
    reconcile libs retry_on_conflict handler (some domain_server) fresh ≡ (ok tt, after)
unfolding new_handler reconcile reconcile_all reconcile_route ServiceReconciler.reconcile
    ServiceReconciler.reconcile_not_found IngressReconciler.reconcile
    IngressReconciler.reconcile_not_found GameServerReconciler.reconcile must_reconcile_mark
    update_ready mark_ready reconcile_mark wrapping push pushed found_or create_service get_service
    create_ingress get_ingress update_game_server get_game_server ◌>>=◌ is_shutdown must_reconcile
    get_router_backend new_service service_options with_custom_service_annotations
    with_custom_service_annotations_template get_game_server_container_port new_ingress
    ingress_options with_custom_annotations with_custom_annotations_template with_ingress_rule
    with_tls with_tls_cert_issuer with_ingress_class_name range_custom custom_step template_value
    range strip_prefix contains insert erase lookup has_annotation ingress_rules terminated_tls
    terminate_tls required_annotation annotated_secret tls_for_domain tls_for_path split trim_space
    replace_all parse_bool get_ingress_class_name get_tls_cert_issuer get_ingress_routing_mode
    get_game_server_port
first_pass = refl

reconcile-IsEligible_example :
    (IsEligible domain_server
      × (reconcile libs retry_on_conflict handler (some domain_server) fresh
          ≡ reconcile_all libs retry_on_conflict handler domain_server fresh))
    ⊎ (¬ IsEligible domain_server
        × (reconcile libs retry_on_conflict handler (some domain_server) fresh ≡ (ok tt, fresh)))
reconcile-IsEligible_example =
    reconcile-IsEligible libs retry_on_conflict handler domain_server fresh

reconcile_lands_example :
    HasService store domain_server after.cluster × HasRoute store domain_server after.cluster
reconcile_lands_example =
    reconcile_lands libs libs-IsLawful store agones is_live true retry_on_conflict retry-Attempted
      domain_server domain_server-IsMap domain_server-IsEligible fresh first_pass

-- The game server of the next event.
abbrev marked_server : GameServer
marked_server = record domain_server {
  annotations = some (
      ("octops.io/ingress-ready", "true")
      ∷ ("octops.io/gameserver-ingress-mode", "domain")
      ∷ ("octops.io/gameserver-ingress-domain", "example.com,example.gg")
      ∷ []);
}

reconcile_again_example :
    reconcile libs retry_on_conflict handler (some marked_server) after ≡ (ok tt, after)
unfolding get_router_backend has_annotation lookup
reconcile_again_example =
    reconcile_again libs libs-IsLawful store agones is_live retry_on_conflict retry-Attempted
      domain_server marked_server domain_server-IsMap domain_server-IsEligible fresh first_pass
      (record { same_name = refl; same_namespace = refl; same_backend = refl }) refl

-- A cluster in which everything is made, and the mark is missing on the server's own object.
abbrev served : World Cluster
served = record {
  cluster = record {
    services = bare_service libs domain_server ∷ [];
    ingresses = bare_ingress libs domain_server ∷ [];
    http_routes = [];
    game_servers = domain_server ∷ [];
    conflicts = 0;
  };
  events = [];
}

reconcile_done_example :
    reconcile libs retry_on_conflict handler (some marked_server) served ≡ (ok tt, served)
unfolding new_handler get_service get_ingress get_router_backend has_annotation lookup
    must_reconcile_mark parse_bool
reconcile_done_example =
    reconcile_done libs retry_on_conflict handler marked_server served
      {service = bare_service libs domain_server} refl
      (inr (refl, (bare_ingress libs domain_server, refl))) refl

abbrev pub request : Request
request = record { namespace = "default"; name = "simple-gameserver" }

handle_settles_example :
    (handle libs retry_on_conflict handler (created request (gs_object (some domain_server))) fresh
      ≡ (
        ok (forget request ∷ done request ∷ []),
        effect libs retry_on_conflict handler
            (created request (gs_object (some domain_server)))
            fresh,
      ))
    ⊎ ((handle libs retry_on_conflict handler
          (created request (gs_object (some domain_server)))
          fresh).0
        ≡ panic)
handle_settles_example =
    handle_settles libs retry_on_conflict handler (created request (gs_object (some domain_server)))
      fresh

abbrev mark_pass : Result TestError GameServer × World Cluster
mark_pass =
    GameServerReconciler.reconcile libs (game_server_store_of libs agones) retry_on_conflict
      domain_server fresh

abbrev with_mark : GameServer
with_mark = record domain_server {
  annotations = some (
      ("octops.io/gameserver-ingress-mode", "domain")
      ∷ ("octops.io/gameserver-ingress-domain", "example.com,example.gg")
      ∷ ("octops.io/terminate-tls", "true")
      ∷ ("octops.io/issuer-tls-name", "letsencrypt-prod")
      ∷ ("octops-kubernetes.io/ingress.class", "contour")
      ∷ ("octops-projectcontour.io/websocket-routes", "/{{ .Name }}")
      ∷ ("octops.service-owner", "games")
      ∷ ("octops.io/ingress-ready", "true")
      ∷ []);
}

reconcile-IsMarked_example :
    IsMarked libs (game_server_store_of libs agones) domain_server with_mark
unfolding GameServerReconciler.reconcile must_reconcile_mark update_ready mark_ready reconcile_mark
    wrapping update_game_server get_game_server ◌>>=◌ has_annotation lookup insert
reconcile-IsMarked_example =
    reconcile-IsMarked libs (game_server_store_of libs agones) retry_on_conflict retry-Attempted
      domain_server fresh {w' = mark_pass.1} refl refl

reconcile-AllDone_example : AllDone libs retry_on_conflict handler domain_server fresh after
reconcile-AllDone_example =
    reconcile-AllDone libs retry_on_conflict handler domain_server fresh domain_server-IsEligible
      first_pass

reconcile-ReconcileEvents_example :
    let (r, w') =
      IngressReconciler.reconcile libs (ingress_store_of libs store) domain_server fresh in
    ReconcileEvents libs ingress_kind domain_server
      (creating_event domain_server ingress_kind ∷ [])
      fresh.events
      ((ingress_store_of libs store).get_ingress domain_server.name domain_server.namespace fresh).0
      r
      w'.events
unfolding get_ingress create_ingress
reconcile-ReconcileEvents_example =
    reconcile-ReconcileEvents libs (ingress_store_of libs store) domain_server (λ w. refl)
      (λ a w. refl) fresh
