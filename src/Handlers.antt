-- ===== src/Handlers.antt =====
-- pkg/handlers/gameserver_handler.go: what the controller does on an event of a game server.
pub mod Again
pub mod Gate
pub mod Lands
pub mod Order
pub mod Pass
pub mod Spec
pub mod Succeeds
pub mod Serves
pub mod Queue
pub mod Trail
pub mod Stays
use text.Mathlib.Text.{◌==◌}
use gameserver_ingress_contr.Base.{◌<>◌, Bool, not, Option, none, some, if◌then◌else◌, is_some}
use gameserver_ingress_contr.Base.Action.{◌>>=◌, pure, raise, crash, attempt}
use gameserver_ingress_contr.Gameserver.{
  GameServer, Object, gs_object, other_object, from_object, has_annotation, is_shutdown,
  must_reconcile, get_router_backend, router_backend_gateway, octops_annotation_ingress_mode,
}
use gameserver_ingress_contr.Platform.{Libs}
use gameserver_ingress_contr.Reconcilers.Service as ServiceReconciler
use gameserver_ingress_contr.Reconcilers.Service.{ServiceStore}
use gameserver_ingress_contr.Reconcilers.Ingress as IngressReconciler
use gameserver_ingress_contr.Reconcilers.Ingress.{IngressStore}
use gameserver_ingress_contr.Reconcilers.Gateway as GatewayReconciler
use gameserver_ingress_contr.Reconcilers.Gateway.{HttpRouteStore}
use gameserver_ingress_contr.Reconcilers.GameServer as GameServerReconciler
use gameserver_ingress_contr.Reconcilers.GameServer.{GameServerStore, wrapping}
use gameserver_ingress_contr.Recorder.{namespaced}
use gameserver_ingress_contr.Stores.{
  Store, create_service, get_service, create_ingress, get_ingress, create_http_route,
  get_http_route, update_game_server, get_game_server,
}
use gameserver_ingress_contr.World.{Call, GameServerClient}

-- `GameSeverEventHandler`: each reconciler is its store, and the gateway reconciler may be nil.
pub record Handler (E S : Type 0) : Type 0 where
  pub service_reconciler : ServiceStore E S
  pub ingress_reconciler : IngressStore E S
  pub gateway_reconciler : Option (HttpRouteStore E S)
  pub gameserver_reconciler : GameServerStore E S

module _ {E S : Type 0} (libs : Libs E) where
  abbrev pub service_store_of : Store E S → ServiceStore E S
  service_store_of store = record {
    create_service = create_service libs store;
    get_service = get_service libs store;
  }

  abbrev pub ingress_store_of : Store E S → IngressStore E S
  ingress_store_of store = record {
    create_ingress = create_ingress libs store;
    get_ingress = get_ingress libs store;
  }

  abbrev pub http_route_store_of : Store E S → HttpRouteStore E S
  http_route_store_of store = record {
    create_http_route = create_http_route libs store;
    get_http_route = get_http_route libs store;
  }

  abbrev pub game_server_store_of : Option (GameServerClient E S) → GameServerStore E S
  game_server_store_of agones = record {
    update_game_server = update_game_server libs agones;
    get_game_server = get_game_server libs agones;
  }

  unfoldable pub new_handler : Store E S → Option (GameServerClient E S) → Bool → Handler E S
  new_handler store agones gateway_enabled = record {
    service_reconciler = service_store_of store;
    ingress_reconciler = ingress_store_of store;
    gateway_reconciler = if gateway_enabled then some (http_route_store_of store) else none;
    gameserver_reconciler = game_server_store_of agones;
  }

module _ {E : Type 0} (libs : Libs E) where
  abbrev pub gateway_disabled : GameServer → E
  gateway_disabled gs = libs.errorf (
      "gameserver "
      <> namespaced gs.namespace gs.name
      <> " requests router-backend=gateway but the Gateway API backend is disabled; restart the controller with --enable-gateway-api=true or install Gateway API CRDs")

module _ {E S : Type 0} (libs : Libs E)
    (retry_on_conflict : Call E S GameServer → Call E S GameServer) (h : Handler E S) where
  -- The `switch` on the router backend: whether a route was made.
  unfoldable pub reconcile_route : GameServer → Call E S Bool
  reconcile_route gs =
      if get_router_backend gs == router_backend_gateway
      then elim h.gateway_reconciler [
        | none ↦ raise (gateway_disabled libs gs)
        | some store ↦
            wrapping libs ("failed to reconcile HTTPRoute " <> namespaced gs.namespace gs.name)
              (GatewayReconciler.reconcile libs store gs)
            >>= λ found. pure found.1
      ]
      else (wrapping libs ("failed to reconcile ingress " <> namespaced gs.namespace gs.name)
            (IngressReconciler.reconcile libs h.ingress_reconciler gs)
          >>= λ found. pure found.1)

  -- `Reconcile` after its guards. The last step only logs.
  unfoldable pub reconcile_all : GameServer → Call E S (Unit {0})
  reconcile_all gs = do
    service ←
        wrapping libs ("failed to reconcile service " <> namespaced gs.namespace gs.name)
          (ServiceReconciler.reconcile libs h.service_reconciler gs)
    route_reconciled ← reconcile_route gs
    result ←
        wrapping libs ("failed to reconcile gameserver " <> namespaced gs.namespace gs.name)
          (GameServerReconciler.reconcile libs h.gameserver_reconciler retry_on_conflict gs)
    pure tt

  -- A nil game server is a panic: `HasAnnotation` reads its annotations.
  unfoldable pub reconcile : Option GameServer → Call E S (Unit {0})
  reconcile none = crash
  reconcile (some gs) =
      if not (is_some (has_annotation gs octops_annotation_ingress_mode))
      then pure tt
      else if is_shutdown (some gs)
      then pure tt
      else if not (must_reconcile (some gs))
      then pure tt
      else reconcile_all gs

  -- The error is logged and dropped.
  unfoldable pub on_add : Object → Call E S (Unit {0})
  on_add obj = attempt (reconcile (from_object obj)) >>= λ _. pure tt

  unfoldable pub on_update : Object → Object → Call E S (Unit {0})
  on_update old_obj new_obj = attempt (reconcile (from_object new_obj)) >>= λ _. pure tt

  -- The type assertion fails on another object, and the log line reads a nil game server.
  unfoldable pub on_delete : Object → Call E S (Unit {0})
  on_delete (gs_object (some gs)) = pure tt
  on_delete (gs_object none) = crash
  on_delete other_object = crash
