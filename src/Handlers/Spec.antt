-- ===== src/Handlers/Spec.antt =====
-- pkg/handlers/gameserver_handler.go: what `Reconcile` may do at most, as a machine of three phases.
pub mod Phases
pub mod Refines
pub mod Safe
use text.Mathlib.Text.{◌==◌}
use gameserver_ingress_contr.Base.{String, ◌≡◌, true, false, Option, some, List, [], ◌∷◌, ◌++◌}
use gameserver_ingress_contr.Base.Dict.{Dict}
use gameserver_ingress_contr.Base.Result.{ok}
use gameserver_ingress_contr.Gameserver.{GameServer, get_router_backend, router_backend_gateway}
use gameserver_ingress_contr.Handlers.Lands.{HasService, HasRoute}
use gameserver_ingress_contr.Objects.{Service, Ingress, HttpRoute}
use gameserver_ingress_contr.Platform.{Libs}
use gameserver_ingress_contr.Reconcilers.Gateway.Built as BuiltRoute
use gameserver_ingress_contr.Reconcilers.GameServer.Marked.{marked}
use gameserver_ingress_contr.Reconcilers.Ingress.Built as BuiltIngress
use gameserver_ingress_contr.Reconcilers.Service.Built as BuiltService
use gameserver_ingress_contr.Stores.{Store}
use gameserver_ingress_contr.World.{World, Event, Client, GameServerClient}

-- Making the Service, then the route, then setting the mark.
pub data Phase : Type 0 where
  serving routing marking : Phase

module _ {E S : Type 0} (libs : Libs E) (store : Store E S) (agones : Option (GameServerClient E S))
    (gs : GameServer) where
  -- One step. An object that is made is the one that the game server asks for; the phase changes
  -- only when what it is for is there; and the mark is set on the game server as the cache has it.
  pub data Step : Phase → World S → Phase → World S → Type 0 where
    note :
        {p : Phase} {w : World S} (e : Event)
        → Step p w p (record w { events = w.events ++ e ∷ [] })
    make_service :
        {w : World S} (service : Service)
        → BuiltService.IsBuilt libs gs service
        → Step serving w serving
            (record w { cluster = (store.service_store.create gs.namespace service w.cluster).1 })
    service_there : {w : World S} → HasService store gs w.cluster → Step serving w routing w
    make_ingress :
        {w : World S} (ingress : Ingress)
        → (get_router_backend gs == router_backend_gateway) ≡ false
        → BuiltIngress.IsBuilt libs gs ingress
        → Step routing w routing
            (record w { cluster = (store.ingress_store.create gs.namespace ingress w.cluster).1 })
    make_http_route :
        {w : World S} (client : Client E S HttpRoute) (route : HttpRoute)
        → (get_router_backend gs == router_backend_gateway) ≡ true
        → store.gateway_store ≡ some client
        → BuiltRoute.IsBuilt libs gs route
        → Step routing w routing
            (record w { cluster = (client.create gs.namespace route w.cluster).1 })
    route_there : {w : World S} → HasRoute store gs w.cluster → Step routing w marking w
    mark :
        {w : World S} (client : GameServerClient E S) (cached : GameServer) (d : Dict String)
        → agones ≡ some client
        → client.get gs.namespace gs.name w.cluster ≡ ok cached
        → cached.annotations ≡ some d
        → Step marking w marking
            (record w { cluster = (client.update cached.namespace (marked cached d) w.cluster).1 })

  pub data Steps : Phase → World S → Phase → World S → Type 0 where
    none_left : {p : Phase} {w : World S} → Steps p w p w
    then_step : {p q r : Phase} {u v w : World S} → Steps p u q v → Step q v r w → Steps p u r w
