-- ===== src/Handlers/Again.antt =====
-- What the handler does on the next event of a game server that it has finished with.
use gameserver_ingress_contr.Base.{◌≡◌, refl, Option, some, is_some, inl, inr}
use gameserver_ingress_contr.Base.Result.{ok, eq_of_IsOk}
use gameserver_ingress_contr.Gameserver.{
  GameServer, has_annotation, get_router_backend, octops_annotation_game_server_ingress_ready,
}
use gameserver_ingress_contr.Handlers.{new_handler, http_route_store_of, reconcile}
use gameserver_ingress_contr.Handlers.Gate.{IsEligible, IsRouted, reconcile_done}
use gameserver_ingress_contr.Handlers.Lands.{HasService, HasIngress, HasHttpRoute, HasRoute}
use gameserver_ingress_contr.Handlers.Pass.{reconcile_lands}
use gameserver_ingress_contr.Objects.{Service, Ingress, HttpRoute}
use gameserver_ingress_contr.Options.Custom.Twice.{IsMap}
use gameserver_ingress_contr.Platform.{Libs, IsLawful}
use gameserver_ingress_contr.Reconcilers.GameServer.{must_reconcile_mark-marked}
use gameserver_ingress_contr.Stores.{Store, get_service, get_ingress, get_http_route}
use gameserver_ingress_contr.Stores.Live.{IsLive}
use gameserver_ingress_contr.World.{World, Call, Client, GameServerClient, Attempted}

module _ {E S : Type 0} (libs : Libs E) (store : Store E S) (gs : GameServer) (w : World S) where
  get_service-HasService :
      HasService store gs w.cluster
      → (service : Service) × (get_service libs store gs.name gs.namespace w ≡ (ok service, w))
  unfolding get_service
  get_service-HasService there =
      let (service, e) =
        eq_of_IsOk (store.service_store.get gs.namespace gs.name w.cluster) there in
      (service, rw e refl)

  get_ingress-HasIngress :
      HasIngress store gs w.cluster
      → (ingress : Ingress) × (get_ingress libs store gs.name gs.namespace w ≡ (ok ingress, w))
  unfolding get_ingress
  get_ingress-HasIngress there =
      let (ingress, e) =
        eq_of_IsOk (store.ingress_store.get gs.namespace gs.name w.cluster) there in
      (ingress, rw e refl)

  get_http_route-HasHttpRoute :
      (client : Client E S HttpRoute)
      → store.gateway_store ≡ some client
      → HasHttpRoute store gs client w.cluster
      → (route : HttpRoute) × (get_http_route libs store gs.name gs.namespace w ≡ (ok route, w))
  unfolding get_http_route
  get_http_route-HasHttpRoute client given there =
      let (route, e) = eq_of_IsOk (client.get gs.namespace gs.name w.cluster) there in
      (route, rw (given, e) refl)

  -- The handler finds the route that is there.
  IsRouted-HasRoute :
      (agones : Option (GameServerClient E S))
      → HasRoute store gs w.cluster
      → IsRouted (new_handler libs store agones (is_some store.gateway_store)) gs w
  unfolding new_handler
  IsRouted-HasRoute agones (inl (gateway, (client, given, there))) = inl (
    gateway,
    (http_route_store_of libs store, rw given refl, get_http_route-HasHttpRoute client given there),
  )
  IsRouted-HasRoute agones (inr (other, there)) = inr (other, get_ingress-HasIngress there)

-- The game server has the same name, namespace and backend as before.
pub record IsSame (gs gs' : GameServer) : Type 0 where
  pub same_name : gs.name ≡ gs'.name
  pub same_namespace : gs.namespace ≡ gs'.namespace
  pub same_backend : get_router_backend gs ≡ get_router_backend gs'

HasRoute-IsSame :
    {E S : Type 0} (store : Store E S) {gs gs' : GameServer} (s : S)
    → IsSame gs gs'
    → HasService store gs s × HasRoute store gs s
    → HasService store gs' s × HasRoute store gs' s
unfolding get_router_backend
HasRoute-IsSame store s same both =
    rw (same.same_name, same.same_namespace, same.same_backend) at both

module _ {E S : Type 0} (libs : Libs E) (law : IsLawful libs) (store : Store E S)
    (agones : Option (GameServerClient E S)) (live : IsLive store agones libs)
    (retry_on_conflict : Call E S GameServer → Call E S GameServer)
    (attempted : (f : Call E S GameServer) (w : World S)
      → Attempted libs f w (retry_on_conflict f w)) where
  -- Over an API server whose caches are in step with it, and in which nobody else deletes, with
  -- wrapped errors that keep their reason, a retry that tries again on conflicts only, and the
  -- gateway backend enabled just where its store is there: when the handler has reported success
  -- for an eligible game server whose annotations are a map, its next event for that game server,
  -- which keeps its name, namespace and backend and now carries the mark `octops.io/ingress-ready`,
  -- succeeds too, and changes and records nothing.
  pub reconcile_again :
      (gs gs' : GameServer)
      → IsMap gs
      → IsEligible gs
      → (w : World S) {w' : World S}
      → reconcile libs retry_on_conflict
          (new_handler libs store agones (is_some store.gateway_store))
          (some gs)
          w
        ≡ (ok tt, w')
      → IsSame gs gs'
      → has_annotation gs' octops_annotation_game_server_ingress_ready ≡ some "true"
      → reconcile libs retry_on_conflict
          (new_handler libs store agones (is_some store.gateway_store))
          (some gs')
          w'
        ≡ (ok tt, w')
  unfolding new_handler
  reconcile_again gs gs' u eligible w {w'} done same marked =
      let landed =
        reconcile_lands libs law store agones live (is_some store.gateway_store) retry_on_conflict
          attempted gs u eligible w done in
      let (has_service, has_route) = HasRoute-IsSame store w'.cluster same landed in
      let (service, found) = get_service-HasService libs store gs' w' has_service in
      reconcile_done libs retry_on_conflict
        (new_handler libs store agones (is_some store.gateway_store)) gs' w' found
        (IsRouted-HasRoute libs store gs' w' agones has_route)
        (must_reconcile_mark-marked libs gs' marked)
