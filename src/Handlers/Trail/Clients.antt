-- ===== src/Handlers/Trail/Clients.antt =====
-- Where a pass leads, from where the calls of the clients lead.
use gameserver_ingress_contr.Base.{String, ◌≡◌, Bool, Option, some}
use gameserver_ingress_contr.Base.Dict.{Dict}
use gameserver_ingress_contr.Gameserver.{GameServer}
use gameserver_ingress_contr.Handlers.{new_handler, reconcile_all}
use gameserver_ingress_contr.Handlers.Trail.{
  Along-reconcile_service, Along-reconcile_ingress, Along-reconcile_http_route,
  Along-reconcile_route, Along-reconcile_mark,
}
use gameserver_ingress_contr.Handlers.Trail.Updates.{Along-update_ready}
use gameserver_ingress_contr.Handlers.Trail.Whole.{Along-reconcile_all}
use gameserver_ingress_contr.Objects.{Service, Ingress, HttpRoute}
use gameserver_ingress_contr.Platform.{Libs}
use gameserver_ingress_contr.Reconcilers.GameServer.Marked.{marked}
use gameserver_ingress_contr.Stores.{Store, create_service, create_ingress, create_http_route}
use gameserver_ingress_contr.World.{World, Call, GameServerClient, Attempted}
use gameserver_ingress_contr.World.Along.{Along, IsTrail}

module _ {E S : Type 0} (libs : Libs E) (store : Store E S) (agones : Option (GameServerClient E S))
    (gateway_enabled : Bool) (retry_on_conflict : Call E S GameServer → Call E S GameServer)
    (attempted : (f : Call E S GameServer) (w : World S)
      → Attempted libs f w (retry_on_conflict f w))
    (R : World S → World S → Type 0) (trail : IsTrail R) where
  pub Along-pass :
      ((a : Service) → Along R (create_service libs store a))
      → ((a : Ingress) → Along R (create_ingress libs store a))
      → ((a : HttpRoute) → Along R (create_http_route libs store a))
      → ((client : GameServerClient E S) (cached : GameServer) (d : Dict String) (w : World S)
          → agones ≡ some client
          → R w (record w {
            cluster = (client.update cached.namespace (marked cached d) w.cluster).1;
          }))
      → (gs : GameServer)
      → Along R
          (reconcile_all libs retry_on_conflict (new_handler libs store agones gateway_enabled) gs)
  unfolding new_handler
  Along-pass services ingresses routes updates gs =
      Along-reconcile_all libs retry_on_conflict (new_handler libs store agones gateway_enabled) R
        trail gs (Along-reconcile_service libs store R trail gs λ a _. services a)
        (Along-reconcile_route libs store R trail gs retry_on_conflict agones gateway_enabled
          (λ _. Along-reconcile_ingress libs store R trail gs λ a _. ingresses a)
          λ _. Along-reconcile_http_route libs store R trail gs λ a _. routes a)
        (Along-reconcile_mark libs agones R trail gs retry_on_conflict attempted (
          Along-update_ready libs agones gs R trail
            λ client cached d w given _ _. updates client cached d w given))
