-- ===== src/Handlers/Stays.antt =====
-- What the steps of the handler leave as it was: all that the clients' calls keep.
use gameserver_ingress_contr.Base.{Bool, Option}
use gameserver_ingress_contr.Controller.{Event, handle}
use gameserver_ingress_contr.Gameserver.{GameServer}
use gameserver_ingress_contr.Handlers.{
  Handler, new_handler, service_store_of, game_server_store_of, reconcile_route, reconcile_all,
}
use gameserver_ingress_contr.Handlers.Trail.{
  Along-reconcile_service, Along-reconcile_ingress, Along-reconcile_http_route,
  Along-reconcile_route, Along-reconcile_mark,
}
use gameserver_ingress_contr.Reconcilers.GameServer.Marked.{marked}
use gameserver_ingress_contr.Handlers.Trail.Updates.{Along-update_ready}
use gameserver_ingress_contr.Handlers.Trail.Whole.{Along-reconcile_all, Along-handle}
use gameserver_ingress_contr.Platform.{Libs}
use gameserver_ingress_contr.Reconcilers.GameServer as GameServerReconciler
use gameserver_ingress_contr.Reconcilers.GameServer.{update_ready, mark_ready}
use gameserver_ingress_contr.Reconcilers.Service as ServiceReconciler
use gameserver_ingress_contr.Stores.{Store}
use gameserver_ingress_contr.Stores.Live.{
  IsLasting, Keeps-create_service, Keeps-create_ingress, Keeps-create_http_route,
}
use gameserver_ingress_contr.World.{World, Call, Attempted, GameServerClient}
use gameserver_ingress_contr.World.Along.{Keeping, kept}
use gameserver_ingress_contr.World.Keeps.{Keeps}

module _ {E S : Type 0} (libs : Libs E) (store : Store E S) (agones : Option (GameServerClient E S))
    (gateway_enabled : Bool) (retry_on_conflict : Call E S GameServer → Call E S GameServer)
    (attempted : (f : Call E S GameServer) (w : World S)
      → Attempted libs f w (retry_on_conflict f w)) where
  abbrev pub h : Handler E S
  h = new_handler libs store agones gateway_enabled

  module _ (P : S → Type 0) (last : IsLasting store agones P) where
    module _ (gs : GameServer) where
      pub Keeps-reconcile_service :
          Keeps P (ServiceReconciler.reconcile libs (service_store_of libs store) gs)
      Keeps-reconcile_service =
          Along-reconcile_service libs store (Keeping P) (kept P) gs
            λ a _. Keeps-create_service libs store agones P last a

      pub Keeps-reconcile_route : Keeps P (reconcile_route libs retry_on_conflict h gs)
      Keeps-reconcile_route =
          Along-reconcile_route libs store (Keeping P) (kept P) gs retry_on_conflict agones
            gateway_enabled
            (λ _.
              Along-reconcile_ingress libs store (Keeping P) (kept P) gs
                λ a _. Keeps-create_ingress libs store agones P last a)
            λ _.
              Along-reconcile_http_route libs store (Keeping P) (kept P) gs
                λ a _. Keeps-create_http_route libs store agones P last a

      pub Keeps-reconcile_mark : Keeps P (
          GameServerReconciler.reconcile libs
            (game_server_store_of libs agones)
            retry_on_conflict
            gs)
      Keeps-reconcile_mark =
          Along-reconcile_mark libs agones (Keeping P) (kept P) gs retry_on_conflict attempted (
            Along-update_ready libs agones gs (Keeping P) (kept P) λ client cached d w e _ _.
              last.updates_keep client e cached.namespace (marked cached d) w.cluster)

      Keeps-reconcile_all : Keeps P (reconcile_all libs retry_on_conflict h gs)
      unfolding new_handler
      Keeps-reconcile_all =
          Along-reconcile_all libs retry_on_conflict h (Keeping P) (kept P) gs
            Keeps-reconcile_service Keeps-reconcile_route Keeps-reconcile_mark

    -- No event ends what the clients' calls keep.
    pub Keeps-handle : (event : Event) → Keeps P (handle libs retry_on_conflict h event)
    Keeps-handle = Along-handle libs retry_on_conflict h (Keeping P) (kept P) Keeps-reconcile_all
