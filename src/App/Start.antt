-- ===== src/App/Start.antt =====
-- pkg/app/controller.go and the constructors of pkg/stores: how the controller is put together.
use gameserver_ingress_contr.Base.{Bool, true, false, Option, none, some}
use gameserver_ingress_contr.Base.Action.{Action, ◌>>=◌, attempt, pure, lift}
use gameserver_ingress_contr.Base.Result.{Result, ok, err, panic}
use gameserver_ingress_contr.App.Connect.{Config, Startup, connect}
use gameserver_ingress_contr.Controller.{new_game_server_controller}
use gameserver_ingress_contr.Handlers.{Handler, new_handler}
use gameserver_ingress_contr.K8sutil.{RestConfig}
use gameserver_ingress_contr.Objects.{HttpRoute}
use gameserver_ingress_contr.Platform.{Libs}
use gameserver_ingress_contr.Reconcilers.GameServer.{wrapping}
use gameserver_ingress_contr.Stores.{Store}
use gameserver_ingress_contr.Stores.Sync.{has_synced, agones_has_synced}
use gameserver_ingress_contr.World.{Client, GameServerClient}

-- The result of a call whose error is not looked at: a nil pointer on an error.
abbrev pub unchecked : {E A : Type 0} → Result E A → Option A
unchecked (ok a) = some a
unchecked (err _) = none
unchecked panic = none

module _ {E S W C D K M : Type 0} (libs : Libs E) (startup : Startup E S W C D K M) where
  -- `if gatewayEnabled { … }` of `stores.NewStore`
  unfoldable pub gateway_store_of : RestConfig C → Bool → Action E W (Option (Client E S HttpRoute))
  gateway_store_of config false = pure none
  gateway_store_of config true =
      wrapping libs "failed to create gateway-api client" (lift (startup.http_routes config))
      >>= λ routes. pure (some routes)

  -- `stores.NewStore`
  unfoldable pub new_store : K → RestConfig C → Bool → Action E W (Store E S)
  unfolding gateway_store_of
  new_store client config gateway_enabled = do
    routes ← gateway_store_of config gateway_enabled
    synced ←
        wrapping libs "store failed to sync K8S cache"
          (has_synced libs startup.waits gateway_enabled)
    pure (record {
      service_store = startup.services client;
      ingress_store = startup.ingresses client;
      gateway_store = routes;
    })

  -- `stores.NewAgonesStore`
  unfoldable pub new_agones_store : RestConfig C → D → Action E W (GameServerClient E S)
  new_agones_store config resync_period = do
    agones ←
        wrapping libs "could not create the agones api clientset"
          (lift (startup.agones_client config resync_period))
    synced ← wrapping libs "Agones failed to sync cache" (agones_has_synced libs startup.waits)
    pure agones

  -- `StartController` up to the start of the controller: the handler that then gets the events. The
  -- error of `NewAgonesStore` is overwritten before it is looked at.
  unfoldable pub start_controller : Config → Action E W (Handler E S)
  unfolding new_store new_agones_store
  start_controller config = do
    c ← lift (connect libs startup config)
    store ←
        wrapping libs "failed to create store"
          (new_store c.client c.cluster_config c.gateway_enabled)
    agones ← attempt (new_agones_store c.cluster_config c.duration)
    ctrl ←
        wrapping libs "failed to create controller"
          (lift (new_game_server_controller startup.controller c.mgr))
    pure (new_handler libs store (unchecked agones) c.gateway_enabled)
