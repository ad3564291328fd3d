-- ===== src/App/Connect.antt =====
-- pkg/app/controller.go: the first part of `StartController`, which only reads the configuration and
-- makes the clients. `withFatal` logs and ends the process, so an error here is the end of the
-- process with that error.
use gameserver_ingress_contr.Base.{ℕ, String, ◌<>◌, Bool, some, List}
use gameserver_ingress_contr.Base.Result.{Result, ok, ◌>>=◌}
use gameserver_ingress_contr.App.{resolve_gateway_api_enabled}
use gameserver_ingress_contr.K8sutil.{RestConfig, Cluster, new_cluster_config, new_client_set}
use gameserver_ingress_contr.Manager as ManagerPackage
use gameserver_ingress_contr.Manager.{Managers, new_manager}
use gameserver_ingress_contr.Objects.{Service, Ingress, HttpRoute}
use gameserver_ingress_contr.Platform.{Libs}
use gameserver_ingress_contr.Stores.{wrapped}
use gameserver_ingress_contr.Stores.Sync.{Waits}
use gameserver_ingress_contr.World.{Client, GameServerClient}

-- `Config`
pub record Config : Type 0 where
  pub kubeconfig : String
  pub sync_period : String
  pub port : ℕ
  pub verbose : Bool
  pub health_probe_bind_address : String
  pub metrics_bind_address : String
  pub max_concurrent_reconciles : ℕ
  pub enable_gateway_api : String

-- What the packages outside the repository answer while the process starts: `E` are the errors, `S`
-- the cluster behind the clients, `W` the world of the process with its clock and its caches, `C`
-- what a client configuration has besides its limits, `D` a duration, `K` a client set and `M` a
-- manager.
pub record Startup (E S W C D K M : Type 0) : Type 0 where
  -- `time.ParseDuration`
  pub parse_duration : String → Result E D
  pub cluster : Cluster E C K
  pub managers : Managers E C D M
  -- `client.Discovery().ServerResourcesForGroupVersion(…)`, by the names of the resources
  pub resources : K → Result E (List String)
  -- the clients and informers of the two kinds of a client set, and those of the HTTPRoutes and of
  -- the game servers, with the period of their resync
  pub services : K → Client E S Service
  pub ingresses : K → Client E S Ingress
  pub http_routes : RestConfig C → Result E (Client E S HttpRoute)
  pub agones_client : RestConfig C → D → Result E (GameServerClient E S)
  pub waits : Waits W
  -- `ctrl.NewControllerManagedBy(mgr)…Complete(…)`
  pub controller : M → Result E (Unit {0})

-- What the first part leaves for the second.
pub record Connection (C D K M : Type 0) : Type 0 where
  pub duration : D
  pub mgr : M
  pub cluster_config : RestConfig C
  pub client : K
  pub gateway_enabled : Bool

module _ {E S W C D K M : Type 0} (libs : Libs E) (startup : Startup E S W C D K M) where
  -- The `manager.Options` of `StartController`.
  abbrev pub manager_options_of : Config → D → ManagerPackage.Options D
  manager_options_of config duration = record {
    sync_period = some duration;
    port = config.port;
    health_probe_bind_address = config.health_probe_bind_address;
    metrics_bind_address = config.metrics_bind_address;
    max_concurrent_reconciles = config.max_concurrent_reconciles;
  }

  unfoldable pub connect : Config → Result E (Connection C D K M)
  connect config = do
    duration ←
        wrapped libs ("error parsing sync-period flag: " <> config.sync_period)
          (startup.parse_duration config.sync_period)
    mgr ← wrapped libs "failed to create controller manager" (
        new_manager libs startup.cluster startup.managers config.kubeconfig
          (manager_options_of config duration))
    cluster_config ←
        wrapped libs "failed to create cluster config"
          (new_cluster_config libs startup.cluster config.kubeconfig)
    client ←
        wrapped libs "failed to create kubernetes client"
          (new_client_set libs startup.cluster config.kubeconfig)
    gateway_enabled ←
        wrapped libs "failed to resolve --enable-gateway-api"
          (resolve_gateway_api_enabled libs config.enable_gateway_api (startup.resources client))
    ok (record {
      duration = duration;
      mgr = mgr;
      cluster_config = cluster_config;
      client = client;
      gateway_enabled = gateway_enabled;
    })
