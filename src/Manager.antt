-- ===== src/Manager.antt =====
-- pkg/manager/manager.go: the controller-runtime manager.
pub mod Laws
use gameserver_ingress_contr.Base.{ℕ, String, Option}
use gameserver_ingress_contr.Base.Result.{Result, ok, err, panic, ◌>>=◌}
use gameserver_ingress_contr.K8sutil.{RestConfig, Cluster, new_cluster_config}
use gameserver_ingress_contr.Platform.{Libs}
use gameserver_ingress_contr.Stores.{wrapped}

-- `Options`. `sync_period` is a pointer to a duration, of a type that only its parser knows.
pub record Options (D : Type 0) : Type 0 where
  pub sync_period : Option D
  pub port : ℕ
  pub health_probe_bind_address : String
  pub metrics_bind_address : String
  pub max_concurrent_reconciles : ℕ

-- The fields of the library's own `manager.Options` that are set, with the timeout in seconds.
pub record ManagerOptions (D : Type 0) : Type 0 where
  pub cache_sync_period : Option D
  pub webhook_port : ℕ
  pub metrics_bind_address : String
  pub health_probe_bind_address : String
  pub max_concurrent_reconciles : ℕ
  pub cache_sync_timeout : ℕ

-- `manager.New`, and the two checks that are added to what it returns.
pub record Managers (E C D M : Type 0) : Type 0 where
  pub new : RestConfig C → ManagerOptions D → Result E M
  pub add_healthz_check : String → M → Result E M
  pub add_readyz_check : String → M → Result E M

abbrev pub manager_options : {D : Type 0} → Options D → ManagerOptions D
manager_options options = record {
  cache_sync_period = options.sync_period;
  webhook_port = options.port;
  metrics_bind_address = options.metrics_bind_address;
  health_probe_bind_address = options.health_probe_bind_address;
  max_concurrent_reconciles = options.max_concurrent_reconciles;
  cache_sync_timeout = 30;
}

module _ {E C D K M : Type 0} (libs : Libs E) (cluster : Cluster E C K)
    (managers : Managers E C D M) where
  -- `if err != nil { return nil, withError(err) }`
  abbrev pub with_error : {A : Type 0} → Result E A → Result E A
  with_error = wrapped libs "failed to create manager"

  unfoldable pub new_manager : String → Options D → Result E M
  new_manager kubeconfig options = do
    config ← with_error (
        wrapped libs "failed to create cluster config" (new_cluster_config libs cluster kubeconfig))
    mgr ← with_error (managers.new config (manager_options options))
    healthy ← with_error (managers.add_healthz_check "/" mgr)
    with_error (managers.add_readyz_check "/" healthy)
