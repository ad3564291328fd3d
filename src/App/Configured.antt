-- ===== src/App/Configured.antt =====
-- The configuration that the clients of a started controller are made with.
use gameserver_ingress_contr.Base.{String, ◌≡◌, refl, sym, ap, ◌∙◌, true, false, some}
use gameserver_ingress_contr.Base.Text.{is_empty}
use gameserver_ingress_contr.Base.Result.{ok, ok_inj}
use gameserver_ingress_contr.App.Connect.{Startup, Config, manager_options_of}
use gameserver_ingress_contr.App.Start.{start_controller}
use gameserver_ingress_contr.App.Started.{start_controller-IsStarted}
use gameserver_ingress_contr.Handlers.{Handler}
use gameserver_ingress_contr.K8sutil.{
  RestConfig, config_path, new_cluster_config_inv, new_client_set_inv,
}
use gameserver_ingress_contr.Manager.{manager_options}
use gameserver_ingress_contr.Manager.Laws.{new_manager_inv}
use gameserver_ingress_contr.Platform.{Libs}

module _ {E S W C D K M : Type 0} (libs : Libs E) (startup : Startup E S W C D K M) where
  -- What the command line says is what the clients get.
  pub record IsConfigured (config : Config) : Type 0 where
    pub read : RestConfig C
    pub duration : D
    pub bare_manager : M
    pub healthy : M
    pub mgr : M
    pub client : K
    pub path : String
    pub path_given : is_empty config.kubeconfig ≡ false → path ≡ config.kubeconfig
    pub path_missing :
        is_empty config.kubeconfig ≡ true → path ≡ startup.cluster.getenv "KUBECONFIG"
    pub found : startup.cluster.build_config_from_flags "" path ≡ ok read
    pub parsed : startup.parse_duration config.sync_period ≡ ok duration
    pub managed :
        startup.managers.new
          (record read { qps = 1000; burst = 1000 })
          (record {
            cache_sync_period = some duration;
            webhook_port = config.port;
            metrics_bind_address = config.metrics_bind_address;
            health_probe_bind_address = config.health_probe_bind_address;
            max_concurrent_reconciles = config.max_concurrent_reconciles;
            cache_sync_timeout = 30;
          })
        ≡ ok bare_manager
    pub health_checked : startup.managers.add_healthz_check "/" bare_manager ≡ ok healthy
    pub ready_checked : startup.managers.add_readyz_check "/" healthy ≡ ok mgr
    pub connected :
        startup.cluster.new_for_config (record read { qps = 1000; burst = 1000 }) ≡ ok client

  -- If the controller starts, its manager and its client set have been made with one configuration:
  -- the one that was read from the file that the flag `--kubeconfig` names, or the environment
  -- variable `KUBECONFIG` where the flag is empty, with both limits at 1000; and the manager has the
  -- sync period, the webhook port, the address for metrics, the address for health probes and the
  -- number of concurrent reconciles of the command line, waits 30 seconds for its caches, and has the
  -- health check and the readiness check at "/".
  pub start_controller-IsConfigured :
      (config : Config) {h : Handler E S} (w : W) {w' : W}
      → start_controller libs startup config w ≡ (ok h, w')
      → IsConfigured config
  start_controller-IsConfigured config w e =
      let s = start_controller-IsStarted libs startup config w e in
      let (cfg, bare, healthy, made, managed, health, checked) =
        new_manager_inv libs startup.cluster startup.managers config.kubeconfig
          (manager_options_of libs startup config s.duration) s.is_connected.managed in
      let (cfg', made', connected) =
        new_client_set_inv libs startup.cluster config.kubeconfig s.is_connected.connected in
      let (read, found, limits) =
        new_cluster_config_inv libs startup.cluster config.kubeconfig made in
      let same : cfg' ≡ record read { qps = 1000; burst = 1000 } =
        ok_inj (sym made' ∙ made) ∙ limits in
      record {
        read = read;
        duration = s.duration;
        bare_manager = bare;
        healthy = healthy;
        mgr = s.connection.mgr;
        client = s.client;
        path = config_path libs startup.cluster config.kubeconfig;
        path_given = λ full. rw full refl;
        path_missing = λ empty. rw empty refl;
        found = found;
        parsed = s.is_connected.parsed;
        managed =
            ap
              (λ c.
                startup.managers.new c
                  (manager_options (manager_options_of libs startup config s.duration)))
              (sym limits)
            ∙ managed;
        health_checked = health;
        ready_checked = checked;
        connected = ap startup.cluster.new_for_config (sym same) ∙ connected;
      }
