-- ===== src/K8sutil.antt =====
-- pkg/k8sutil/k8sutil.go: the configuration of the clients.
use gameserver_ingress_contr.Base.{ℕ, String, ◌≡◌, sym, if◌then◌else◌}
use gameserver_ingress_contr.Base.Result.{Result, ok, ◌>>=◌, >>=-eq-ok, ok_inj}
use gameserver_ingress_contr.Base.Text.{is_empty}
use gameserver_ingress_contr.Platform.{Libs}
use gameserver_ingress_contr.Stores.{wrapped, wrapped_inv}

-- `rest.Config`: the two limits that are set here, and what `BuildConfigFromFlags` reads.
pub record RestConfig (C : Type 0) : Type 0 where
  pub settings : C
  pub qps : ℕ
  pub burst : ℕ

-- `os.Getenv`, `clientcmd.BuildConfigFromFlags` and `kubernetes.NewForConfig`.
pub record Cluster (E C K : Type 0) : Type 0 where
  pub getenv : String → String
  pub build_config_from_flags : String → String → Result E (RestConfig C)
  pub new_for_config : RestConfig C → Result E K

abbrev pub kube_config_env : String
kube_config_env = "KUBECONFIG"

module _ {E C K : Type 0} (libs : Libs E) (cluster : Cluster E C K) where
  -- The path of the configuration file: the flag, or the environment variable.
  abbrev pub config_path : String → String
  config_path kubeconfig =
      if is_empty kubeconfig then cluster.getenv kube_config_env else kubeconfig

  unfoldable pub new_cluster_config : String → Result E (RestConfig C)
  new_cluster_config kubeconfig = do
    cfg ← cluster.build_config_from_flags "" (config_path kubeconfig)
    ok (record cfg { qps = 1000; burst = 1000 })

  unfoldable pub new_client_set : String → Result E K
  unfolding new_cluster_config
  new_client_set kubeconfig = do
    client_conf ← new_cluster_config kubeconfig
    wrapped libs "failed to create kubernetes client" (cluster.new_for_config client_conf)

  -- A configuration is one that was read, with both limits set.
  pub new_cluster_config_inv :
      (kubeconfig : String) {cfg : RestConfig C}
      → new_cluster_config kubeconfig ≡ ok cfg
      → (read : RestConfig C) × (cluster.build_config_from_flags "" (config_path kubeconfig)
          ≡ ok read)
        × (cfg ≡ record read { qps = 1000; burst = 1000 })
  unfolding new_cluster_config
  new_cluster_config_inv kubeconfig h =
      let (read, e, same) =
        >>=-eq-ok (cluster.build_config_from_flags "" (config_path kubeconfig)) _ h in
      (read, e, ok_inj (sym same))

  pub new_client_set_inv :
      (kubeconfig : String) {client : K}
      → new_client_set kubeconfig ≡ ok client
      → (cfg : RestConfig C) × (new_cluster_config kubeconfig ≡ ok cfg)
        × (cluster.new_for_config cfg ≡ ok client)
  unfolding new_client_set
  new_client_set_inv kubeconfig h =
      let (cfg, e, made) = >>=-eq-ok (new_cluster_config kubeconfig) _ h in
      (cfg, e, wrapped_inv libs _ _ made)
