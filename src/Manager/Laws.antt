-- ===== src/Manager/Laws.antt =====
-- What a manager is made with, and how the attempt fails.
use gameserver_ingress_contr.Base.{◌≡◌, sym, String}
use gameserver_ingress_contr.Base.Result.{Result, ok, err, panic, ◌>>=◌, >>=-eq-ok}
use gameserver_ingress_contr.K8sutil.{RestConfig, Cluster, new_cluster_config}
use gameserver_ingress_contr.Manager.{Options, Managers, manager_options, with_error, new_manager}
use gameserver_ingress_contr.Platform.{Libs}
use gameserver_ingress_contr.Stores.{wrapped, wrapped_inv}

err_inj : {E A : Type 0} {x y : E} → Path (Result E A) (err x) (err y) → x ≡ y
err_inj h = cc

panic_ne : {E A : Type 0} {x : E} → Path (Result E A) panic (err x) → ⊥
panic_ne h = cc

ok_ne : {E A : Type 0} {x : E} {a : A} → Path (Result E A) (ok a) (err x) → ⊥
ok_ne h = cc

module _ {E C D K M : Type 0} (libs : Libs E) (cluster : Cluster E C K)
    (managers : Managers E C D M) where
  -- A manager is one that `manager.New` has made with this configuration and these options, and
  -- that has taken both checks.
  pub new_manager_inv :
      (kubeconfig : String) (options : Options D) {m : M}
      → new_manager libs cluster managers kubeconfig options ≡ ok m
      → (config : RestConfig C) × (bare : M) × (healthy : M) × (new_cluster_config libs cluster
            kubeconfig
          ≡ ok config)
        × (managers.new config (manager_options options) ≡ ok bare)
        × (managers.add_healthz_check "/" bare ≡ ok healthy)
        × (managers.add_readyz_check "/" healthy ≡ ok m)
  unfolding new_manager
  new_manager_inv kubeconfig options h =
      let made = new_cluster_config libs cluster kubeconfig in
      let (config, s1, h1) =
        >>=-eq-ok (with_error libs cluster managers (wrapped libs _ made)) _ h in
      let (bare, s2, h2) =
        >>=-eq-ok (with_error libs cluster managers (managers.new config (manager_options options)))
          _ h1 in
      let (healthy, s3, h3) =
        >>=-eq-ok (with_error libs cluster managers (managers.add_healthz_check "/" bare)) _ h2 in
      (
        config,
        bare,
        healthy,
        wrapped_inv libs _ made (wrapped_inv libs _ (wrapped libs _ made) s1),
        wrapped_inv libs _ _ s2,
        wrapped_inv libs _ _ s3,
        wrapped_inv libs _ _ h3,
      )

  -- An error that is made up of another one and the message of `withError`.
  abbrev IsManagerError : Result E M → Type 0
  IsManagerError r =
      (e : E) → r ≡ err e → (cause : E) × (e ≡ libs.wrap cause "failed to create manager")

  manager_error : (r : Result E M) → IsManagerError (with_error libs cluster managers r)
  manager_error (ok m) e h = absurd (ok_ne h)
  manager_error (err x) e h = (x, err_inj (sym h))
  manager_error panic e h = absurd (panic_ne h)

  step_error :
      {A : Type 0} (r : Result E A) (k : A → Result E M)
      → ((a : A) → IsManagerError (k a))
      → IsManagerError (with_error libs cluster managers r >>= k)
  step_error (ok a) k hk = hk a
  step_error (err x) k hk = λ e h. (x, err_inj (sym h))
  step_error panic k hk = λ e h. absurd (panic_ne h)

  new_manager-IsManagerError :
      (kubeconfig : String) (options : Options D)
      → IsManagerError (new_manager libs cluster managers kubeconfig options)
  unfolding new_manager
  new_manager-IsManagerError kubeconfig options =
      step_error (wrapped libs _ (new_cluster_config libs cluster kubeconfig)) _ λ config.
        step_error (managers.new config (manager_options options)) _ λ bare.
          step_error (managers.add_healthz_check "/" bare) _
            λ healthy. manager_error (managers.add_readyz_check "/" healthy)

  -- Every error of `NewManager` is another one, wrapped as "failed to create manager".
  pub new_manager-err :
      (kubeconfig : String) (options : Options D) {e : E}
      → new_manager libs cluster managers kubeconfig options ≡ err e
      → (cause : E) × (e ≡ libs.wrap cause "failed to create manager")
  new_manager-err kubeconfig options {e} failed =
      new_manager-IsManagerError kubeconfig options e failed
