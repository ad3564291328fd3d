-- ===== src/App/Started.antt =====
-- What a start of the controller that comes to its end has made, and what it hands to the event
-- handler.
use mathlib.Core.Path.{subst}
use gameserver_ingress_contr.Base.{String, ◌≡◌, ap, sym, ◌∙◌, Bool, true, false, Option, is_some}
use gameserver_ingress_contr.Base.Result.{Result, ok, >>=-eq-ok, ok_inj}
use gameserver_ingress_contr.App.{resolve_gateway_api_enabled}
use gameserver_ingress_contr.App.Connect.{Startup, Config, Connection, connect, manager_options_of}
use gameserver_ingress_contr.App.Start.{
  gateway_store_of, new_store, new_agones_store, unchecked, start_controller,
}
use gameserver_ingress_contr.Controller.{new_game_server_controller}
use gameserver_ingress_contr.Base.Action.{>>=-inv, attempt, lift}
use gameserver_ingress_contr.K8sutil.{RestConfig, new_cluster_config, new_client_set}
use gameserver_ingress_contr.Manager.{new_manager}
use gameserver_ingress_contr.Reconcilers.GameServer.{wrapping, wrapping-inv}
use gameserver_ingress_contr.Stores.Sync.{has_synced}
use gameserver_ingress_contr.Handlers.{Handler, new_handler}
use gameserver_ingress_contr.Objects.{HttpRoute}
use gameserver_ingress_contr.Platform.{Libs}
use gameserver_ingress_contr.Stores.{Store, wrapped, wrapped_inv}
use gameserver_ingress_contr.World.{GameServerClient, Client}

-- A step that changes nothing itself.
pub lifted :
    {E W A : Type 0} (libs : Libs E) (text : String) (r : Result E A) {w w' : W} {a : A}
    → wrapping libs text (lift r) w ≡ (ok a, w')
    → (r ≡ ok a) × (w' ≡ w)
lifted libs text r h =
    let e = wrapping-inv libs text (lift r) h in (ap (λ x. x.0) e, ap (λ x. x.1) (sym e))

module _ {E S W C D K M : Type 0} (libs : Libs E) (startup : Startup E S W C D K M) where
  gateway_store_inv :
      (config : RestConfig C) (enabled : Bool) (w : W) {w' : W}
      {routes : Option (Client E S HttpRoute)}
      → gateway_store_of libs startup config enabled w ≡ (ok routes, w')
      → is_some routes ≡ enabled
  unfolding gateway_store_of
  gateway_store_inv config false w h = ap is_some (sym (ok_inj (ap (λ x. x.0) h)))
  gateway_store_inv config true w h =
      let (client, _, _, same) = >>=-inv _ _ h in ap is_some (sym (ok_inj (ap (λ x. x.0) same)))

  new_store_inv :
      (client : K) (config : RestConfig C) (enabled : Bool) (w : W) {w' : W} {store : Store E S}
      → new_store libs startup client config enabled w ≡ (ok store, w')
      → is_some store.gateway_store ≡ enabled
  unfolding new_store
  new_store_inv client config enabled w h =
      let (routes, w1, e, rest) = >>=-inv (gateway_store_of libs startup config enabled) _ h in
      let (_, w2, _, same) =
        >>=-inv (wrapping libs _ (has_synced libs startup.waits enabled)) _ rest in
      let given = ap (λ s. s.gateway_store) (ok_inj (ap (λ x. x.0) same)) in
      ap is_some (sym given) ∙ gateway_store_inv config enabled w e

  -- The first part, where it comes to its end.
  pub record IsConnected (config : Config) (c : Connection C D K M) : Type 0 where
    pub parsed : startup.parse_duration config.sync_period ≡ ok c.duration
    pub managed :
        new_manager libs startup.cluster startup.managers config.kubeconfig
          (manager_options_of libs startup config c.duration)
        ≡ ok c.mgr
    pub configured : new_cluster_config libs startup.cluster config.kubeconfig ≡ ok c.cluster_config
    pub connected : new_client_set libs startup.cluster config.kubeconfig ≡ ok c.client
    pub resolved :
        resolve_gateway_api_enabled libs config.enable_gateway_api (startup.resources c.client)
        ≡ ok c.gateway_enabled

  pub connect-IsConnected :
      (config : Config) {c : Connection C D K M}
      → connect libs startup config ≡ ok c
      → IsConnected config c
  unfolding connect
  connect-IsConnected config {c} e =
      let (duration, s1, e1) =
        >>=-eq-ok (wrapped libs _ (startup.parse_duration config.sync_period)) _ e in
      let (mgr, s2, e2) =
        >>=-eq-ok
          (wrapped libs _ (
            new_manager libs startup.cluster startup.managers config.kubeconfig
              (manager_options_of libs startup config duration)))
          _ e1 in
      let (cfg, s3, e3) =
        >>=-eq-ok (wrapped libs _ (new_cluster_config libs startup.cluster config.kubeconfig)) _
          e2 in
      let (client, s4, e4) =
        >>=-eq-ok (wrapped libs _ (new_client_set libs startup.cluster config.kubeconfig)) _ e3 in
      let (enabled, s5, e5) =
        >>=-eq-ok
          (wrapped libs _
            (resolve_gateway_api_enabled libs config.enable_gateway_api (startup.resources client)))
          _ e4 in
      subst (IsConnected config) (ok_inj e5) (record {
        parsed = wrapped_inv libs _ _ s1;
        managed = wrapped_inv libs _ _ s2;
        configured = wrapped_inv libs _ _ s3;
        connected = wrapped_inv libs _ _ s4;
        resolved = wrapped_inv libs _ _ s5;
      })

  -- A start that comes to its end, with the world between its two waits.
  pub record IsStarted (config : Config) (h : Handler E S) (w w' : W) : Type 0 where
    pub connection : Connection C D K M
    pub open connection use {duration, cluster_config, client, gateway_enabled}
    pub is_connected : IsConnected config connection
    pub store : Store E S
    pub agones : Result E (GameServerClient E S)
    pub synced : W
    pub stored : new_store libs startup client cluster_config gateway_enabled w ≡ (ok store, synced)
    pub agones_stored :
        attempt (new_agones_store libs startup cluster_config duration) synced ≡ (ok agones, w')
    pub fits : gateway_enabled ≡ is_some store.gateway_store
    pub built : h ≡ new_handler libs store (unchecked agones) gateway_enabled

  pub start_controller-IsStarted :
      (config : Config) {h : Handler E S} (w : W) {w' : W}
      → start_controller libs startup config w ≡ (ok h, w')
      → IsStarted config h w w'
  unfolding start_controller
  start_controller-IsStarted config w e =
      let (c, w1, s1, e1) = >>=-inv (lift (connect libs startup config)) _ e in
      let (store, w2, s2, e2) =
        >>=-inv
          (wrapping libs _ (new_store libs startup c.client c.cluster_config c.gateway_enabled)) _
          e1 in
      let (agones, w3, s3, e3) =
        >>=-inv (attempt (new_agones_store libs startup c.cluster_config c.duration)) _ e2 in
      let (_, w4, s4, e4) =
        >>=-inv (wrapping libs _ (lift (new_game_server_controller startup.controller c.mgr))) _
          e3 in
      let (_, q4) = lifted libs _ _ s4 in
      let stored =
        wrapping-inv libs _ (new_store libs startup c.client c.cluster_config c.gateway_enabled)
          s2 in
      record {
        connection = c;
        is_connected = connect-IsConnected config (ap (λ x. x.0) s1);
        store = store;
        agones = agones;
        synced = w2;
        stored =
            subst
              (λ v.
                new_store libs startup c.client c.cluster_config c.gateway_enabled v
                ≡ (ok store, w2))
              (ap (λ x. x.1) (sym s1)) stored;
        agones_stored = s3 ∙ ap (λ v. (ok agones, v)) (sym q4 ∙ ap (λ x. x.1) e4);
        fits = sym (new_store_inv c.client c.cluster_config c.gateway_enabled w1 stored);
        built = sym (ok_inj (ap (λ x. x.0) e4));
      }
