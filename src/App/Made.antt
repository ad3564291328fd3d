-- ===== src/App/Made.antt =====
-- pkg/stores and pkg/app: where the stores of a started controller come from.
use mathlib.Core.Path.{subst}
use gameserver_ingress_contr.Base.{◌≡◌, refl, ap, ◌∙◌, Bool, true, false, Option, none, some}
use gameserver_ingress_contr.Base.Action.{>>=-inv, lift}
use gameserver_ingress_contr.Base.Result.{ok, ok_inj}
use gameserver_ingress_contr.App.Connect.{Startup}
use gameserver_ingress_contr.App.Start.{new_store, new_agones_store, gateway_store_of}
use gameserver_ingress_contr.App.Started.{lifted}
use gameserver_ingress_contr.K8sutil.{RestConfig}
use gameserver_ingress_contr.Objects.{HttpRoute}
use gameserver_ingress_contr.Platform.{Libs}
use gameserver_ingress_contr.Reconcilers.GameServer.{wrapping}
use gameserver_ingress_contr.Stores.{Store}
use gameserver_ingress_contr.Stores.Sync.{has_synced, agones_has_synced}
use gameserver_ingress_contr.World.{Client, GameServerClient}

module _ {E S W C D K M : Type 0} (libs : Libs E) (startup : Startup E S W C D K M) where
  -- The store that is made of a client set and of the client for HTTPRoutes, if there is one.
  abbrev pub store_of : K → Option (Client E S HttpRoute) → Store E S
  store_of client routes = record {
    service_store = startup.services client;
    ingress_store = startup.ingresses client;
    gateway_store = routes;
  }

  -- There is none, or it comes from this configuration.
  abbrev pub ComesFrom : RestConfig C → Option (Client E S HttpRoute) → Type 0
  ComesFrom config none = Unit
  ComesFrom config (some routes) = startup.http_routes config ≡ ok routes

  gateway_store_ComesFrom :
      (config : RestConfig C) (enabled : Bool) (w : W) {w' : W}
      {routes : Option (Client E S HttpRoute)}
      → gateway_store_of libs startup config enabled w ≡ (ok routes, w')
      → ComesFrom config routes
  unfolding gateway_store_of
  gateway_store_ComesFrom config false w h = subst (ComesFrom config) (ok_inj (ap (λ x. x.0) h)) tt
  gateway_store_ComesFrom config true w h =
      let (client, w1, s, same) =
        >>=-inv (wrapping libs _ (lift (startup.http_routes config))) _ h in
      subst (ComesFrom config) (ok_inj (ap (λ x. x.0) same)) ((lifted libs _ _ s).0)

  pub new_store_made :
      (client : K) (config : RestConfig C) (enabled : Bool) (w : W) {w' : W} {store : Store E S}
      → new_store libs startup client config enabled w ≡ (ok store, w')
      → (store ≡ store_of client store.gateway_store) × ComesFrom config store.gateway_store
  unfolding new_store
  new_store_made client config enabled w {store = store} h =
      let (routes, w1, e, rest) = >>=-inv (gateway_store_of libs startup config enabled) _ h in
      let (_, w2, _, same) =
        >>=-inv (wrapping libs _ (has_synced libs startup.waits enabled)) _ rest in
      subst
        (λ (st : Store E S).
          (st ≡ store_of client st.gateway_store) × ComesFrom config st.gateway_store)
        (ok_inj (ap (λ x. x.0) same)) (refl, gateway_store_ComesFrom config enabled w e)

  pub agones_made :
      (config : RestConfig C) (d : D) (w : W) {w' : W} {agones : GameServerClient E S}
      → new_agones_store libs startup config d w ≡ (ok agones, w')
      → startup.agones_client config d ≡ ok agones
  unfolding new_agones_store
  agones_made config d w h =
      let (a, w1, s, rest) =
        >>=-inv (wrapping libs _ (lift (startup.agones_client config d))) _ h in
      let (_, w2, _, same) =
        >>=-inv (wrapping libs _ (agones_has_synced libs startup.waits)) _ rest in
      (lifted libs _ _ s).0 ∙ ap ok (ok_inj (ap (λ x. x.0) same))
