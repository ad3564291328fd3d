-- ===== src/Cmd/Served.antt =====
-- The whole program: from the command line to the routes of a game server.
use text.Mathlib.Text.{◌==◌}
use gameserver_ingress_contr.Base.{
  String, ◌≡◌, refl, ap, sym, ◌∙◌, true, false, Option, none, some, is_some, List, ◌⊎◌, inl, inr,
}
use gameserver_ingress_contr.Base.Action.{Action, attempt}
use gameserver_ingress_contr.Base.Result.{
  Result, ok, err, panic, IsOk, ok_inj, eq_of_IsOk, >>=-eq-ok,
}
use gameserver_ingress_contr.App.Connect.{Startup}
use gameserver_ingress_contr.App.Made.{store_of, ComesFrom, new_store_made, agones_made}
use gameserver_ingress_contr.App.Start.{start_controller, new_agones_store, unchecked}
use gameserver_ingress_contr.App.Started.{IsStarted, start_controller-IsStarted}
use gameserver_ingress_contr.App.Wiring.{IsInstalled, resolve_gateway_api_enabled-IsInstalled}
use gameserver_ingress_contr.Cmd.{
  Flags, config_of, run_command, init_config, runs, outcome, execute,
}
use gameserver_ingress_contr.Controller.Life.{Life, Label, started, Steps}
use gameserver_ingress_contr.Controller.Life.Keeps.{world_of}
use gameserver_ingress_contr.Controller.Life.Served.{IsGentle, Delivered, Steps-served}
use gameserver_ingress_contr.Gameserver.{GameServer, get_router_backend, router_backend_gateway}
use gameserver_ingress_contr.Handlers.{Handler, new_handler}
use gameserver_ingress_contr.Handlers.Gate.{IsEligible}
use gameserver_ingress_contr.Handlers.Lands.{HasService, HasRoute}
use gameserver_ingress_contr.Handlers.Serves.{IsReadyFor}
use gameserver_ingress_contr.Handlers.Succeeds.{HasMarkFlag, ConflictsEnd}
use gameserver_ingress_contr.K8sutil.{RestConfig, new_client_set, new_cluster_config}
use gameserver_ingress_contr.Objects.{HttpRoute}
use gameserver_ingress_contr.Options.Custom.Twice.{IsMap}
use gameserver_ingress_contr.Platform.{Libs, IsLawful}
use gameserver_ingress_contr.Reconcilers.Gateway.Ready.{IsRouteReady}
use gameserver_ingress_contr.Reconcilers.Ingress.Ready.{IsIngressReady}
use gameserver_ingress_contr.Reconcilers.Service.Ready.{IsServiceReady}
use gameserver_ingress_contr.Runtime.{State}
use gameserver_ingress_contr.Runtime.Signals.{Signals}
use gameserver_ingress_contr.Stores.Live.{IsLive}
use gameserver_ingress_contr.Stores.Up.{IsUp}
use gameserver_ingress_contr.World.{World, Call, Client, GameServerClient, Attempted}

outcome_runs : {E A : Type 0} (r : Result E A) {a : A} → outcome r ≡ runs a → r ≡ ok a
outcome_runs (ok b) e = cc
outcome_runs (err x) e = absurd cc
outcome_runs panic e = absurd cc

-- An action whose error is looked at, where it has none.
attempt-ok :
    {E W A : Type 0} (m : Action E W A) {w w1 : W} {a : A} {r : Result E A}
    → (m w).0 ≡ ok a
    → attempt m w ≡ (ok r, w1)
    → (m w ≡ (ok a, w1)) × (r ≡ ok a)
attempt-ok {E} {W} {A} m {w} {w1} {a} {r} e h = go (m w) e h
  where
    go :
        (x : Result E A × W)
        → x.0 ≡ ok a
        → attempt (λ (_ : W). x) w ≡ (ok r, w1)
        → (x ≡ (ok a, w1)) × (r ≡ ok a)
    go (ok b, v) e h = (cc, cc)
    go (err b, v) e h = absurd cc
    go (panic, v) e h = absurd cc

some_there : {A : Type 0} (o : Option A) → is_some o ≡ true → (a : A) × (o ≡ some a)
some_there none e = absurd cc
some_there (some a) e = (a, refl)

module _ {E S W C D K M : Type 0} (libs : Libs E) (startup : Startup E S W C D K M) where
  -- A controller runs only where `StartController` has come to the start of the controller.
  execute_inv :
      (home : Result E String) (loggers : State) (flags : Flags) (w : W) {h : Handler E S}
      → execute libs startup home loggers (ok (some flags)) w ≡ runs h
      → (w' : W) × (start_controller libs startup (config_of flags) w ≡ (ok h, w'))
  unfolding execute run_command
  execute_inv home loggers flags w e =
      let (file, _, done) =
        >>=-eq-ok (init_config flags home)
          (λ _. (start_controller libs startup (config_of flags) w).0) (outcome_runs _ e) in
      let w' = (start_controller libs startup (config_of flags) w).1 in (w', ap (λ r. (r, w')) done)

  -- The client set and the configuration that are made for this value of `--kubeconfig`.
  abbrev pub AreMadeFor : String → K → RestConfig C → Type 0
  AreMadeFor kubeconfig k c =
      (new_client_set libs startup.cluster kubeconfig ≡ ok k)
      × (new_cluster_config libs startup.cluster kubeconfig ≡ ok c)

  -- What the clients that are made at the start reach: an API server that answers while `P` holds,
  -- whose caches are in step with it, in which others do not delete what the game server has got,
  -- and with which the conflicts on the mark end before the attempts do; and the Agones caches sync.
  pub record IsServing (P : S → Type 0)
      (retry_on_conflict : Call E S GameServer → Call E S GameServer) (gs : GameServer)
      (kubeconfig : String) (others : S → S → Type 0) : Type 0 where
    pub live :
        (k : K) (c : RestConfig C) (d : D) (routes : Option (Client E S HttpRoute))
        (agones : GameServerClient E S)
        → AreMadeFor kubeconfig k c
        → ComesFrom libs startup c routes
        → startup.agones_client c d ≡ ok agones
        → IsLive (store_of libs startup k routes) (some agones) libs
    pub up :
        (k : K) (c : RestConfig C) (d : D) (routes : Option (Client E S HttpRoute))
        (agones : GameServerClient E S)
        → AreMadeFor kubeconfig k c
        → ComesFrom libs startup c routes
        → startup.agones_client c d ≡ ok agones
        → IsUp libs P (store_of libs startup k routes) agones gs
    pub settled :
        (k : K) (c : RestConfig C) (d : D) (agones : GameServerClient E S)
        → AreMadeFor kubeconfig k c
        → startup.agones_client c d ≡ ok agones
        → ConflictsEnd libs P agones retry_on_conflict gs
    pub gentle :
        (k : K) (c : RestConfig C) (routes : Option (Client E S HttpRoute))
        → AreMadeFor kubeconfig k c
        → ComesFrom libs startup c routes
        → IsGentle P (store_of libs startup k routes) gs others
    pub agones_synced :
        (k : K) (c : RestConfig C) (d : D) (w : W)
        → AreMadeFor kubeconfig k c
        → IsOk (new_agones_store libs startup c d w).0

  -- What a game server has to say to be served: all that the Service, the route of its backend and
  -- the mark need; and for the gateway backend the flag `--enable-gateway-api` is not "false" and
  -- the API server has the resource HTTPRoute.
  pub record IsServable (flags : Flags) (gs : GameServer) : Type 0 where
    pub service : IsServiceReady libs gs
    pub flag : HasMarkFlag gs
    pub route :
        (((get_router_backend gs == router_backend_gateway) ≡ false) × IsIngressReady libs gs)
        ⊎ (((get_router_backend gs == router_backend_gateway) ≡ true)
            × IsRouteReady libs gs
            × ((flags.enable_gateway_api == "false") ≡ false)
            × ((k : K) → IsInstalled (startup.resources k)))

  module _ (law : IsLawful libs) (P : S → Type 0)
      (retry_on_conflict : Call E S GameServer → Call E S GameServer)
      (attempted : (f : Call E S GameServer) (w : World S)
        → Attempted libs f w (retry_on_conflict f w))
      (signals : Signals) (flags : Flags) (gs : GameServer) (others : S → S → Type 0)
      (serving : IsServing P retry_on_conflict gs flags.kubeconfig others) (u : IsMap gs)
      (servable : IsServable flags gs) (eligible : IsEligible gs) where
    ready_for :
        {h : Handler E S} {w w' : W} (s : IsStarted libs startup (config_of flags) h w w')
        → IsReadyFor libs
            (store_of libs startup s.client s.store.gateway_store)
            s.gateway_enabled
            gs
    ready_for s = record {
      service = servable.service;
      flag = servable.flag;
      route = elim servable.route [
        | inl (other, r) ↦ inl (other, r)
        | inr (gateway, r, asked, installed) ↦
            let enabled : s.gateway_enabled ≡ true = ok_inj (
              sym s.is_connected.resolved
              ∙ (resolve_gateway_api_enabled-IsInstalled libs flags.enable_gateway_api
                    (startup.resources s.client)).1
                  (asked, installed s.client)) in
            inr (gateway, enabled, some_there s.store.gateway_store (sym s.fits ∙ enabled), r)
      ];
    }

    -- The whole program. Over a retry that tries again on conflicts only, wrapped errors that keep
    -- their reason, and clients as `IsServing` describes them: if the call of the command with these
    -- flags comes to a running controller, then, once that has got an event of an eligible game
    -- server whose annotations are a map and which `IsServable` describes, the Service of the game
    -- server and the route of its backend are there, as the clients see it that the program has made
    -- with the configuration read for the flag `--kubeconfig`. This is so whatever other events and signals come, whatever
    -- others do between two events, and in whatever order the goroutines run.
    pub execute_serves :
        (home : Result E String) (loggers : State) (w : W) {h : Handler E S}
        → execute libs startup home loggers (ok (some flags)) w ≡ runs h
        → (v : World S) {labels : List Label} {l : Life S} → P v.cluster
        → Steps libs retry_on_conflict h signals others labels (started v) l
        → Delivered gs labels
        → (k : K) × (c : RestConfig C) × (routes : Option (Client E S HttpRoute)) × AreMadeFor
            flags.kubeconfig k c
          × ComesFrom libs startup c routes
          × HasService (store_of libs startup k routes) gs (world_of l).cluster
          × HasRoute (store_of libs startup k routes) gs (world_of l).cluster
    execute_serves home loggers w {h} e v {labels} {l} p steps d =
        let (w', done) = execute_inv home loggers flags w e in
        let s = start_controller-IsStarted libs startup (config_of flags) w done in
        let (made, from) =
          new_store_made libs startup s.client s.cluster_config s.gateway_enabled w s.stored in
        let made_for : AreMadeFor flags.kubeconfig s.client s.cluster_config =
          (s.is_connected.connected, s.is_connected.configured) in
        let (agones, a) =
          eq_of_IsOk (new_agones_store libs startup s.cluster_config s.duration s.synced).0
            (serving.agones_synced s.client s.cluster_config s.duration s.synced made_for) in
        let (synced, given) =
          attempt-ok (new_agones_store libs startup s.cluster_config s.duration) a
            s.agones_stored in
        let client = agones_made libs startup s.cluster_config s.duration s.synced synced in
        let routes = s.store.gateway_store in
        let built : h
            ≡ new_handler libs (store_of libs startup s.client routes) (some agones)
                s.gateway_enabled =
          s.built
          ∙ ap (λ r. new_handler libs s.store (unchecked r) s.gateway_enabled) given
          ∙ ap (λ st. new_handler libs st (some agones) s.gateway_enabled) made in
        let served =
          Steps-served libs law P (store_of libs startup s.client routes) agones s.gateway_enabled
            retry_on_conflict attempted gs
            (serving.up s.client s.cluster_config s.duration routes agones made_for from client)
            (serving.settled s.client s.cluster_config s.duration agones made_for client) signals
            others (serving.gentle s.client s.cluster_config routes made_for from) u (ready_for s)
            (serving.live s.client s.cluster_config s.duration routes agones made_for from client)
            eligible (rw built at steps) p d in
        (s.client, s.cluster_config, routes, made_for, from, served.0, served.1)
