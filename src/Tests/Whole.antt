-- ===== src/Tests/Whole.antt =====
-- The theorem on the whole program, at a call of the command without arguments.
use mathlib.Core.Path.{subst}
use gameserver_ingress_contr.Base.{◌≡◌, refl, sym, ap, Option, none, some, [], ◌∷◌, inl}
use gameserver_ingress_contr.Base.Action.{◌>>=◌}
use gameserver_ingress_contr.Base.Result.{ok, ok_inj}
use gameserver_ingress_contr.App.Made.{store_of, ComesFrom}
use gameserver_ingress_contr.App.Start.{new_agones_store}
use gameserver_ingress_contr.Cmd.{default_flags, init_config, run_command, outcome, runs, execute}
use gameserver_ingress_contr.Cmd.Served.{AreMadeFor, IsServing, IsServable, execute_serves}
use gameserver_ingress_contr.Controller.Life as ControllerLife
use gameserver_ingress_contr.Controller.Life.{
  Process, in_start, alive, internal, delivered, launches, delivers, Steps, stay, next,
}
use gameserver_ingress_contr.Controller.Life.Served.{IsGentle, handle_ok}
use gameserver_ingress_contr.Gameserver.{get_router_backend, has_annotation}
use gameserver_ingress_contr.Base.Dict.{lookup}
use gameserver_ingress_contr.Handlers.Lands.{HasService, HasRoute, HasRoute-IsLasting}
use gameserver_ingress_contr.Handlers.Succeeds.{ConflictsEnd}
use gameserver_ingress_contr.K8sutil.{RestConfig}
use gameserver_ingress_contr.Objects.{HttpRoute}
use gameserver_ingress_contr.Runtime.{initial}
use gameserver_ingress_contr.Stores.Live.{IsLive, IsLasting}
use gameserver_ingress_contr.Stores.Retry.{with_retry, retry_loop}
use gameserver_ingress_contr.Stores.Sync.{agones_has_synced, wait_once}
use gameserver_ingress_contr.Reconcilers.GameServer.{wrapping}
use gameserver_ingress_contr.Stores.Up.{IsUp}
use gameserver_ingress_contr.Tests.Handlers.{
  fresh, handler, after, first_pass, domain_server-IsEligible,
}
use gameserver_ingress_contr.Tests.Life.{first_event, signals, OthersAct, OthersAct-IsGentle}
use gameserver_ingress_contr.Tests.Live.{store, is_live, retry-Attempted}
use gameserver_ingress_contr.Tests.Options.{domain_server-IsMap}
use gameserver_ingress_contr.Tests.Passes.{domain_server-IsIngressReady, domain_server-IsReadyFor}
use gameserver_ingress_contr.Tests.Platform.{
  TestError, Cluster, libs, libs-IsLawful, domain_server, retry_on_conflict, game_servers,
}
use gameserver_ingress_contr.Tests.Start.{startup, started}
use gameserver_ingress_contr.Tests.Up.{IsListed, is_up, settled}
use gameserver_ingress_contr.World.{Client, GameServerClient}

-- The store without HTTPRoutes keeps what the one with them keeps.
narrowed :
    {P : Cluster → Type 0}
    → IsLasting store (some game_servers) P
    → IsLasting (store_of libs startup tt none) (some game_servers) P
narrowed l = record {
  services_keep = l.services_keep;
  ingresses_keep = l.ingresses_keep;
  routes_keep = λ client e. absurd cc;
  updates_keep = l.updates_keep;
}

IsLive-without : IsLive (store_of libs startup tt none) (some game_servers) libs
IsLive-without = record {
  services_seen = is_live.services_seen;
  ingresses_seen = is_live.ingresses_seen;
  routes_seen = λ client e. absurd cc;
  services_last = λ ns name. narrowed (is_live.services_last ns name);
  ingresses_last = λ ns name. narrowed (is_live.ingresses_last ns name);
  routes_last = λ client e. absurd cc;
}

IsUp-without : IsUp libs IsListed (store_of libs startup tt none) game_servers domain_server
IsUp-without = record {
  services = is_up.services;
  ingresses = is_up.ingresses;
  routes = λ client e. absurd cc;
  known = is_up.known;
  marks = is_up.marks;
  updates_keep = is_up.updates_keep;
}

IsLive-from :
    (routes : Option (Client TestError Cluster HttpRoute)) (c : RestConfig (Unit {0}))
    → ComesFrom libs startup c routes
    → IsLive (store_of libs startup tt routes) (some game_servers) libs
IsLive-from none c from = IsLive-without
IsLive-from (some client) c from =
    subst
      (λ (r : Client TestError Cluster HttpRoute).
        IsLive (store_of libs startup tt (some r)) (some game_servers) libs)
      (ok_inj from) is_live

IsUp-from :
    (routes : Option (Client TestError Cluster HttpRoute)) (c : RestConfig (Unit {0}))
    → ComesFrom libs startup c routes
    → IsUp libs IsListed (store_of libs startup tt routes) game_servers domain_server
IsUp-from none c from = IsUp-without
IsUp-from (some client) c from =
    subst
      (λ (r : Client TestError Cluster HttpRoute).
        IsUp libs IsListed (store_of libs startup tt (some r)) game_servers domain_server)
      (ok_inj from) is_up

IsGentle-from :
    (routes : Option (Client TestError Cluster HttpRoute)) (c : RestConfig (Unit {0}))
    → ComesFrom libs startup c routes
    → IsGentle IsListed (store_of libs startup tt routes) domain_server OthersAct
IsGentle-from routes c from = record {
  keeps_up = OthersAct-IsGentle.keeps_up;
  keeps_service = OthersAct-IsGentle.keeps_service;
  keeps_route = λ s s' (a, e) h.
      subst (HasRoute (store_of libs startup tt routes) domain_server) (sym e) (
        (HasRoute-IsLasting (store_of libs startup tt routes) domain_server libs (some game_servers)
            (IsLive-from routes c from)).services_keep
          (a.namespace) a s h);
}

is_serving : IsServing libs startup IsListed retry_on_conflict domain_server "" OthersAct
unfolding new_agones_store agones_has_synced wait_once with_retry retry_loop wrapping ◌>>=◌
is_serving = record {
  live = λ k c d routes agones made from given.
      subst
        (λ (a : GameServerClient TestError Cluster).
          IsLive (store_of libs startup k routes) (some a) libs)
        (ok_inj given) (IsLive-from routes c from);
  up = λ k c d routes agones made from given.
      subst
        (λ (a : GameServerClient TestError Cluster).
          IsUp libs IsListed (store_of libs startup k routes) a domain_server)
        (ok_inj given) (IsUp-from routes c from);
  settled = λ k c d agones made given.
      subst
        (λ (a : GameServerClient TestError Cluster).
          ConflictsEnd libs IsListed a retry_on_conflict domain_server)
        (ok_inj given) settled;
  gentle = λ k c routes made from. IsGentle-from routes c from;
  agones_synced = λ k c d w made. tt;
}

is_servable : IsServable libs startup default_flags domain_server
unfolding has_annotation lookup get_router_backend
is_servable = record {
  service = domain_server-IsReadyFor.service;
  flag = domain_server-IsReadyFor.flag;
  route = inl (refl, domain_server-IsIngressReady);
}

executed : execute libs startup (ok "/root") initial (ok (some default_flags)) 0 ≡ runs handler
unfolding execute init_config run_command
executed = ap (λ x. outcome x.0) started

-- The process is launched and gets the first event of the game server.
Steps-first :
    Steps libs retry_on_conflict handler signals OthersAct
      (internal ∷ delivered first_event ∷ [])
      (ControllerLife.started fresh)
      (alive (record (ControllerLife.started after) { manager = in_start }))
Steps-first = next (launches refl) (
    next
      (delivers first_event refl refl
        (handle_ok libs retry_on_conflict handler domain_server first_event fresh refl first_pass))
      stay)

execute_serves_example :
    (k : Unit {0}) × (c : RestConfig (Unit {0})) × (routes : Option
      (Client TestError Cluster HttpRoute))
    × AreMadeFor libs startup default_flags.kubeconfig k c
    × ComesFrom libs startup c routes
    × HasService (store_of libs startup k routes) domain_server after.cluster
    × HasRoute (store_of libs startup k routes) domain_server after.cluster
execute_serves_example =
    execute_serves libs startup libs-IsLawful IsListed retry_on_conflict retry-Attempted signals
      default_flags domain_server OthersAct is_serving domain_server-IsMap is_servable
      domain_server-IsEligible (ok "/root") initial 0 executed fresh (refl, tt) Steps-first
      (inl refl)
