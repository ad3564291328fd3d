-- ===== src/Tests/Start.antt =====
-- The theorems on the start of the controller, on its waits and on its loggers, at test libraries.
use Prim.Native.Nat.{◌*◌}
use text.Mathlib.Text.{◌==◌}
use gameserver_ingress_contr.Base.{
  ℕ, suc, ◌+◌, ◌≤◌, ◌<>◌, ◌≡◌, refl, Bool, true, false, none, some, List, [], ◌∷◌, ◌↔◌, arith,
  if◌then◌else◌, leb,
}
use gameserver_ingress_contr.Base.Action.{Action, ◌>>=◌}
use gameserver_ingress_contr.Base.Dict.{lookup}
use gameserver_ingress_contr.Base.Result.{ok, err, panic}
use gameserver_ingress_contr.App.{resolve_gateway_api_enabled, check_gateway_api_crds}
use gameserver_ingress_contr.App.Configured.{IsConfigured, start_controller-IsConfigured}
use gameserver_ingress_contr.App.Connect.{Startup, Config, connect}
use gameserver_ingress_contr.App.Start.{
  start_controller, new_store, new_agones_store, gateway_store_of,
}
use gameserver_ingress_contr.App.Unsynced.{start_controller-panic}
use gameserver_ingress_contr.App.Wiring.{IsInstalled, resolve_gateway_api_enabled-IsInstalled}
use gameserver_ingress_contr.Cmd.{default_flags, config_of}
use gameserver_ingress_contr.Gameserver.{has_annotation}
use gameserver_ingress_contr.Handlers.{new_handler}
use gameserver_ingress_contr.K8sutil.{RestConfig, new_cluster_config, new_client_set}
use gameserver_ingress_contr.Manager.{new_manager}
use gameserver_ingress_contr.Reconcilers.GameServer as GameServerReconciler
use gameserver_ingress_contr.Reconcilers.GameServer.{must_reconcile_mark, wrapping}
use gameserver_ingress_contr.Runtime.{
  initial, shared_logger, call_new_logger, call_logger, after_calls,
}
use gameserver_ingress_contr.Runtime.Laws.{shared_logger-asked_last}
use gameserver_ingress_contr.Stores.Retry.{with_retry, retry_loop}
use gameserver_ingress_contr.Stores.Retry.Laws.{
  none_yet, fails, with_retry_succeeds, with_retry_fails,
}
use gameserver_ingress_contr.Stores.Sync.{
  Waits, Informer, game_servers, has_synced, agones_has_synced, wait_once,
}
use gameserver_ingress_contr.Stores.Sync.Bounds.{IsTimed, has_synced-lasts}
use gameserver_ingress_contr.Tests.Handlers.{fresh, handler}
use gameserver_ingress_contr.Tests.Live.{store, retry-Attempted}
use gameserver_ingress_contr.Tests.Platform as Platform
use gameserver_ingress_contr.Tests.Platform.{
  TestError, libs, domain_server, retry_on_conflict, api, server_error,
}

resolve_gateway_api_enabled-IsInstalled_example :
    (resolve_gateway_api_enabled libs "auto" (ok ("gateways" ∷ "httproutes" ∷ [])) ≡ ok true) ↔ (
      (("auto" == "false") ≡ false)
      × IsInstalled {E = TestError} (ok ("gateways" ∷ "httproutes" ∷ [])))
resolve_gateway_api_enabled-IsInstalled_example =
    resolve_gateway_api_enabled-IsInstalled libs "auto" (ok ("gateways" ∷ "httproutes" ∷ []))

-- A clock in seconds, and caches that are in step when they are asked.
abbrev pub prompt : Waits ℕ
prompt = record { sleep = λ n now. now + n; wait_for_cache_sync = λ n is now. (true, now) }

-- The same, where the cache of the game servers is never in step.
abbrev without_game_servers : List Informer → Bool
without_game_servers (game_servers ∷ _) = false
without_game_servers _ = true

abbrev slow : Waits ℕ
slow = record {
  sleep = λ n now. now + n;
  wait_for_cache_sync =
      λ n is now. if without_game_servers is then (true, now) else (false, now + n);
}

abbrev read_config : RestConfig (Unit {0})
read_config = record { settings = tt; qps = 5; burst = 10 }

abbrev pub startup : Startup TestError Platform.Cluster ℕ (Unit {0}) ℕ (Unit {0}) (Unit {0})
startup = record {
  parse_duration = λ _. ok 15;
  cluster = record {
    getenv = λ _. "/etc/kubeconfig";
    build_config_from_flags = λ _ _. ok read_config;
    new_for_config = λ _. ok tt;
  };
  managers = record {
    new = λ _ _. ok tt;
    add_healthz_check = λ _ _. ok tt;
    add_readyz_check = λ _ _. ok tt;
  };
  resources = λ _. ok ("httproutes" ∷ []);
  services = λ _. Platform.services;
  ingresses = λ _. Platform.ingresses;
  http_routes = λ _. ok Platform.http_routes;
  agones_client = λ _ _. ok Platform.game_servers;
  waits = prompt;
  controller = λ _. ok tt;
}

abbrev pub config : Config
config = config_of default_flags

pub started : start_controller libs startup config 0 ≡ (ok handler, 10)
unfolding start_controller connect new_manager new_cluster_config new_client_set
    resolve_gateway_api_enabled check_gateway_api_crds new_store new_agones_store gateway_store_of
    has_synced agones_has_synced wait_once with_retry retry_loop wrapping ◌>>=◌
started = refl

start_controller-IsConfigured_example : IsConfigured libs startup config
start_controller-IsConfigured_example =
    start_controller-IsConfigured libs startup config {h = handler} 0 started

-- The Agones caches do not sync in time.
abbrev unsynced : Startup TestError Platform.Cluster ℕ (Unit {0}) ℕ (Unit {0}) (Unit {0})
unsynced = record startup { waits = slow }

start_controller-panic_example :
    GameServerReconciler.reconcile libs
      (new_handler libs store none true).gameserver_reconciler
      retry_on_conflict
      domain_server
      fresh
    ≡ (panic, fresh)
unfolding start_controller connect new_manager new_cluster_config new_client_set
    resolve_gateway_api_enabled check_gateway_api_crds new_store new_agones_store gateway_store_of
    has_synced agones_has_synced wait_once with_retry retry_loop wrapping ◌>>=◌ must_reconcile_mark
    has_annotation lookup
start_controller-panic_example =
    start_controller-panic libs retry_on_conflict retry-Attempted domain_server fresh unsynced
      config {h = new_handler libs store none true} 0 (λ c d v. (_, _, refl)) refl refl

-- A call that fails until it has slept three times.
abbrev flaky : Action TestError ℕ (Unit {0})
flaky n = if leb n 2 then (err (api server_error), n) else (ok tt, n)

with_retry_succeeds_example : with_retry libs suc 5 flaky 0 ≡ (ok tt, 3)
with_retry_succeeds_example =
    with_retry_succeeds libs suc flaky 5 2 (fails refl (fails refl none_yet)) (omega arith) refl

with_retry_fails_example : with_retry libs suc 0 flaky 0 ≡ (
  err (libs.wrap (api server_error) ("retry failed after " <> libs.format_int 1 <> " attempts")),
  1,
)
with_retry_fails_example = with_retry_fails libs suc flaky 0 none_yet refl

prompt-IsTimed : IsTimed prompt (λ now. now) 0
prompt-IsTimed = record {
  slept_least = λ n w. omega arith;
  slept_most = λ n w. omega arith;
  waited_least = λ n is w. omega arith;
  waited_most = λ n is w. omega arith;
}

has_synced-lasts_example :
    ((0 + 5 ≤ (has_synced libs prompt true 0).1)
      × ((has_synced libs prompt true 0).1 ≤ 0 + (100 + 10 * 0)))
    × ((0 + 5 ≤ (agones_has_synced libs prompt 0).1)
        × ((agones_has_synced libs prompt 0).1 ≤ 0 + (100 + 10 * 0)))
has_synced-lasts_example = has_synced-lasts libs prompt (λ now. now) 0 prompt-IsTimed true 0

shared_logger-asked_last_example :
    ((shared_logger (after_calls (call_new_logger false ∷ call_logger ∷ []) initial)).0
      ≡ some (some false))
    × ((after_calls (call_new_logger false ∷ call_logger ∷ []) initial).log ≡ none)
shared_logger-asked_last_example =
    shared_logger-asked_last (call_new_logger false ∷ call_logger ∷ [])
