-- ===== src/Stores/Sync.antt =====
-- `HasSynced` of pkg/stores/store.go and of pkg/stores/agones_store.go: the waits for the caches.
pub mod Bounds
use gameserver_ingress_contr.Base.{
  ℕ, String, Bool, true, false, Option, none, some, List, [], ◌∷◌, ◌++◌, if◌then◌else◌,
}
use gameserver_ingress_contr.Base.Action.{Action}
use gameserver_ingress_contr.Base.Result.{Result, ok, err}
use gameserver_ingress_contr.Platform.{Libs}
use gameserver_ingress_contr.Stores.Retry.{with_retry}

-- The informers that the stores wait for.
pub data Informer : Type 0 where
  services ingresses http_routes game_servers : Informer

-- `time.Sleep` of some seconds, and `cache.WaitForCacheSync` with a context that ends after some
-- seconds: whether all the informers have synced by then.
pub record Waits (W : Type 0) : Type 0 where
  pub sleep : ℕ → W → W
  pub wait_for_cache_sync : ℕ → List Informer → W → Bool × W

-- `syncFuncs`: the informer of the HTTPRoutes is there where the gateway is enabled.
abbrev pub sync_funcs : Bool → List Informer
sync_funcs gateway_enabled =
    (services ∷ ingresses ∷ []) ++ (if gateway_enabled then http_routes ∷ [] else [])

abbrev pub retry_interval : ℕ
retry_interval = 5

abbrev pub max_retries : ℕ
max_retries = 5

abbrev pub sync_timeout : ℕ
sync_timeout = 15

module _ {E W : Type 0} (libs : Libs E) (waits : Waits W) where
  -- The function `f` of both: one wait.
  unfoldable pub wait_once : String → List Informer → Action E W (Unit {0})
  wait_once text informers w =
      let (synced, w') = waits.wait_for_cache_sync sync_timeout informers w in
      (if synced then ok tt else err (libs.errorf text), w')

  -- `Store.HasSynced`
  unfoldable pub has_synced : Bool → Action E W (Unit {0})
  unfolding wait_once
  has_synced gateway_enabled =
      with_retry libs (waits.sleep retry_interval) max_retries
        (wait_once "timed out waiting for K8S cache to sync" (sync_funcs gateway_enabled))

  -- `AgonesStore.HasSynced`
  unfoldable pub agones_has_synced : Action E W (Unit {0})
  unfolding wait_once
  agones_has_synced =
      with_retry libs (waits.sleep retry_interval) max_retries
        (wait_once "timed out waiting for Agones cache to sync" (game_servers ∷ []))
