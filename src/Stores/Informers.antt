-- ===== src/Stores/Informers.antt =====
-- `NewStore` of pkg/stores/store.go: the informers that it asks the factory for while another
-- goroutine starts the factory.
pub mod Race
use gameserver_ingress_contr.Base.{ℕ, Bool, true, false, ◌≡◌, ◌≢◌, List, [], ◌∷◌, map, ◌⊎◌}
use gameserver_ingress_contr.Stores.Sync.{Informer, services, ingresses, Waits}

-- `informers.SharedInformerFactory` of k8s.io/client-go: `Informer()` of one kind, `Start`, and
-- which informers have been asked for and run.
pub record Factory (W : Type 0) : Type 0 where
  pub request : Informer → W → W
  pub start : W → W
  pub requested : Informer → W → Bool
  pub running : Informer → W → Bool

abbrev pub Has : Informer → List Informer → Type 0
Has i [] = ⊥
Has i (x ∷ xs) = (x ≡ i) ⊎ Has i xs

-- `Start` starts all informers that have been asked for before, and no others; asking for one does
-- not start it. A cache whose informer does not run does not sync, and waiting does not change
-- which informers run.
pub record IsFactory {W : Type 0} (factory : Factory W) (waits : Waits W) : Type 0 where
  pub request_self : (i : Informer) (w : W) → factory.requested i (factory.request i w) ≡ true
  pub request_keeps :
      (i j : Informer) (w : W)
      → factory.requested i w ≡ true
      → factory.requested i (factory.request j w) ≡ true
  pub request_no_other :
      (i j : Informer) (w : W)
      → i ≢ j
      → factory.requested i (factory.request j w) ≡ factory.requested i w
  pub request_starts_none :
      (i j : Informer) (w : W) → factory.running i (factory.request j w) ≡ factory.running i w
  pub start_runs :
      (i : Informer) (w : W)
      → factory.requested i w ≡ true
      → factory.running i (factory.start w) ≡ true
  pub start_runs_no_other :
      (i : Informer) (w : W)
      → factory.requested i w ≡ false
      → factory.running i (factory.start w) ≡ factory.running i w
  pub sleep_stays :
      (i : Informer) (n : ℕ) (w : W) → factory.running i (waits.sleep n w) ≡ factory.running i w
  pub wait_stays :
      (i : Informer) (n : ℕ) (is : List Informer) (w : W)
      → factory.running i (waits.wait_for_cache_sync n is w).1 ≡ factory.running i w
  pub wait_fails :
      (i : Informer) (n : ℕ) (is : List Informer) (w : W)
      → Has i is
      → factory.running i w ≡ false
      → (waits.wait_for_cache_sync n is w).0 ≡ false

-- The two threads: `go factory.Start(ctx.Done())`, and the calls of `Informer()` in `HasSynced`.
pub data Op : Type 0 where
  request : Informer → Op
  start : Op

abbrev pub requests : List Informer
requests = services ∷ ingresses ∷ []

-- The orders in which they may happen: `start` comes before, between or after the requests.
pub data Schedule : List Informer → List Op → Type 0 where
  start_now : {is : List Informer} → Schedule is (start ∷ map request is)
  request_first :
      {i : Informer} {is : List Informer} {ops : List Op}
      → Schedule is ops
      → Schedule (i ∷ is) (request i ∷ ops)

module _ {W : Type 0} (factory : Factory W) where
  abbrev pub perform : Op → W → W
  perform (request i) = factory.request i
  perform start = factory.start

  unfoldable pub run_ops : List Op → W → W
  run_ops [] w = w
  run_ops (op ∷ ops) w = run_ops ops (perform op w)
