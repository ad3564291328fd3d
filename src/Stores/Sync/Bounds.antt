-- ===== src/Stores/Sync/Bounds.antt =====
-- How long the waits for the caches take.
use Prim.Native.Nat.{◌*◌}
use mathlib.Core.Path.{subst}
use gameserver_ingress_contr.Base.{
  ℕ, zero, suc, ◌+◌, ◌-◌, ◌≤◌, ◌≡◌, refl, String, Bool, List, [], ◌∷◌, arith,
}
use gameserver_ingress_contr.Base.Action.{Action}
use gameserver_ingress_contr.Base.Result.{Result, ok, err, panic}
use gameserver_ingress_contr.Platform.{Libs}
use gameserver_ingress_contr.Stores.Retry.{with_retry, retry_loop, next_attempt, attempts}
use gameserver_ingress_contr.Stores.Sync.{
  Informer, Waits, wait_once, has_synced, agones_has_synced, sync_funcs, game_servers,
}

-- The clock, in seconds: a sleep takes as long as it says, or longer by some allowance for the
-- scheduler, and a wait ends with its context, with the same allowance.
pub record IsTimed {W : Type 0} (waits : Waits W) (now : W → ℕ) (slack : ℕ) : Type 0 where
  pub slept_least : (n : ℕ) (w : W) → now w + n ≤ now (waits.sleep n w)
  pub slept_most : (n : ℕ) (w : W) → now (waits.sleep n w) ≤ now w + n + slack
  pub waited_least :
      (n : ℕ) (is : List Informer) (w : W) → now w ≤ now (waits.wait_for_cache_sync n is w).1
  pub waited_most :
      (n : ℕ) (is : List Informer) (w : W)
      → now (waits.wait_for_cache_sync n is w).1 ≤ now w + n + slack

attempts_pos : (n : ℕ) → attempts n - 1 + 1 ≡ attempts n
attempts_pos zero = refl
attempts_pos (suc n) = omega arith

module _ {E W : Type 0} (libs : Libs E) (now : W → ℕ) (sleep : W → W) (f : Action E W (Unit {0}))
    (least most : ℕ)
    (between : (w : W)
      → (now w + least ≤ now (f (sleep w)).1) × (now (f (sleep w)).1 ≤ now w + most)) where
  -- Some attempts, from one to `n + 1`, each of a bounded length.
  loop-lasts :
      (n : ℕ) (w : W)
      → (now w + least ≤ now (retry_loop libs sleep n f w).1)
        × (now (retry_loop libs sleep n f w).1 ≤ now w + (n + 1) * most)
  unfolding retry_loop
  loop-lasts zero w = let (lo, hi) = between w in (lo, grind arith)
  loop-lasts (suc n) w = go (f (sleep w)) (between w) (λ v. loop-lasts n v)
    where
      go :
          (x : Result E (Unit {0}) × W)
          → (now w + least ≤ now x.1) × (now x.1 ≤ now w + most)
          → ((v : W)
              → (now v + least ≤ now (retry_loop libs sleep n f v).1)
                × (now (retry_loop libs sleep n f v).1 ≤ now v + (n + 1) * most))
          → (now w + least ≤ now (next_attempt (retry_loop libs sleep n f) x).1)
            × (now (next_attempt (retry_loop libs sleep n f) x).1 ≤ now w + (suc n + 1) * most)
      go (ok _, v) (lo, hi) rest = (lo, grind arith)
      go (err _, v) (lo, hi) rest = let (rlo, rhi) = rest v in (omega arith, grind arith)
      go (panic, v) (lo, hi) rest = (lo, grind arith)

  -- `withRetry` takes as long as one attempt at least, and as long as all of them at most.
  pub with_retry-lasts :
      (max_retries : ℕ) (w : W)
      → (now w + least ≤ now (with_retry libs sleep max_retries f w).1)
        × (now (with_retry libs sleep max_retries f w).1 ≤ now w + attempts max_retries * most)
  unfolding with_retry
  with_retry-lasts max_retries w =
      let (lo, hi) = loop-lasts (attempts max_retries - 1) w in
      let all : attempts max_retries - 1 + 1 ≡ attempts max_retries = attempts_pos max_retries in
      (
        lo,
        subst (λ k. now (retry_loop libs sleep (attempts max_retries - 1) f w).1 ≤ now w + k * most)
            all hi,
      )

module _ {E W : Type 0} (libs : Libs E) (waits : Waits W) (now : W → ℕ) (slack : ℕ)
    (timed : IsTimed waits now slack) where
  attempt-lasts :
      (text : String) (informers : List Informer) (w : W)
      → (now w + 5 ≤ now (wait_once libs waits text informers (waits.sleep 5 w)).1)
        × (now (wait_once libs waits text informers (waits.sleep 5 w)).1 ≤ now w + (20 + 2 * slack))
  unfolding wait_once
  attempt-lasts text informers w =
      let a = timed.slept_least 5 w in
      let b = timed.slept_most 5 w in
      let c = timed.waited_least 15 informers (waits.sleep 5 w) in
      let d = timed.waited_most 15 informers (waits.sleep 5 w) in (omega arith, omega arith)

  -- On a clock by which sleeps and waits end on time, but for some slack, both waits of the start
  -- take 5 seconds at least, also where the caches have synced before, and 100 seconds at most,
  -- but for ten times the slack, whether they end with success or with an error.
  pub has_synced-lasts :
      (gateway_enabled : Bool) (w : W)
      → ((now w + 5 ≤ now (has_synced libs waits gateway_enabled w).1)
          × (now (has_synced libs waits gateway_enabled w).1 ≤ now w + (100 + 10 * slack)))
        × ((now w + 5 ≤ now (agones_has_synced libs waits w).1)
            × (now (agones_has_synced libs waits w).1 ≤ now w + (100 + 10 * slack)))
  unfolding has_synced agones_has_synced
  has_synced-lasts gateway_enabled w =
      let (a, b) =
        with_retry-lasts libs now (waits.sleep 5) _ 5 (20 + 2 * slack)
          (attempt-lasts "timed out waiting for K8S cache to sync" (sync_funcs gateway_enabled)) 5
          w in
      let (c, d) =
        with_retry-lasts libs now (waits.sleep 5) _ 5 (20 + 2 * slack)
          (attempt-lasts "timed out waiting for Agones cache to sync" (game_servers ∷ [])) 5 w in
      ((a, omega arith), (c, omega arith))
