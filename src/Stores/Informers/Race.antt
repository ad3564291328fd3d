-- ===== src/Stores/Informers/Race.antt =====
-- What comes of the race between starting the factory and asking it for informers.
use mathlib.Core.Path.{subst}
use gameserver_ingress_contr.Base.{
  ℕ, zero, suc, String, ◌<>◌, ◌≡◌, ◌≢◌, refl, sym, ◌∙◌, Bool, true, false, List, [], ◌∷◌, ◌++◌, map,
  ◌⊎◌, inl, inr,
}
use gameserver_ingress_contr.Base.Action.{Action}
use gameserver_ingress_contr.Base.Result.{Result, err}
use gameserver_ingress_contr.Platform.{Libs}
use gameserver_ingress_contr.Stores.Informers.{
  Factory, IsFactory, Has, Op, request, start, requests, Schedule, start_now, request_first,
  run_ops,
}
use gameserver_ingress_contr.Stores.Retry.Laws.{FailsFor, none_yet, fails, with_retry_fails}
use gameserver_ingress_contr.Stores.Sync.{
  Informer, services, ingresses, Waits, sync_funcs, wait_once, has_synced,
}

abbrev timed_out : String
timed_out = "timed out waiting for K8S cache to sync"

-- What `HasSynced` returns after attempts that have all failed.
abbrev pub not_synced : {E : Type 0} → Libs E → Result E (Unit {0})
not_synced libs =
    err (
      libs.wrap (libs.errorf timed_out) ("retry failed after " <> libs.format_int 5 <> " attempts"))

module _ {E W : Type 0} (libs : Libs E) (waits : Waits W) (factory : Factory W)
    (law : IsFactory factory waits) where
  -- Requests start nothing.
  requests_start_none :
      (i : Informer) (is : List Informer) (w : W)
      → factory.running i (run_ops factory (map request is) w) ≡ factory.running i w
  unfolding run_ops
  requests_start_none i [] w = refl
  requests_start_none i (j ∷ is) w =
      requests_start_none i is (factory.request j w) ∙ law.request_starts_none i j w

  requests_keep :
      (i : Informer) (is : List Informer) (w : W)
      → factory.requested i w ≡ true
      → factory.requested i (run_ops factory (map request is) w) ≡ true
  unfolding run_ops
  requests_keep i [] w h = h
  requests_keep i (j ∷ is) w h =
      requests_keep i is (factory.request j w) (law.request_keeps i j w h)

  all_requested :
      (i : Informer) (is : List Informer) (w : W)
      → Has i is
      → factory.requested i (run_ops factory (map request is) w) ≡ true
  unfolding run_ops
  all_requested i [] w h = absurd h
  all_requested i (j ∷ is) w (inl same) = requests_keep i is (factory.request j w) (
      subst (λ k. factory.requested i (factory.request k w) ≡ true) (sym same)
        (law.request_self i w))
  all_requested i (j ∷ is) w (inr h) = all_requested i is (factory.request j w) h

  -- Attempts at a wait for an informer that does not run.
  module _ (i : Informer) (text : String) (informers : List Informer)
      (there : Has i informers) where
    attempt : Action E W (Unit {0})
    attempt = wait_once libs waits text informers

    attempt_fails :
        (w : W)
        → factory.running i w ≡ false
        → (w' : W) × (attempt (waits.sleep 5 w) ≡ (err (libs.errorf text), w'))
          × (factory.running i w' ≡ false)
    unfolding attempt wait_once
    attempt_fails w stopped =
        let asleep = law.sleep_stays i 5 w ∙ stopped in
        let failed = law.wait_fails i 15 informers (waits.sleep 5 w) there asleep in
        (
          (waits.wait_for_cache_sync 15 informers (waits.sleep 5 w)).1,
          rw failed refl,
          law.wait_stays i 15 informers (waits.sleep 5 w) ∙ asleep,
        )

    attempts_fail :
        (k : ℕ) (w : W)
        → factory.running i w ≡ false
        → (w' : W) × FailsFor (waits.sleep 5) attempt k w w' × (factory.running i w' ≡ false)
    attempts_fail zero w stopped = (w, none_yet, stopped)
    attempts_fail (suc k) w stopped =
        let (w1, failed, stopped1) = attempt_fails w stopped in
        let (w2, rest, stopped2) = attempts_fail k w1 stopped1 in (w2, fails failed rest, stopped2)

  -- The wait of `Store.HasSynced` fails if one of its informers does not run.
  has_synced_fails :
      (i : Informer) (gateway_enabled : Bool) (w : W)
      → Has i (sync_funcs gateway_enabled)
      → factory.running i w ≡ false
      → (w' : W) × (has_synced libs waits gateway_enabled w ≡ (not_synced libs, w'))
  unfolding has_synced attempt
  has_synced_fails i gateway_enabled w there stopped =
      let (v, row, stopped') =
        attempts_fail i timed_out (sync_funcs gateway_enabled) there 4 w stopped in
      let (w', last, _) = attempt_fails i timed_out (sync_funcs gateway_enabled) there v stopped' in
      (w', with_retry_fails libs (waits.sleep 5) _ 5 row last)

  -- Nothing has been asked for, and nothing runs.
  abbrev pub IsFresh : W → Type 0
  IsFresh w = (i : Informer) → (factory.requested i w ≡ false) × (factory.running i w ≡ false)

  ingresses-ne-services : ingresses ≢ services
  ingresses-ne-services e = absurd cc

  -- With a factory that starts just the informers that have been asked for before, and of which
  -- nothing has been asked: in whatever order the goroutine that starts the factory and the requests
  -- of `HasSynced` happen, either the start comes last and all the informers that were asked for
  -- run, or `HasSynced` fails after its five attempts, for then no attempt can succeed.
  pub new_store_race :
      {ops : List Op} (w : W) (gateway_enabled : Bool)
      → Schedule requests ops
      → IsFresh w
      → ((ops ≡ map request requests ++ start ∷ [])
          × ((i : Informer) → Has i requests → factory.running i (run_ops factory ops w) ≡ true))
        ⊎ ((w' : W) × (has_synced libs waits gateway_enabled (run_ops factory ops w)
              ≡ (not_synced libs, w')))
  unfolding run_ops
  new_store_race w gateway_enabled start_now fresh = inr (
      has_synced_fails ingresses gateway_enabled _ (inr (inl refl)) (
        requests_start_none ingresses requests (factory.start w)
        ∙ law.start_runs_no_other ingresses w (fresh ingresses).0
        ∙ (fresh ingresses).1))
  new_store_race w gateway_enabled (request_first start_now) fresh =
      let w1 = factory.request services w in
      inr (
        has_synced_fails ingresses gateway_enabled _ (inr (inl refl)) (
          law.request_starts_none ingresses ingresses (factory.start w1)
          ∙ law.start_runs_no_other ingresses w1 (
              law.request_no_other ingresses services w ingresses-ne-services ∙ (fresh ingresses).0)
          ∙ law.request_starts_none ingresses services w
          ∙ (fresh ingresses).1))
  new_store_race w gateway_enabled (request_first (request_first start_now)) fresh =
      inl (refl, λ i there. law.start_runs i _ (all_requested i requests w there))
