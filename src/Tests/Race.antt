-- ===== src/Tests/Race.antt =====
-- The race at the start of the informers, over a factory that keeps its two sets.
use mathlib.Core.Logic.{ite, if_pos, if_neg}
use gameserver_ingress_contr.Base.{
  ◌≡◌, refl, Bool, true, false, ◌&&◌, ◌||◌, List, [], ◌∷◌, ◌++◌, map, ◌⊎◌, inl, inr, arith,
}
use gameserver_ingress_contr.Stores.Informers.{
  Factory, IsFactory, Has, Op, request, start, requests, start_now, request_first, run_ops,
}
use gameserver_ingress_contr.Stores.Informers.Race.{not_synced, new_store_race}
use gameserver_ingress_contr.Stores.Sync.{Informer, services, ingresses, Waits, has_synced}
use gameserver_ingress_contr.Tests.Platform.{libs}

record Caches : Type 0 where
  requested : Informer → Bool
  running : Informer → Bool

Informer-discrete : Discrete Informer
Informer-discrete = hlevel

abbrev same : Informer → Informer → Bool
same i j = ite (Informer-discrete i j) true false

abbrev all_running : (Informer → Bool) → List Informer → Bool
all_running running [] = true
all_running running (i ∷ is) = running i && all_running running is

abbrev factory : Factory Caches
factory = record {
  request = λ j w. record w { requested = λ i. same i j || w.requested i };
  start = λ w. record w { running = λ i. w.requested i || w.running i };
  requested = λ i w. w.requested i;
  running = λ i w. w.running i;
}

abbrev waits : Waits Caches
waits = record { sleep = λ n w. w; wait_for_cache_sync = λ n is w. (all_running w.running is, w) }

not_all :
    (running : Informer → Bool) (i : Informer) (is : List Informer)
    → Has i is
    → running i ≡ false
    → all_running running is ≡ false
not_all running i [] h e = absurd h
not_all running i (j ∷ is) (inl same) e = rw (same, e) refl
not_all running i (j ∷ is) (inr h) e = let rest = not_all running i is h e in ground arith

factory-IsFactory : IsFactory factory waits
factory-IsFactory = record {
  request_self = λ i w. rw (if_pos (Informer-discrete i i) refl) refl;
  request_keeps = λ i j w h. ground arith;
  request_no_other = λ i j w ne. rw (if_neg (Informer-discrete i j) ne) refl;
  request_starts_none = λ i j w. refl;
  start_runs = λ i w h. rw h refl;
  start_runs_no_other = λ i w h. rw h refl;
  sleep_stays = λ i n w. refl;
  wait_stays = λ i n is w. refl;
  wait_fails = λ i n is w h e. not_all w.running i is h e;
}

abbrev nothing : Caches
nothing = record { requested = λ _. false; running = λ _. false }

-- The factory is started between the two requests.
abbrev early : List Op
early = request services ∷ start ∷ request ingresses ∷ []

new_store_race_example :
    ((early ≡ map request requests ++ start ∷ [])
      × ((i : Informer)
          → Has i requests
          → factory.running i (run_ops factory early nothing) ≡ true))
    ⊎ ((w' : Caches) × (has_synced libs waits false (run_ops factory early nothing)
          ≡ (not_synced libs, w')))
new_store_race_example =
    new_store_race libs waits factory factory-IsFactory {ops = early} nothing false
      (request_first start_now) λ i. (refl, refl)
