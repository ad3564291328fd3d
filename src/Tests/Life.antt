-- ===== src/Tests/Life.antt =====
-- The theorems on the life of the process, at the test cluster.
use mathlib.Core.Path.{subst}
use gameserver_ingress_contr.Base.{
  sym, ℕ, ◌≡◌, refl, Bool, true, false, ◌||◌, Option, none, some, List, [], ◌∷◌, inl, inr,
  Bool-cases, arith,
}
use gameserver_ingress_contr.Controller.{Event, created}
use gameserver_ingress_contr.Controller.Life.{
  in_start, returned, Process, alive, Label, internal, delivered, received, started, delivers,
  others_act, manager_returns, receives, Steps, stay, next,
}
use gameserver_ingress_contr.Controller.Life.Served.{IsGentle, handle_ok, Steps-served}
use gameserver_ingress_contr.Controller.Life.Terminated.{In, AreCaught, Waits, Steps-Waits}
use gameserver_ingress_contr.Gameserver.{gs_object}
use gameserver_ingress_contr.Handlers.Lands.{HasService, HasRoute, HasRoute-IsLasting}
use gameserver_ingress_contr.Objects.{Service}
use gameserver_ingress_contr.Runtime.Signals.{Signal, interrupt, terminate, Signals}
use gameserver_ingress_contr.Tests.Handlers.{
  fresh, handler, after, first_pass, domain_server-IsEligible, request,
}
use gameserver_ingress_contr.Tests.Live.{store, agones, is_live, retry-Attempted}
use gameserver_ingress_contr.Tests.Objects.{domain_service}
use gameserver_ingress_contr.Tests.Options.{domain_server-IsMap}
use gameserver_ingress_contr.Tests.Passes.{domain_server-IsReadyFor}
use gameserver_ingress_contr.Tests.Platform.{
  Cluster, libs, libs-IsLawful, domain_server, retry_on_conflict, game_servers, services,
}
use gameserver_ingress_contr.Tests.Up.{IsListed, is_up, settled}

abbrev same : Signal → Signal → Bool
same interrupt interrupt = true
same terminate terminate = true
same _ _ = false

same→eq : (r s : Signal) → same r s ≡ true → r ≡ s
same→eq interrupt interrupt e = refl
same→eq interrupt terminate e = absurd cc
same→eq terminate interrupt e = absurd cc
same→eq terminate terminate e = refl

abbrev is_in : Signal → List Signal → Bool
is_in s [] = false
is_in s (r ∷ rs) = same r s || is_in s rs

is_in→In : (s : Signal) (rs : List Signal) → is_in s rs ≡ true → In s rs
is_in→In s [] e = absurd cc
is_in→In s (r ∷ rs) e = elim (Bool-cases (same r s)) [
  | inl here ↦ inl (same→eq r s here)
  | inr there ↦ inr (is_in→In s rs (ground arith))
]

abbrev any_in : List Signal → List Signal → Bool
any_in sigs [] = false
any_in sigs (r ∷ rs) = is_in r sigs || any_in sigs rs

any_in→In : (sigs rs : List Signal) → any_in sigs rs ≡ true → (s : Signal) × In s sigs × In s rs
any_in→In sigs [] e = absurd cc
any_in→In sigs (r ∷ rs) e = elim (Bool-cases (is_in r sigs)) [
  | inl here ↦ (r, is_in→In r sigs here, inl refl)
  | inr there ↦
      let (s, registered, later) = any_in→In sigs rs (ground arith) in (s, registered, inr later)
]

-- The second signal after the handler has been set up ends the process, and so does any before.
abbrev ended_with : List Signal → List Signal → Option ℕ
ended_with (_ ∷ _) _ = some 1
ended_with [] (_ ∷ (_ ∷ _)) = some 1
ended_with [] _ = none

abbrev pub signals : Signals
signals = record { notify_context = any_in; process_ends = ended_with }

signals-AreCaught : AreCaught signals
signals-AreCaught = record { done_by = any_in→In; none_survived = refl; one_survived = λ s. refl }

abbrev pub first_event : Event
first_event = created request (gs_object (some domain_server))

-- Others create Services.
abbrev pub OthersAct : Cluster → Cluster → Type 0
OthersAct s s' = (a : Service) × (s' ≡ (services.create (a.namespace) a s).1)

pub OthersAct-IsGentle : IsGentle IsListed store domain_server OthersAct
OthersAct-IsGentle = record {
  keeps_up = λ s s' (a, e) p. subst IsListed (sym e) (is_up.services.keeps (a.namespace) a s p);
  keeps_service = λ s s' (a, e) h. subst (HasService store domain_server) (sym e) (
      (is_live.services_last domain_server.namespace domain_server.name).services_keep (a.namespace)
        a s h);
  keeps_route = λ s s' (a, e) h. subst (HasRoute store domain_server) (sym e) (
      (HasRoute-IsLasting store domain_server libs agones is_live).services_keep (a.namespace) a s
        h);
}

abbrev foreign : Service
foreign = record domain_service { meta = record (domain_service.meta) { name = "foreign" } }

-- The game server's first event, a Service of somebody else, one SIGTERM, and a manager that stops.
abbrev pub labels : List Label
labels = delivered first_event ∷ internal ∷ received terminate ∷ internal ∷ []

abbrev launched : Process Cluster
launched = record (started fresh) { manager = in_start }

abbrev stopped : Process Cluster
stopped = record {
  manager = returned;
  before = [];
  after = terminate ∷ [];
  world = record after { cluster = (services.create (foreign.namespace) foreign after.cluster).1 };
}

run_to_stop : Steps libs retry_on_conflict handler signals OthersAct labels launched (alive stopped)
run_to_stop =
    next
      (delivers first_event refl refl
        (handle_ok libs retry_on_conflict handler domain_server first_event fresh refl first_pass))
      (next (others_act (foreign, refl))
        (next (receives terminate) (next (manager_returns refl) stay)))

Steps-served_example :
    HasService store domain_server stopped.world.cluster
    × HasRoute store domain_server stopped.world.cluster
Steps-served_example =
    Steps-served libs libs-IsLawful IsListed store game_servers true retry_on_conflict
      retry-Attempted domain_server is_up settled signals OthersAct OthersAct-IsGentle
      domain_server-IsMap domain_server-IsReadyFor is_live domain_server-IsEligible run_to_stop
      (refl, tt) (inl refl)

Steps-Waits_example : Waits signals signals-AreCaught (alive stopped)
Steps-Waits_example =
    Steps-Waits signals signals-AreCaught libs retry_on_conflict handler OthersAct run_to_stop tt
      refl refl
