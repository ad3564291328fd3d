-- ===== src/Controller/Life.antt =====
-- pkg/controller/gameserver_controller.go: `Start`, from its call to the end of the process, and the
-- goroutine that it starts.
pub mod Keeps
pub mod Served
pub mod Terminated
use gameserver_ingress_contr.Base.{ℕ, ◌≡◌, true, Option, some, List, [], ◌∷◌, ◌++◌}
use gameserver_ingress_contr.Base.Result.{ok, panic}
use gameserver_ingress_contr.Controller.{
  Request, Event, QueueCall, event_filter, handle, reconcile_request,
}
use gameserver_ingress_contr.Gameserver.{GameServer}
use gameserver_ingress_contr.Handlers.{Handler}
use gameserver_ingress_contr.Platform.{Libs}
use gameserver_ingress_contr.Runtime.Signals.{Signal, Signals, setup_signal}
use gameserver_ingress_contr.World.{World, Call}

-- The goroutine: before it runs, in its call of `Manager.Start`, and after that has returned.
pub data Phase : Type 0 where
  not_launched in_start returned : Phase

-- The process while `Start` waits for its context, with the signals received before and after the
-- goroutine has set up its own handler of signals.
pub record Process (S : Type 0) : Type 0 where
  pub manager : Phase
  pub before : List Signal
  pub after : List Signal
  pub world : World S

pub data Life (S : Type 0) : Type 0 where
  alive : Process S → Life S
  exited : ℕ → World S → Life S

-- What a step does that the outside can see.
pub data Label : Type 0 where
  internal : Label
  delivered : Event → Label
  received : Signal → Label

-- The status of a process that panics.
abbrev pub panic_status : ℕ
panic_status = 2

module _ {S : Type 0} where
  -- `Start` is called.
  abbrev pub started : World S → Process S
  started w = record { manager = not_launched; before = []; after = []; world = w }

  abbrev pub signal_received : Process S → Signal → Phase → Process S
  signal_received p s not_launched = record p { before = p.before ++ s ∷ [] }
  signal_received p s _ = record p { after = p.after ++ s ∷ [] }

module _ {E S : Type 0} (libs : Libs E)
    (retry_on_conflict : Call E S GameServer → Call E S GameServer) (h : Handler E S)
    (signals : Signals) (others : S → S → Type 0) where
  -- The steps of both goroutines and of what is around them; `others` is what anybody else may do
  -- to the cluster between two events. The error of `Manager.Start` is
  -- dropped, so how it returns makes no difference; `Start` returns nil when its context is done,
  -- and then the process ends.
  pub data Step : Label → Process S → Life S → Type 0 where
    launches :
        {p : Process S}
        → p.manager ≡ not_launched
        → Step internal p (alive (record p { manager = in_start }))
    delivers :
        {p : Process S} {calls : List QueueCall} {w : World S} (event : Event)
        → p.manager ≡ in_start
        → event_filter event ≡ true
        → handle libs retry_on_conflict h event p.world ≡ (ok calls, w)
        → Step (delivered event) p (alive (record p { world = w }))
    panics :
        {p : Process S} {w : World S} (event : Event)
        → p.manager ≡ in_start
        → event_filter event ≡ true
        → handle libs retry_on_conflict h event p.world ≡ (panic, w)
        → Step (delivered event) p (exited panic_status w)
    reconciles :
        {p : Process S} {w : World S} (request : Request)
        → p.manager ≡ in_start
        → reconcile_request {E = E} request p.world ≡ (ok tt, w)
        → Step internal p (alive (record p { world = w }))
    others_act :
        {p : Process S} {s : S}
        → others p.world.cluster s
        → Step internal p (alive (record p { world = record (p.world) { cluster = s } }))
    manager_returns :
        {p : Process S}
        → p.manager ≡ in_start
        → Step internal p (alive (record p { manager = returned }))
    start_returns :
        {p : Process S}
        → setup_signal signals (p.before ++ p.after) ≡ true
        → Step internal p (exited 0 p.world)
    receives :
        {p : Process S} (s : Signal) → Step (received s) p (alive (signal_received p s p.manager))
    ended_by_signals :
        {p : Process S} {status : ℕ}
        → signals.process_ends p.before p.after ≡ some status
        → Step internal p (exited status p.world)

  -- Steps one after the other.
  pub data Steps : List Label → Process S → Life S → Type 0 where
    stay : {p : Process S} → Steps [] p (alive p)
    last :
        {label : Label} {p : Process S} {status : ℕ} {w : World S}
        → Step label p (exited status w)
        → Steps (label ∷ []) p (exited status w)
    next :
        {label : Label} {labels : List Label} {p q : Process S} {l : Life S}
        → Step label p (alive q)
        → Steps labels q l
        → Steps (label ∷ labels) p l
