-- ===== src/Controller.antt =====
-- pkg/controller/gameserver_controller.go and pkg/reconcilers/reconciler.go: the event functions of
-- the watch and the work queue.
pub mod Life
use gameserver_ingress_contr.Base.{String, Bool, true, if◌then◌else◌, List, [], ◌∷◌}
use gameserver_ingress_contr.Base.Result
use gameserver_ingress_contr.Base.Result.{Result, ok}
use gameserver_ingress_contr.Base.Action.{◌>>=◌, pure, attempt}
use gameserver_ingress_contr.Gameserver.{GameServer, Object}
use gameserver_ingress_contr.Handlers.{Handler, on_add, on_update, on_delete}
use gameserver_ingress_contr.Platform.{Libs}
use gameserver_ingress_contr.World.{Call}

pub record Request : Type 0 where
  pub namespace : String
  pub name : String

-- The calls on the work queue.
pub data QueueCall : Type 0 where
  add_rate_limited forget done : Request → QueueCall

-- `NewGameServerController`, where the builder of controller-runtime is done: what is made is the
-- manager with a logger beside it.
abbrev pub new_game_server_controller : {E M : Type 0} → (M → Result E (Unit {0})) → M → Result E M
new_game_server_controller complete mgr = Result.◌>>=◌ (complete mgr) λ _. ok mgr

-- An event with the name and the namespace of its object.
pub data Event : Type 0 where
  created deleted : Request → Object → Event
  updated : Request → Object → Object → Event

-- `Reconciler.Reconcile` of pkg/reconcilers/reconciler.go, with which the builder completes the
-- controller: it is called for each request that the controller has queued itself.
abbrev pub reconcile_request : {E S : Type 0} → Request → Call E S (Unit {0})
reconcile_request request = pure tt

-- What follows the handler in each event function.
abbrev pub settle : {E : Type 0} → Request → Result E (Unit {0}) → List QueueCall
settle request (ok _) = forget request ∷ done request ∷ []
settle request _ = add_rate_limited request ∷ []

-- The predicates of the event filter.
abbrev pub event_filter : Event → Bool
event_filter event = true

module _ {E S : Type 0} (libs : Libs E)
    (retry_on_conflict : Call E S GameServer → Call E S GameServer) (h : Handler E S) where
  unfoldable pub handle : Event → Call E S (List QueueCall)
  handle (created request obj) =
      attempt (on_add libs retry_on_conflict h obj) >>= λ r. pure (settle request r)
  handle (updated request old_obj new_obj) =
      attempt (on_update libs retry_on_conflict h old_obj new_obj) >>= λ r. pure (settle request r)
  handle (deleted request obj) =
      attempt (on_delete libs retry_on_conflict h obj) >>= λ r. pure (settle request r)
