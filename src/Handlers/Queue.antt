-- ===== src/Handlers/Queue.antt =====
-- pkg/controller and pkg/handlers together: what becomes of an event on the work queue.
use gameserver_ingress_contr.Base.{◌≡◌, refl, none, some, [], ◌∷◌, ◌⊎◌, inl, inr}
use gameserver_ingress_contr.Base.Action.{◌>>=◌, attempt, pure}
use gameserver_ingress_contr.Base.Result.{Result, ok, err, panic}
use gameserver_ingress_contr.Controller.{
  Request, Event, created, deleted, updated, forget, done, settle, handle,
}
use gameserver_ingress_contr.Gameserver.{GameServer, gs_object, other_object, from_object}
use gameserver_ingress_contr.Handlers.{Handler, reconcile, on_add, on_update, on_delete}
use gameserver_ingress_contr.Platform.{Libs}
use gameserver_ingress_contr.World.{World, Call}

-- The request of an event.
abbrev pub request_of : Event → Request
request_of (created request _) = request
request_of (deleted request _) = request
request_of (updated request _ _) = request

module _ {E S : Type 0} (libs : Libs E)
    (retry_on_conflict : Call E S GameServer → Call E S GameServer) (h : Handler E S) where
  -- What the handler does to the world for an event, whatever comes of it.
  abbrev pub effect : Event → World S → World S
  effect (created _ obj) w = (reconcile libs retry_on_conflict h (from_object obj) w).1
  effect (deleted _ _) w = w
  effect (updated _ _ obj) w = (reconcile libs retry_on_conflict h (from_object obj) w).1

  settled :
      (request : Request) (x : Result E (Unit {0}) × World S) (w : World S)
      → ((attempt (attempt (λ _. x) >>= λ _. pure tt) >>= λ r. pure (settle request r)) w
          ≡ (ok (forget request ∷ done request ∷ []), x.1))
        ⊎ (((attempt (attempt (λ _. x) >>= λ _. pure tt) >>= λ r. pure (settle request r)) w).0
            ≡ panic)
  unfolding ◌>>=◌
  settled request (ok _, w') w = inl refl
  settled request (err _, w') w = inl refl
  settled request (panic, w') w = inr refl

  -- Unless the handler panics on it, every event is taken off the queue: its request is forgotten
  -- and done, and never put back, whether the reconciliation succeeds or fails; and the world is as
  -- the reconciliation leaves it.
  pub handle_settles :
      (event : Event) (w : World S)
      → (handle libs retry_on_conflict h event w
          ≡ (ok (forget (request_of event) ∷ done (request_of event) ∷ []), effect event w))
        ⊎ ((handle libs retry_on_conflict h event w).0 ≡ panic)
  unfolding handle on_add on_update on_delete ◌>>=◌
  handle_settles (created request obj) w =
      settled request (reconcile libs retry_on_conflict h (from_object obj) w) w
  handle_settles (updated request _ obj) w =
      settled request (reconcile libs retry_on_conflict h (from_object obj) w) w
  handle_settles (deleted request (gs_object (some gs))) w = inl refl
  handle_settles (deleted request (gs_object none)) w = inr refl
  handle_settles (deleted request other_object) w = inr refl
