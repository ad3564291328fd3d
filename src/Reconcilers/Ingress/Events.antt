-- ===== src/Reconcilers/Ingress/Events.antt =====
-- The events that the Ingress reconciler records, over a store that records none itself.
use gameserver_ingress_contr.Base.{refl, some, List, [], ◌∷◌}
use gameserver_ingress_contr.Base.Action.{◌>>=◌}
use gameserver_ingress_contr.Gameserver.{GameServer}
use gameserver_ingress_contr.Objects.{Ingress}
use gameserver_ingress_contr.Options.Ingress.{new_ingress}
use gameserver_ingress_contr.Platform.{Libs}
use gameserver_ingress_contr.Reconcilers.Ingress.{
  IngressStore, ingress_options, reconcile_not_found, reconcile,
}
use gameserver_ingress_contr.Reconcilers.Push.Events.{
  IsQuiet, MakeEvents, ReconcileEvents, push_events, found_or_events,
}
use gameserver_ingress_contr.Recorder.{ingress_kind, creating_event}
use gameserver_ingress_contr.World.{World, Event}

module _ {E S : Type 0} (libs : Libs E) (store : IngressStore E S) (gs : GameServer)
    (quiet_get : IsQuiet (store.get_ingress gs.name gs.namespace))
    (quiet_create : (a : Ingress) → IsQuiet (store.create_ingress a)) where
  abbrev notes : List Event
  notes = creating_event gs ingress_kind ∷ []

  not_found_events :
      (w : World S)
      → let (r, w') = reconcile_not_found libs store gs w in
        MakeEvents libs ingress_kind gs notes w.events r w'.events
  unfolding reconcile_not_found ◌>>=◌
  not_found_events w =
      push_events libs ingress_kind gs notes _ _ store.create_ingress
        (new_ingress libs (some gs) (ingress_options libs gs)) w.events quiet_create _ refl

  -- Over a store whose calls record no events, by what the lookup of the Ingress answers: none is
  -- recorded where it is found, and then it is returned as one that was not made; none where the
  -- lookup fails otherwise than with "not found", and then the error that is returned wraps its
  -- error; where it is not found, that an Ingress is being created, and then that it has been, if one
  -- is returned as made, or that this failed, with the message of the error that the returned one
  -- wraps.
  pub reconcile-ReconcileEvents :
      (w : World S)
      → let (r, w') = reconcile libs store gs w in
        ReconcileEvents libs ingress_kind gs
          (creating_event gs ingress_kind ∷ [])
          w.events
          (store.get_ingress gs.name gs.namespace w).0
          r
          w'.events
  unfolding reconcile
  reconcile-ReconcileEvents =
      found_or_events libs ingress_kind gs notes (store.get_ingress gs.name gs.namespace) _
        (reconcile_not_found libs store gs) quiet_get not_found_events
