-- ===== src/Reconcilers/Gateway/Events.antt =====
-- The events that the gateway reconciler records, over a store that records none itself.
use mathlib.Core.Path.{subst}
use mathlib.Core.List.{append_assoc, append-nil}
use gameserver_ingress_contr.Base.{
  String, ◌<>◌, ◌≡◌, refl, sym, ap, Bool, Option, some, none, List, [], ◌∷◌, ◌++◌,
}
use gameserver_ingress_contr.Base.Action.{◌>>=◌}
use gameserver_ingress_contr.Gameserver.{
  GameServer, has_annotation, octops_annotation_terminate_tls, octops_annotation_issuer_name,
}
use gameserver_ingress_contr.Objects.{HttpRoute}
use gameserver_ingress_contr.Options.Gateway.{new_http_route}
use gameserver_ingress_contr.Platform.{Libs}
use gameserver_ingress_contr.Reconcilers.Gateway.{
  HttpRouteStore, http_route_options, warn_if_present, terminate_tls_warning, issuer_warning,
  reconcile_not_found, reconcile,
}
use gameserver_ingress_contr.Reconcilers.Push.{push}
use gameserver_ingress_contr.Reconcilers.Push.Events.{
  IsQuiet, MakeEvents, ReconcileEvents, made, push_events, found_or_events,
}
use gameserver_ingress_contr.Recorder.{http_route_kind, creating_event, warning_event}
use gameserver_ingress_contr.World.{World, Call, Event}

-- The warning about an annotation that is there, although it has no effect.
abbrev pub warning_if : GameServer → String → Option String → List Event
warning_if gs message none = []
warning_if gs message (some _) = warning_event gs http_route_kind message ∷ []

-- What is recorded before an HTTPRoute is made.
abbrev pub route_notes : GameServer → List Event
route_notes gs =
    creating_event gs http_route_kind
    ∷ (warning_if gs terminate_tls_warning (has_annotation gs octops_annotation_terminate_tls)
        ++ warning_if gs issuer_warning (has_annotation gs octops_annotation_issuer_name))

module _ {E S : Type 0} (libs : Libs E) (store : HttpRouteStore E S) (gs : GameServer)
    (quiet_get : IsQuiet (store.get_http_route gs.name gs.namespace))
    (quiet_create : (a : HttpRoute) → IsQuiet (store.create_http_route a)) where
  -- What follows the two warnings.
  abbrev rest : Call E S (Option HttpRoute × Bool)
  rest = made libs http_route_kind gs (route_notes gs) (
      push libs http_route_kind gs ("failed to create HTTPRoute for gameserver " <> gs.name)
        (λ route. "failed to push HTTPRoute " <> route.name <> " for gameserver " <> gs.name)
        store.create_http_route (new_http_route libs (some gs) (http_route_options libs gs)))

  -- The warnings are recorded one after the other.
  warned :
      (tls issuer : Option String) (v : World S)
      → ((warn_if_present gs terminate_tls_warning tls >>= λ _.
            warn_if_present gs issuer_warning issuer >>= λ _. rest)
          v)
        ≡ rest (record v {
          events =
              v.events
              ++ (warning_if gs terminate_tls_warning tls ++ warning_if gs issuer_warning issuer);
        })
  unfolding ◌>>=◌
  warned none none v = rw append-nil refl
  warned none (some _) v = refl
  warned (some _) none v = refl
  warned (some _) (some _) v =
      ap (λ l. rest (record v { events = l }))
        (append_assoc v.events (warning_event gs http_route_kind terminate_tls_warning ∷ [])
          (warning_event gs http_route_kind issuer_warning ∷ []))

  not_found_events :
      (w : World S)
      → let (r, w') = reconcile_not_found libs store gs w in
        MakeEvents libs http_route_kind gs (route_notes gs) w.events r w'.events
  unfolding reconcile_not_found ◌>>=◌
  not_found_events w =
      let warnings =
        warning_if gs terminate_tls_warning (has_annotation gs octops_annotation_terminate_tls)
        ++ warning_if gs issuer_warning (has_annotation gs octops_annotation_issuer_name) in
      let creating = creating_event gs http_route_kind ∷ [] in
      subst (λ x. MakeEvents libs http_route_kind gs (route_notes gs) w.events x.0 x.1.events)
        (sym (
          warned (has_annotation gs octops_annotation_terminate_tls)
            (has_annotation gs octops_annotation_issuer_name)
            (record w { events = w.events ++ creating })))
        (push_events libs http_route_kind gs (route_notes gs) _ _ store.create_http_route
          (new_http_route libs (some gs) (http_route_options libs gs)) w.events quiet_create _
          (append_assoc w.events creating warnings))

  -- Over a store whose calls record no events, by what the lookup of the HTTPRoute answers: none is
  -- recorded where it is found, and then it is returned as one that was not made; none where the
  -- lookup fails otherwise than with "not found", and then the error that is returned wraps its
  -- error; where it is not found, that an HTTPRoute is being created, a warning for each of the
  -- annotations for TLS and for the issuer that the game server has, in this order, and then that it
  -- has been created, if one is returned as made, or that this failed, with the message of the error
  -- that the returned one wraps.
  pub reconcile-route_notes :
      (w : World S)
      → let (r, w') = reconcile libs store gs w in
        ReconcileEvents libs http_route_kind gs
          (route_notes gs)
          w.events
          (store.get_http_route gs.name gs.namespace w).0
          r
          w'.events
  unfolding reconcile
  reconcile-route_notes =
      found_or_events libs http_route_kind gs (route_notes gs)
        (store.get_http_route gs.name gs.namespace) _ (reconcile_not_found libs store gs) quiet_get
        not_found_events
