-- ===== src/Recorder.antt =====
-- pkg/record/recorder.go: the events that the controller records on a game server.
use gameserver_ingress_contr.Base.{String, ◌<>◌, [], ◌∷◌, ◌++◌}
use gameserver_ingress_contr.Base.Action.{modify}
use gameserver_ingress_contr.Gameserver.{GameServer}
use gameserver_ingress_contr.Platform.{Libs}
use gameserver_ingress_contr.World.{Event, Call}

abbrev pub ingress_kind : String
ingress_kind = "Ingress"

abbrev pub service_kind : String
service_kind = "Service"

abbrev pub http_route_kind : String
http_route_kind = "HTTPRoute"

abbrev pub event_type_normal : String
event_type_normal = "Normal"

abbrev pub event_type_warning : String
event_type_warning = "Warning"

abbrev pub reason_reconcile_failed : String
reason_reconcile_failed = "Failed"

abbrev pub reason_reconciled : String
reason_reconciled = "Created"

abbrev pub reason_reconcile_creating : String
reason_reconcile_creating = "Creating"

abbrev pub reason_reconcile_updated : String
reason_reconcile_updated = "Updated"

-- `k8sutil.Namespaced`
abbrev pub namespaced : String → String → String
namespaced namespace name = namespace <> "/" <> name

-- The event of one call of `recordEvent`.
abbrev pub event : GameServer → String → String → String → Event
event gs event_type reason message = record {
  namespace = gs.namespace;
  name = gs.name;
  event_type = event_type;
  reason = reason;
  message = message;
}

abbrev pub failed_event : GameServer → String → String → Event
failed_event gs kind message = event gs event_type_warning reason_reconcile_failed (
    "Failed to create "
    <> kind
    <> " for gameserver "
    <> namespaced gs.namespace gs.name
    <> ": "
    <> message)

abbrev pub success_event : GameServer → String → Event
success_event gs kind =
    event gs event_type_normal reason_reconciled
      (kind <> " created for gameserver " <> namespaced gs.namespace gs.name)

abbrev pub creating_event : GameServer → String → Event
creating_event gs kind =
    event gs event_type_normal reason_reconcile_creating
      ("Creating " <> kind <> " for gameserver " <> namespaced gs.namespace gs.name)

abbrev pub warning_event : GameServer → String → String → Event
warning_event gs kind message =
    event gs event_type_warning reason_reconcile_failed
      (kind <> " warning for gameserver " <> namespaced gs.namespace gs.name <> ": " <> message)

abbrev pub updated_event : GameServer → String → Event
updated_event gs message =
    event gs event_type_normal reason_reconcile_updated
      (message <> " for " <> namespaced gs.namespace gs.name)

-- `r.recorder.Event`
abbrev pub send : {E S : Type 0} → Event → Call E S (Unit {0})
send e = modify (λ w. record w { events = w.events ++ (e ∷ []) })

module _ {E S : Type 0} (gs : GameServer) where
  abbrev pub record_success : String → Call E S (Unit {0})
  record_success kind = send (success_event gs kind)

  abbrev pub record_creating : String → Call E S (Unit {0})
  record_creating kind = send (creating_event gs kind)

  abbrev pub record_warning : String → String → Call E S (Unit {0})
  record_warning kind message = send (warning_event gs kind message)

  abbrev pub record_event : String → Call E S (Unit {0})
  record_event message = send (updated_event gs message)

  abbrev pub record_failed : Libs E → String → E → Call E S (Unit {0})
  record_failed libs kind e = send (failed_event gs kind (libs.message e))
