-- ===== src/Gameserver.antt =====
-- pkg/gameserver/gameserver.go: the game server as the controller reads it, and the questions that
-- the other packages ask of its annotations and its state.
pub mod Laws
use gameserver_ingress_contr.Base.{ℕ, String, Bool, true, false, Option, none, some, List, [], ◌∷◌}
use gameserver_ingress_contr.Base.Dict.{Dict, lookup}

-- The port of a GameServerStatusPort. An `int32` is only passed on, so it is its bit pattern.
pub record StatusPort : Type 0 where
  pub name : String
  pub port : ℕ

pub record SpecPort : Type 0 where
  pub container_port : ℕ

-- The states that the code names, and all others.
pub data State : Type 0 where
  scheduled request_ready ready shutdown : State
  other_state : String → State

pub record Status : Type 0 where
  pub state : State
  pub ports : List StatusPort

-- `annotations` is `none` for a nil map, which reads as empty and cannot be written.
pub record GameServer : Type 0 where
  pub name : String
  pub namespace : String
  pub uid : String
  pub annotations : Option (Dict String)
  pub spec_ports : List SpecPort
  pub status : Status

-- What an event carries: a pointer to a game server, nil or not, or an object of another type.
pub data Object : Type 0 where
  gs_object : Option GameServer → Object
  other_object : Object

abbrev pub ingress_routing_mode_domain : String
ingress_routing_mode_domain = "domain"

abbrev pub ingress_routing_mode_path : String
ingress_routing_mode_path = "path"

abbrev pub router_backend_ingress : String
router_backend_ingress = "ingress"

abbrev pub router_backend_gateway : String
router_backend_gateway = "gateway"

abbrev pub octops_annotation_ingress_mode : String
octops_annotation_ingress_mode = "octops.io/gameserver-ingress-mode"

abbrev pub octops_annotation_ingress_domain : String
octops_annotation_ingress_domain = "octops.io/gameserver-ingress-domain"

abbrev pub octops_annotation_ingress_fqdn : String
octops_annotation_ingress_fqdn = "octops.io/gameserver-ingress-fqdn"

abbrev pub octops_annotation_terminate_tls : String
octops_annotation_terminate_tls = "octops.io/terminate-tls"

abbrev pub octops_annotations_tls_secret_name : String
octops_annotations_tls_secret_name = "octops.io/tls-secret-name"

abbrev pub octops_annotation_issuer_name : String
octops_annotation_issuer_name = "octops.io/issuer-tls-name"

abbrev pub octops_annotation_custom_prefix : String
octops_annotation_custom_prefix = "octops-"

abbrev pub octops_annotation_custom_service_prefix : String
octops_annotation_custom_service_prefix = "octops.service-"

abbrev pub octops_annotation_game_server_ingress_ready : String
octops_annotation_game_server_ingress_ready = "octops.io/ingress-ready"

abbrev pub octops_annotation_ingress_class_name : String
octops_annotation_ingress_class_name = "octops.io/ingress-class-name"

abbrev pub octops_annotation_ingress_class_name_legacy : String
octops_annotation_ingress_class_name_legacy = "octops-kubernetes.io/ingress.class"

abbrev pub octops_annotation_router_backend : String
octops_annotation_router_backend = "octops.io/router-backend"

abbrev pub octops_annotation_gateway_name : String
octops_annotation_gateway_name = "octops.io/gateway-name"

abbrev pub octops_annotation_gateway_namespace : String
octops_annotation_gateway_namespace = "octops.io/gateway-namespace"

abbrev pub octops_annotation_gateway_section_name : String
octops_annotation_gateway_section_name = "octops.io/gateway-section-name"

abbrev pub cert_manager_annotation_issuer : String
cert_manager_annotation_issuer = "cert-manager.io/cluster-issuer"

abbrev pub agones_game_server_name_label : String
agones_game_server_name_label = "agones.dev/gameserver"

-- `&agonesv1.GameServer{}`
abbrev pub empty_game_server : GameServer
empty_game_server = record {
  name = "";
  namespace = "";
  uid = "";
  annotations = none;
  spec_ports = [];
  status = record { state = other_state ""; ports = [] };
}

unfoldable pub from_object : Object → Option GameServer
from_object (gs_object gs) = gs
from_object other_object = some empty_game_server

abbrev first_port : List StatusPort → StatusPort
first_port [] = record { name = ""; port = 0 }
first_port (p ∷ _) = p

unfoldable pub get_game_server_port : GameServer → StatusPort
get_game_server_port gs = first_port gs.status.ports

abbrev first_container_port : List SpecPort → ℕ
first_container_port [] = 0
first_container_port (p ∷ _) = p.container_port

unfoldable pub get_game_server_container_port : GameServer → ℕ
get_game_server_container_port gs = first_container_port gs.spec_ports

-- A read of a map that may be nil.
abbrev pub read : String → Option (Dict String) → Option String
read k none = none
read k (some d) = lookup k d

-- `none` is the pair ("", false).
unfoldable pub has_annotation : GameServer → String → Option String
has_annotation gs annotation = read annotation gs.annotations

abbrev is_shutdown_state : State → Bool
is_shutdown_state shutdown = true
is_shutdown_state _ = false

unfoldable pub is_shutdown : Option GameServer → Bool
is_shutdown none = false
is_shutdown (some gs) = is_shutdown_state gs.status.state

abbrev is_reconciled_state : State → Bool
is_reconciled_state scheduled = true
is_reconciled_state request_ready = true
is_reconciled_state ready = true
is_reconciled_state _ = false

unfoldable pub must_reconcile : Option GameServer → Bool
must_reconcile none = false
must_reconcile (some gs) = is_reconciled_state gs.status.state

abbrev pub or_else : Option String → String → String
or_else none s = s
or_else (some t) s = t

unfoldable pub get_ingress_routing_mode : GameServer → String
unfolding has_annotation
get_ingress_routing_mode gs =
    or_else (has_annotation gs octops_annotation_ingress_mode) ingress_routing_mode_domain

unfoldable pub get_tls_cert_issuer : GameServer → String
unfolding has_annotation
get_tls_cert_issuer gs = or_else (has_annotation gs octops_annotation_issuer_name) ""

unfoldable pub get_ingress_class_name : GameServer → String
unfolding has_annotation
get_ingress_class_name gs = elim (has_annotation gs octops_annotation_ingress_class_name) [
  | some class_name ↦ class_name
  | none ↦ or_else (has_annotation gs octops_annotation_ingress_class_name_legacy) ""
]

unfoldable pub get_router_backend : GameServer → String
unfolding has_annotation
get_router_backend gs =
    or_else (has_annotation gs octops_annotation_router_backend) router_backend_ingress
