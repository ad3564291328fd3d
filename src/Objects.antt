-- ===== src/Objects.antt =====
-- The Kubernetes objects that the controller makes, field by field as it fills them: types of
-- k8s.io/api/core/v1, k8s.io/api/networking/v1 and sigs.k8s.io/gateway-api/apis/v1. Chains of
-- structs with a single field are flattened, and an optional pointer is an `Option`.
use gameserver_ingress_contr.Base.{ℕ, String, Bool, Option, List}
use gameserver_ingress_contr.Base.Dict.{Dict}

pub record OwnerReference : Type 0 where
  pub api_version : String
  pub kind : String
  pub name : String
  pub uid : String
  pub controller : Bool
  pub block_owner_deletion : Bool

-- The annotations of an object that the controller builds are a map that it has made.
pub record ObjectMeta : Type 0 where
  pub name : String
  pub namespace : String
  pub labels : Dict String
  pub annotations : Dict String
  pub owner_references : List OwnerReference

pub data PathType : Type 0 where
  path_type_prefix path_type_exact path_type_implementation_specific : PathType

pub record HttpIngressPath : Type 0 where
  pub path : String
  pub path_type : PathType
  pub service_name : String
  pub service_port : ℕ

pub record IngressRule : Type 0 where
  pub host : String
  pub paths : List HttpIngressPath

pub record IngressTls : Type 0 where
  pub hosts : List String
  pub secret_name : String

pub record Ingress : Type 0 where
  pub meta : ObjectMeta
  pub open meta use *
  pub tls : List IngressTls
  pub rules : List IngressRule
  pub ingress_class_name : Option String

pub record ServicePort : Type 0 where
  pub name : String
  pub port : ℕ
  pub target_port : ℕ

pub record Service : Type 0 where
  pub meta : ObjectMeta
  pub open meta use *
  pub cluster_ip : String
  pub ports : List ServicePort
  pub selector : Dict String

pub record ParentReference : Type 0 where
  pub name : String
  pub namespace : Option String
  pub section_name : Option String

pub data PathMatchType : Type 0 where
  path_match_path_prefix path_match_exact path_match_regular_expression : PathMatchType

pub record HttpPathMatch : Type 0 where
  pub match_type : PathMatchType
  pub value : String

pub record HttpBackendRef : Type 0 where
  pub name : String
  pub port : ℕ

pub record HttpRouteRule : Type 0 where
  pub matches : List HttpPathMatch
  pub backend_refs : List HttpBackendRef

pub record HttpRoute : Type 0 where
  pub meta : ObjectMeta
  pub open meta use *
  pub parent_refs : List ParentReference
  pub hostnames : List String
  pub rules : List HttpRouteRule
