-- ===== src/Reconcilers/Route.antt =====
-- The two kinds of routes that the reconcilers make, side by side.
pub mod LeadsTo
pub mod Apart
use gameserver_ingress_contr.Base.{ℕ, String, ◌≡◌, some, List, [], ◌∷◌, ◌++◌, map}
use gameserver_ingress_contr.Base.Result.{ok}
use gameserver_ingress_contr.Gameserver.{GameServer}
use gameserver_ingress_contr.Objects.{
  Ingress, IngressRule, HttpIngressPath, HttpRoute, HttpRouteRule, HttpBackendRef, HttpPathMatch,
}
use gameserver_ingress_contr.Options.Gateway.{new_http_route}
use gameserver_ingress_contr.Options.Ingress.{new_ingress}
use gameserver_ingress_contr.Platform.{Libs}
use gameserver_ingress_contr.Reconcilers.Gateway.{http_route_options}
use gameserver_ingress_contr.Reconcilers.Ingress.{ingress_options}

-- A route of the one backend or of the other.
pub data Route : Type 0 where
  by_ingress : Ingress → Route
  by_http_route : HttpRoute → Route

-- The name and the port of each backend that a route sends requests to.
abbrev pub Backends : Type 0
Backends = List (String × ℕ)

abbrev pub path_backends : List HttpIngressPath → Backends
path_backends = map (λ (p : HttpIngressPath). (p.service_name, p.service_port))

abbrev pub ingress_backends : List IngressRule → Backends
ingress_backends [] = []
ingress_backends (r ∷ rules) = path_backends r.paths ++ ingress_backends rules

abbrev pub ref_backends : List HttpBackendRef → Backends
ref_backends = map (λ (b : HttpBackendRef). (b.name, b.port))

abbrev pub route_backends : List HttpRouteRule → Backends
route_backends [] = []
route_backends (r ∷ rules) = ref_backends r.backend_refs ++ route_backends rules

abbrev pub backends : Route → Backends
backends (by_ingress ig) = ingress_backends ig.rules
backends (by_http_route route) = route_backends route.rules

abbrev pub namespace_of : Route → String
namespace_of (by_ingress ig) = ig.namespace
namespace_of (by_http_route route) = route.namespace

-- Each host name with each path under it.
abbrev pub Addresses : Type 0
Addresses = List (String × String)

abbrev pub rule_addresses : List IngressRule → Addresses
rule_addresses [] = []
rule_addresses (r ∷ rules) =
    map (λ (p : HttpIngressPath). (r.host, p.path)) r.paths ++ rule_addresses rules

abbrev pub host_addresses : String → List HttpRouteRule → Addresses
host_addresses host [] = []
host_addresses host (r ∷ rules) =
    map (λ (m : HttpPathMatch). (host, m.value)) r.matches ++ host_addresses host rules

abbrev pub route_addresses : List HttpRouteRule → List String → Addresses
route_addresses rules [] = []
route_addresses rules (host ∷ hosts) = host_addresses host rules ++ route_addresses rules hosts

abbrev pub addresses : Route → Addresses
addresses (by_ingress ig) = rule_addresses ig.rules
addresses (by_http_route route) = route_addresses route.rules route.hostnames

module _ {E : Type 0} (libs : Libs E) (gs : GameServer) where
  -- This route is what the reconciler of its backend makes for the game server.
  abbrev pub IsMade : Route → Type 0
  IsMade (by_ingress ig) = new_ingress libs (some gs) (ingress_options libs gs) ≡ ok ig
  IsMade (by_http_route route) =
      new_http_route libs (some gs) (http_route_options libs gs) ≡ ok route
