-- ===== src/Reconcilers/Route/LeadsTo.antt =====
-- Where the routes that are made for a game server lead, beside the Service that is made for it.
use gameserver_ingress_contr.Base.{
  ℕ, String, ◌≡◌, ◌≢◌, refl, List, [], ◌∷◌, map, All, inl, inr, sym, ◌∙◌, ◌⊎◌,
}
use gameserver_ingress_contr.Base.Result.{ok}
use gameserver_ingress_contr.Base.Text.{split}
use gameserver_ingress_contr.Base.Text.Spaces.{split_some}
use gameserver_ingress_contr.Gameserver.{
  GameServer, get_game_server_container_port, get_game_server_port, get_ingress_routing_mode,
}
use gameserver_ingress_contr.Objects.{Service, ServicePort, Ingress, IngressRule, HttpRoute}
use gameserver_ingress_contr.Options.Custom.Twice.{IsMap}
use gameserver_ingress_contr.Options.Hosts.{ingress_rules_inv}
use gameserver_ingress_contr.Options.Ingress.{comma, path_rule, domain_rule}
use gameserver_ingress_contr.Options.Service.{new_service}
use gameserver_ingress_contr.Platform.{Libs}
use gameserver_ingress_contr.Reconcilers.Gateway.Built as BuiltRoute
use gameserver_ingress_contr.Reconcilers.Ingress.Built as BuiltIngress
use gameserver_ingress_contr.Reconcilers.Route.{
  Route, by_ingress, by_http_route, path_backends, ingress_backends, backends, namespace_of, IsMade,
}
use gameserver_ingress_contr.Reconcilers.Service.{service_options}
use gameserver_ingress_contr.Reconcilers.Service.Built as BuiltService

-- One of the ports has this number, and leads to this port of the container.
abbrev pub Exposes : ℕ → ℕ → List ServicePort → Type 0
Exposes port target [] = ⊥
Exposes port target (p ∷ ports) =
    ((p.port ≡ port) × (p.target_port ≡ target)) ⊎ Exposes port target ports

-- A route leads to a Service: it is in the same namespace, it has backends, and each of them is a
-- port of the Service that leads to the first port of the container.
pub record LeadsTo (gs : GameServer) (route : Route) (service : Service) : Type 0 where
  pub near : namespace_of route ≡ service.namespace
  pub some_backend : backends route ≢ []
  pub exposed :
      All
        (λ (b : String × ℕ).
          (b.0 ≡ service.name) × Exposes b.1 (get_game_server_container_port gs) service.ports)
        (backends route)

module _ (gs : GameServer) (service : Service) where
  abbrev own : String × ℕ
  own = (gs.name, (get_game_server_port gs).port)

  abbrev Reached : String × ℕ → Type 0
  Reached b = (b.0 ≡ service.name) × Exposes b.1 (get_game_server_container_port gs) service.ports

  module _ (rule : String → IngressRule)
      (to_service : (d : String) → path_backends (rule d).paths ≡ own ∷ []) where
    rules-Reached :
        Reached own → (parts : List String) → All Reached (ingress_backends (map rule parts))
    rules-Reached r [] = tt
    rules-Reached r (d ∷ parts) = rw (to_service d) (r, rules-Reached r parts)

    rules_some : (text : String) → ingress_backends (map rule (split comma text)) ≢ []
    rules_some text = let (x, xs, e) = split_some comma text in rw (e, to_service x) (λ h. cc)

  own-Reached : {E : Type 0} (libs : Libs E) → BuiltService.IsBuilt libs gs service → Reached own
  own-Reached libs built = rw (built.named, built.exposed) (refl, inl (refl, refl))

module _ {E : Type 0} (libs : Libs E) (gs : GameServer) where
  ingress_LeadsTo :
      (ig : Ingress) (service : Service)
      → BuiltIngress.IsBuilt libs gs ig
      → BuiltService.IsBuilt libs gs service
      → LeadsTo gs (by_ingress ig) service
  ingress_LeadsTo ig service built s =
      let r = own-Reached gs service libs s in
      let near = built.placed ∙ sym s.placed in
      elim (ingress_rules_inv libs gs (get_ingress_routing_mode gs) built.routed) [
        | inl (v, _, _, e) ↦ record {
          near = near;
          some_backend = rw e (rules_some gs service (path_rule gs) (λ d. refl) v);
          exposed = rw e (rules-Reached gs service (path_rule gs) (λ d. refl) r (split comma v));
        }
        | inr (v, _, _, e) ↦ record {
          near = near;
          some_backend = rw e (rules_some gs service (domain_rule gs) (λ d. refl) v);
          exposed = rw e (rules-Reached gs service (domain_rule gs) (λ d. refl) r (split comma v));
        }
      ]

  http_route_LeadsTo :
      (route : HttpRoute) (service : Service)
      → BuiltRoute.IsBuilt libs gs route
      → BuiltService.IsBuilt libs gs service
      → LeadsTo gs (by_http_route route) service
  http_route_LeadsTo route service built s =
      let (path, _, e) = built.routed in
      record {
        near = built.placed ∙ sym s.placed;
        some_backend = rw e (λ h. cc);
        exposed = rw e (own-Reached gs service libs s, tt);
      }

  -- If the annotations of a game server are a map, and the Service and a route are made for it, the
  -- Ingress or the HTTPRoute, then the route leads to the Service: both are in the same namespace,
  -- the route has a backend, and each of its backends names the Service and a port of it, which
  -- leads to the first port of the container.
  pub made-LeadsTo :
      (route : Route) (service : Service)
      → IsMap gs
      → IsMade libs gs route
      → new_service libs gs (service_options libs) ≡ ok service
      → LeadsTo gs route service
  made-LeadsTo (by_ingress ig) service u made s =
      ingress_LeadsTo ig service (BuiltIngress.new_ingress-IsBuilt libs gs ig u made)
        (BuiltService.new_service-IsBuilt libs gs service u s)
  made-LeadsTo (by_http_route route) service u made s =
      http_route_LeadsTo route service (BuiltRoute.new_http_route-IsBuilt libs gs route u made)
        (BuiltService.new_service-IsBuilt libs gs service u s)
