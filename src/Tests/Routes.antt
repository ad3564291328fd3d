-- ===== src/Tests/Routes.antt =====
-- The theorems on the routes of one game server and of two, at the game servers of the tests.
use Prim.Native.Char.{code}
use Prim.Native.String.{[], ◌∷◌}
use gameserver_ingress_contr.Base.{
  String, ◌≡◌, ◌≢◌, refl, Bool, true, not, ◌&&◌, none, [], ◌∷◌, Bool-cases, inl, inr, arith,
}
use gameserver_ingress_contr.Base.Dict.{lookup, insert}
use gameserver_ingress_contr.Base.Result.{range}
use gameserver_ingress_contr.Base.Text.{
  split, trim_space, contains, strip_prefix, same_code, is_space,
}
use gameserver_ingress_contr.Base.Text.Labels.{IsLabel, NoDot}
use gameserver_ingress_contr.Gameserver.{
  GameServer, has_annotation, get_game_server_port, get_ingress_routing_mode,
}
use gameserver_ingress_contr.Objects.{HttpRoute, path_match_path_prefix}
use gameserver_ingress_contr.Options.Custom.{range_custom, custom_step, template_value}
use gameserver_ingress_contr.Options.Custom.Twice.{IsMap}
use gameserver_ingress_contr.Options.Gateway.{
  new_http_route, route_hosts, with_http_route_parent_ref, with_http_route_rules,
  with_custom_http_route_annotations, with_custom_http_route_annotations_template,
}
use gameserver_ingress_contr.Options.Ingress.{required_annotation}
use gameserver_ingress_contr.Reconcilers.Gateway.{http_route_options}
use gameserver_ingress_contr.Reconcilers.Route.{by_ingress, by_http_route, addresses, IsMade}
use gameserver_ingress_contr.Reconcilers.Route.Apart.{AreApart, made-AreApart}
use gameserver_ingress_contr.Reconcilers.Route.LeadsTo.{LeadsTo, made-LeadsTo}
use gameserver_ingress_contr.Tests.Objects.{
  domain_ingress, domain_ingress_made, domain_service, domain_service_made,
}
use gameserver_ingress_contr.Tests.Options.{domain_server-IsMap, no_space-NoSpace}
use gameserver_ingress_contr.Tests.Platform.{libs, domain_server, game_server}

made-LeadsTo_example : LeadsTo domain_server (by_ingress domain_ingress) domain_service
made-LeadsTo_example =
    made-LeadsTo libs domain_server (by_ingress domain_ingress) domain_service domain_server-IsMap
      domain_ingress_made domain_service_made

-- Another game server, for one of the domains of the first, over the other backend.
abbrev neighbour : GameServer
neighbour =
    record (game_server (
      ("octops.io/router-backend", "gateway")
      ∷ ("octops.io/gateway-name", "gateway")
      ∷ ("octops.io/gameserver-ingress-mode", "domain")
      ∷ ("octops.io/gameserver-ingress-domain", " example.gg")
      ∷ [])) { name = "neighbour" }

neighbour-IsMap : IsMap neighbour
unfolding lookup
neighbour-IsMap = (refl, (refl, (refl, (refl, tt))))

abbrev neighbour_route : HttpRoute
neighbour_route = record {
  meta = record {
    name = "neighbour";
    namespace = "default";
    labels = ("agones.dev/gameserver", "neighbour") ∷ [];
    annotations = [];
    owner_references = libs.new_controller_ref neighbour "GameServer" ∷ [];
  };
  parent_refs = record { name = "gateway"; namespace = none; section_name = none } ∷ [];
  hostnames = "neighbour.example.gg" ∷ [];
  rules =
      record {
        matches = record { match_type = path_match_path_prefix; value = "/" } ∷ [];
        backend_refs = record { name = "neighbour"; port = 7777 } ∷ [];
      }
      ∷ [];
}

neighbour-IsMade : IsMade libs neighbour (by_http_route neighbour_route)
unfolding new_http_route http_route_options with_custom_http_route_annotations
    with_custom_http_route_annotations_template with_http_route_parent_ref with_http_route_rules
    route_hosts required_annotation range_custom custom_step template_value range strip_prefix
    contains insert lookup has_annotation split trim_space get_ingress_routing_mode
    get_game_server_port
neighbour-IsMade = refl

abbrev no_dot : String → Bool
no_dot [] = true
no_dot (c ∷ s) = not (same_code (code c) 0x2e) && no_dot s

no_dot-NoDot : (s : String) → no_dot s ≡ true → NoDot s
no_dot-NoDot [] e = tt
no_dot-NoDot (c ∷ s) e = elim (Bool-cases (same_code (code c) 0x2e)) [
  | inl dot ↦ absurd (ground arith)
  | inr other ↦ (other, no_dot-NoDot s (ground arith))
]

domain_server-IsLabel : IsLabel domain_server.name
unfolding is_space
domain_server-IsLabel = record {
  no_space = no_space-NoSpace "simple-gameserver" refl;
  no_dot = no_dot-NoDot "simple-gameserver" refl;
  not_empty = refl;
}

neighbour-IsLabel : IsLabel neighbour.name
unfolding is_space
neighbour-IsLabel = record {
  no_space = no_space-NoSpace "neighbour" refl;
  no_dot = no_dot-NoDot "neighbour" refl;
  not_empty = refl;
}

other_name : domain_server.name ≢ neighbour.name
other_name e = cc

made-AreApart_example :
    AreApart (addresses (by_ingress domain_ingress)) (addresses (by_http_route neighbour_route))
made-AreApart_example =
    made-AreApart libs domain_server neighbour (by_ingress domain_ingress)
      (by_http_route neighbour_route) domain_server-IsLabel neighbour-IsLabel other_name
      domain_server-IsMap neighbour-IsMap domain_ingress_made neighbour-IsMade
