-- ===== src/Options/Gateway.antt =====
-- pkg/reconcilers/gateway_options.go, and `newHTTPRoute` of gateway_reconciler.go.
use text.Mathlib.Text.{◌==◌}
use gameserver_ingress_contr.Base.{
  String, ◌<>◌, Option, none, some, List, [], ◌∷◌, map, if◌then◌else◌,
}
use gameserver_ingress_contr.Base.Dict.{Dict}
use gameserver_ingress_contr.Base.Result.{Result, ok, err, ◌>>=◌, range}
use gameserver_ingress_contr.Base.Text.{is_empty, split, trim_space}
use gameserver_ingress_contr.Gameserver.{
  GameServer, has_annotation, get_game_server_port, ingress_routing_mode_path,
  ingress_routing_mode_domain, octops_annotation_custom_prefix, octops_annotation_gateway_name,
  octops_annotation_gateway_namespace, octops_annotation_gateway_section_name,
  octops_annotation_ingress_domain, octops_annotation_ingress_fqdn, agones_game_server_name_label,
}
use gameserver_ingress_contr.Objects.{
  HttpRoute, HttpRouteRule, ParentReference, path_match_path_prefix,
}
use gameserver_ingress_contr.Platform.{Libs, annotation_missing}
use gameserver_ingress_contr.Options.Custom.{
  entries, range_custom, plain_value, template_data, template_value,
}
use gameserver_ingress_contr.Options.Ingress.{comma, no_suffix, required_annotation}

-- `type HTTPRouteOption`
abbrev pub HttpRouteOption : Type 0 → Type 0
HttpRouteOption E = GameServer → HttpRoute → Result E HttpRoute

-- `route.SetAnnotations(annotations)`
abbrev pub set_annotations : HttpRoute → Dict String → HttpRoute
set_annotations route annotations = record route {
  meta = record (route.meta) { annotations = annotations };
}

-- An optional field is set from an annotation that is there and not empty.
abbrev pub optional_field : Option String → Option String
optional_field none = none
optional_field (some value) = if is_empty value then none else some value

abbrev pub parent_ref : GameServer → String → ParentReference
parent_ref gs name = record {
  name = name;
  namespace = optional_field (has_annotation gs octops_annotation_gateway_namespace);
  section_name = optional_field (has_annotation gs octops_annotation_gateway_section_name);
}

-- The single rule of a route: one path prefix, and the service of the game server.
abbrev pub route_rule : GameServer → String → HttpRouteRule
route_rule gs path_value = record {
  matches = record { match_type = path_match_path_prefix; value = path_value } ∷ [];
  backend_refs = record { name = gs.name; port = (get_game_server_port gs).port } ∷ [];
}

module _ {E : Type 0} (libs : Libs E) where
  unfoldable pub with_http_route_parent_ref : HttpRouteOption E
  with_http_route_parent_ref gs route =
      elim (optional_field (has_annotation gs octops_annotation_gateway_name)) [
        | none ↦
            err
              (libs.errorf (annotation_missing gs.namespace gs.name octops_annotation_gateway_name))
        | some name ↦ ok (record route { parent_refs = parent_ref gs name ∷ [] })
      ]

  -- The `switch` of `WithHTTPRouteRules`: the host names and the path.
  unfoldable pub route_hosts : String → GameServer → Result E (List String × String)
  route_hosts mode gs =
      if mode == ingress_routing_mode_path
      then (required_annotation libs gs octops_annotation_ingress_fqdn >>= λ fqdns.
          ok (map trim_space (split comma fqdns), "/" <> gs.name))
      else if mode == ingress_routing_mode_domain
      then (required_annotation libs gs octops_annotation_ingress_domain >>= λ domains.
          ok (map (λ d. gs.name <> "." <> trim_space d) (split comma domains), "/"))
      else err (
          libs.errorf (
            "routing mode '" <> mode <> "' from gameserver " <> gs.namespace <> "/" <> gs.name
            <> " is not recognised"))

  unfoldable pub with_http_route_rules : String → HttpRouteOption E
  unfolding route_hosts
  with_http_route_rules mode gs route = route_hosts mode gs >>= λ found.
      ok (record route { hostnames = found.0; rules = route_rule gs found.1 ∷ [] })

  unfoldable pub with_custom_http_route_annotations : HttpRouteOption E
  with_custom_http_route_annotations gs route = do
    annotations ←
        range_custom libs octops_annotation_custom_prefix (no_suffix libs) (plain_value libs)
          (entries gs.annotations) (route.annotations)
    ok (set_annotations route annotations)

  unfoldable pub with_custom_http_route_annotations_template : HttpRouteOption E
  with_custom_http_route_annotations_template gs route = do
    annotations ←
        range_custom libs octops_annotation_custom_prefix (no_suffix libs)
          (template_value libs (template_data libs gs)) (entries gs.annotations) (route.annotations)
    ok (set_annotations route annotations)

  -- The object that `newHTTPRoute` fills by its options.
  abbrev pub bare_http_route : GameServer → HttpRoute
  bare_http_route gs = record {
    meta = record {
      name = gs.name;
      namespace = gs.namespace;
      labels = (agones_game_server_name_label, gs.name) ∷ [];
      annotations = [];
      owner_references = libs.new_controller_ref gs "GameServer" ∷ [];
    };
    parent_refs = [];
    hostnames = [];
    rules = [];
  }

  unfoldable pub new_http_route : Option GameServer → List (HttpRouteOption E) → Result E HttpRoute
  unfolding range
  new_http_route none options = err (libs.errorf "gameserver can't be nil")
  new_http_route (some gs) options =
      range (λ option route. option gs route) options (bare_http_route gs)
