-- ===== src/Reconcilers/Gateway/Built.antt =====
-- The HTTPRoute that a reconciler makes for a game server, field by field.
use gameserver_ingress_contr.Base.{
  String, ◌≡◌, refl, some, List, [], ◌∷◌, Option-cases, inl, inr, arith,
}
use gameserver_ingress_contr.Base.Dict.{Dict, lookup}
use gameserver_ingress_contr.Base.Result.{ok, >>=-eq-ok}
use gameserver_ingress_contr.Gameserver.{
  GameServer, has_annotation, get_ingress_routing_mode, octops_annotation_custom_prefix,
  octops_annotation_gateway_name, agones_game_server_name_label,
}
use gameserver_ingress_contr.Objects.{HttpRoute}
use gameserver_ingress_contr.Options.Custom.{
  entries, range_custom, template_data, template_value, plain_value,
}
use gameserver_ingress_contr.Options.Custom.Twice.{IsMap, custom_annotation, looped}
use gameserver_ingress_contr.Options.Gateway.{
  set_annotations, optional_field, parent_ref, route_rule, route_hosts, bare_http_route,
  new_http_route, with_http_route_parent_ref, with_http_route_rules,
  with_custom_http_route_annotations, with_custom_http_route_annotations_template,
}
use gameserver_ingress_contr.Options.Ingress.{no_suffix}
use gameserver_ingress_contr.Platform.{Libs}
use gameserver_ingress_contr.Reconcilers.Gateway.{http_route_options}

module _ {E : Type 0} (libs : Libs E) (gs : GameServer) where
  with_custom_http_route_annotations_inv :
      (route : HttpRoute) {route' : HttpRoute}
      → with_custom_http_route_annotations libs gs route ≡ ok route'
      → (d : Dict String) × (range_custom libs octops_annotation_custom_prefix
            (no_suffix libs)
            (plain_value libs)
            (entries gs.annotations)
            (route.annotations)
          ≡ ok d)
        × (route' ≡ set_annotations route d)
  unfolding with_custom_http_route_annotations
  with_custom_http_route_annotations_inv route h =
      let (d, r, e) = >>=-eq-ok _ (λ d. ok (set_annotations route d)) h in (d, r, cc)

  pub with_custom_http_route_annotations_template_inv :
      (route : HttpRoute) {route' : HttpRoute}
      → with_custom_http_route_annotations_template libs gs route ≡ ok route'
      → (d : Dict String) × (range_custom libs octops_annotation_custom_prefix
            (no_suffix libs)
            (template_value libs (template_data libs gs))
            (entries gs.annotations)
            (route.annotations)
          ≡ ok d)
        × (route' ≡ set_annotations route d)
  unfolding with_custom_http_route_annotations_template
  with_custom_http_route_annotations_template_inv route h =
      let (d, r, e) = >>=-eq-ok _ (λ d. ok (set_annotations route d)) h in (d, r, cc)

  pub with_http_route_parent_ref_inv :
      (route : HttpRoute) {route' : HttpRoute}
      → with_http_route_parent_ref libs gs route ≡ ok route'
      → (name : String) × (optional_field (has_annotation gs octops_annotation_gateway_name)
          ≡ some name)
        × (route' ≡ record route { parent_refs = parent_ref gs name ∷ [] })
  unfolding with_http_route_parent_ref
  with_http_route_parent_ref_inv route h =
      elim (Option-cases (optional_field (has_annotation gs octops_annotation_gateway_name))) [
        | inl e ↦ absurd (ground arith)
        | inr (name, e) ↦ (name, e, ground arith)
      ]

  pub with_http_route_rules_inv :
      (mode : String) (route : HttpRoute) {route' : HttpRoute}
      → with_http_route_rules libs mode gs route ≡ ok route'
      → (found : List String × String) × (route_hosts libs mode gs ≡ ok found)
        × (route' ≡ record route { hostnames = found.0; rules = route_rule gs found.1 ∷ [] })
  unfolding with_http_route_rules
  with_http_route_rules_inv mode route h =
      let (found, r, e) =
        >>=-eq-ok (route_hosts libs mode gs)
          (λ found. ok (record route { hostnames = found.0; rules = route_rule gs found.1 ∷ [] }))
          h in
      (found, r, cc)

  pub record IsBuilt (route : HttpRoute) : Type 0 where
    pub named : route.name ≡ gs.name
    pub placed : route.namespace ≡ gs.namespace
    pub labelled : route.labels ≡ (agones_game_server_name_label, gs.name) ∷ []
    pub owned : route.owner_references ≡ libs.new_controller_ref gs "GameServer" ∷ []
    pub attached :
        (gateway : String) × (optional_field (has_annotation gs octops_annotation_gateway_name)
          ≡ some gateway)
        × (route.parent_refs ≡ parent_ref gs gateway ∷ [])
    pub routed :
        (path : String) × (route_hosts libs (get_ingress_routing_mode gs) gs
          ≡ ok (route.hostnames, path))
        × (route.rules ≡ route_rule gs path ∷ [])
    pub annotated :
        (k : String)
        → lookup k (route.annotations)
          ≡ custom_annotation libs gs octops_annotation_custom_prefix (no_suffix libs) k

  -- What the four options and the bare object make of an HTTPRoute.
  assembled :
      {r1 r2 r3 r4 route : HttpRoute} (d1 d2 : Dict String) (gateway : String)
      (found : List String × String)
      → IsMap gs
      → (r1 ≡ set_annotations (bare_http_route libs gs) d1)
        × (range_custom libs octops_annotation_custom_prefix
              (no_suffix libs)
              (plain_value libs)
              (entries gs.annotations)
              []
            ≡ ok d1)
      → (r2 ≡ set_annotations r1 d2)
        × (range_custom libs octops_annotation_custom_prefix
              (no_suffix libs)
              (template_value libs (template_data libs gs))
              (entries gs.annotations)
              (r1.annotations)
            ≡ ok d2)
      → (optional_field (has_annotation gs octops_annotation_gateway_name) ≡ some gateway)
        × (r3 ≡ record r2 { parent_refs = parent_ref gs gateway ∷ [] })
      → (route_hosts libs (get_ingress_routing_mode gs) gs ≡ ok found)
        × (r4 ≡ record r3 { hostnames = found.0; rules = route_rule gs found.1 ∷ [] })
      → route ≡ r4
      → IsBuilt route
  assembled d1 d2 gateway found u (e1, l1) (e2, l2) (given, e3) (hosted, e4) e5 =
      rw (e5, e4, e3, e2, e1)
        (record {
          named = refl;
          placed = refl;
          labelled = refl;
          owned = refl;
          attached = (gateway, given, refl);
          routed = (found.1, hosted, refl);
          annotated =
              looped libs gs octops_annotation_custom_prefix (no_suffix libs) d1 d2 u l1
                (rw e1 at l2);
        })

  -- If the annotations of the game server are a map and the HTTPRoute is made, then it has the
  -- name, the namespace and the owner that the game server gives it; its one parent is the Gateway
  -- that the game server names, by a name that is not empty; its host names, and the path of its
  -- one rule, are those of the routing mode, and that rule leads to the Service at the first status
  -- port; and its annotations are the custom ones of the prefix `octops-`, templates rendered, no
  -- more.
  pub new_http_route-IsBuilt :
      (route : HttpRoute)
      → IsMap gs
      → new_http_route libs (some gs) (http_route_options libs gs) ≡ ok route
      → IsBuilt route
  unfolding new_http_route http_route_options
  new_http_route-IsBuilt route u h =
      let (r1, h1, rest1) =
        >>=-eq-ok (with_custom_http_route_annotations libs gs (bare_http_route libs gs)) _ h in
      let (r2, h2, rest2) =
        >>=-eq-ok (with_custom_http_route_annotations_template libs gs r1) _ rest1 in
      let (r3, h3, rest3) = >>=-eq-ok (with_http_route_parent_ref libs gs r2) _ rest2 in
      let (r4, h4, last) =
        >>=-eq-ok (with_http_route_rules libs (get_ingress_routing_mode gs) gs r3) _ rest3 in
      let (d1, l1, e1) = with_custom_http_route_annotations_inv (bare_http_route libs gs) h1 in
      let (d2, l2, e2) = with_custom_http_route_annotations_template_inv r1 h2 in
      let (gateway, given, e3) = with_http_route_parent_ref_inv r2 h3 in
      let (found, hosted, e4) = with_http_route_rules_inv (get_ingress_routing_mode gs) r3 h4 in
      assembled d1 d2 gateway found u (e1, l1) (e2, l2) (given, e3) (hosted, e4) cc
