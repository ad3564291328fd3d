-- ===== src/Reconcilers/Gateway/Ready.antt =====
-- Which game servers an HTTPRoute can be made for.
use gameserver_ingress_contr.Base.{◌≡◌, refl, some, [], ◌∷◌, ◌↔◌, arith}
use gameserver_ingress_contr.Base.Result.{ok, IsOk, eq_of_IsOk, >>=-eq-ok}
use gameserver_ingress_contr.Gameserver.{
  GameServer, has_annotation, get_ingress_routing_mode, octops_annotation_custom_prefix,
  octops_annotation_gateway_name,
}
use gameserver_ingress_contr.Objects.{HttpRoute}
use gameserver_ingress_contr.Options.Custom.Fine.{HasFineCustoms, fine_loops, loops_fine}
use gameserver_ingress_contr.Options.Custom.Twice.{IsMap}
use gameserver_ingress_contr.Options.Gateway.{
  parent_ref, new_http_route, bare_http_route, optional_field, with_custom_http_route_annotations,
  with_custom_http_route_annotations_template, with_http_route_parent_ref, with_http_route_rules,
}
use gameserver_ingress_contr.Options.Ingress.{no_suffix}
use gameserver_ingress_contr.Options.Ready.{
  IsGiven, IsHosted, IsHosted-route_hosts, route_hosts-IsHosted,
}
use gameserver_ingress_contr.Platform.{Libs}
use gameserver_ingress_contr.Reconcilers.Gateway.{http_route_options}
use gameserver_ingress_contr.Reconcilers.Gateway.Built.{
  with_custom_http_route_annotations_template_inv, with_http_route_parent_ref_inv,
  with_http_route_rules_inv,
}

module _ {E : Type 0} (libs : Libs E) (gs : GameServer) where
  -- What the annotations of a game server have to say for an HTTPRoute.
  pub record IsRouteReady : Type 0 where
    pub customs : HasFineCustoms libs gs octops_annotation_custom_prefix
    pub attached : IsGiven gs octops_annotation_gateway_name
    pub hosted : IsHosted gs

  attached-parent_ref :
      (g : IsGiven gs octops_annotation_gateway_name) (route : HttpRoute)
      → with_http_route_parent_ref libs gs route
        ≡ ok (record route { parent_refs = parent_ref gs g.0 ∷ [] })
  unfolding with_http_route_parent_ref
  attached-parent_ref (v, e, full) route = rw (with_http_route_parent_ref, e, full) refl

  field-attached :
      {v : _}
      → optional_field (has_annotation gs octops_annotation_gateway_name) ≡ some v
      → IsGiven gs octops_annotation_gateway_name
  field-attached {v} h = (v, ground arith, ground arith)

  IsRouteReady-new_http_route :
      IsMap gs → IsRouteReady → IsOk (new_http_route libs (some gs) (http_route_options libs gs))
  unfolding new_http_route http_route_options with_custom_http_route_annotations
      with_custom_http_route_annotations_template with_http_route_rules
  IsRouteReady-new_http_route u r =
      let (d1, d2, r1, r2) =
        fine_loops libs gs octops_annotation_custom_prefix (no_suffix libs) u r.customs in
      let (found, hosted) = IsHosted-route_hosts libs gs r.hosted in
      rw (r1, r2, attached-parent_ref r.attached, hosted) tt

  new_http_route-IsRouteReady :
      (route : HttpRoute)
      → new_http_route libs (some gs) (http_route_options libs gs) ≡ ok route
      → IsRouteReady
  unfolding new_http_route http_route_options
  new_http_route-IsRouteReady route h =
      let (r1, h1, rest1) =
        >>=-eq-ok (with_custom_http_route_annotations libs gs (bare_http_route libs gs)) _ h in
      let (r2, h2, rest2) =
        >>=-eq-ok (with_custom_http_route_annotations_template libs gs r1) _ rest1 in
      let (r3, h3, rest3) = >>=-eq-ok (with_http_route_parent_ref libs gs r2) _ rest2 in
      let (r4, h4, _) =
        >>=-eq-ok (with_http_route_rules libs (get_ingress_routing_mode gs) gs r3) _ rest3 in
      let (d, looped, _) = with_custom_http_route_annotations_template_inv libs gs r1 h2 in
      let (gateway, given, _) = with_http_route_parent_ref_inv libs gs r2 h3 in
      let (found, hosted, _) =
        with_http_route_rules_inv libs gs (get_ingress_routing_mode gs) r3 h4 in
      record {
        customs =
            loops_fine libs gs octops_annotation_custom_prefix (no_suffix libs) (r1.annotations)
              looped;
        attached = field-attached given;
        hosted = route_hosts-IsHosted libs gs hosted;
      }

  -- For a game server whose annotations are a map, an HTTPRoute can be made exactly if none of the
  -- annotations is the prefix `octops-` alone, and those of the prefix that are written like
  -- templates can be rendered; the name of the Gateway is given; and the routing mode is `path` or
  -- `domain`, and its annotation is given. Otherwise the attempt ends with an error or a panic.
  pub new_http_route_iff :
      IsMap gs → IsOk (new_http_route libs (some gs) (http_route_options libs gs)) ↔ IsRouteReady
  new_http_route_iff u = (
    λ i. let (route, h) = eq_of_IsOk _ i in new_http_route-IsRouteReady route h,
    IsRouteReady-new_http_route u,
  )
