-- ===== src/Reconcilers/Service/Ready.antt =====
-- Which game servers a Service can be made for.
use gameserver_ingress_contr.Base.{◌≡◌, ◌↔◌}
use gameserver_ingress_contr.Base.Result.{ok, IsOk, eq_of_IsOk, >>=-eq-ok}
use gameserver_ingress_contr.Gameserver.{GameServer, octops_annotation_custom_service_prefix}
use gameserver_ingress_contr.Objects.{Service}
use gameserver_ingress_contr.Options.Custom.Fine.{HasFineCustoms, fine_loops, loops_fine}
use gameserver_ingress_contr.Options.Custom.Twice.{IsMap}
use gameserver_ingress_contr.Options.Service.{
  no_service_suffix, new_service, bare_service, set_annotations, with_custom_service_annotations,
  with_custom_service_annotations_template,
}
use gameserver_ingress_contr.Platform.{Libs}
use gameserver_ingress_contr.Reconcilers.Service.{service_options}

module _ {E : Type 0} (libs : Libs E) (gs : GameServer) where
  abbrev pub IsServiceReady : Type 0
  IsServiceReady = HasFineCustoms libs gs octops_annotation_custom_service_prefix

  IsServiceReady-new_service :
      IsMap gs → IsServiceReady → IsOk (new_service libs gs (service_options libs))
  unfolding new_service service_options with_custom_service_annotations
      with_custom_service_annotations_template
  IsServiceReady-new_service u r =
      let (d1, d2, r1, r2) =
        fine_loops libs gs octops_annotation_custom_service_prefix (no_service_suffix libs) u r in
      rw (r1, r2) tt

  new_service-IsServiceReady :
      (service : Service) → new_service libs gs (service_options libs) ≡ ok service → IsServiceReady
  unfolding new_service service_options with_custom_service_annotations_template
  new_service-IsServiceReady service h =
      let (s1, _, rest) =
        >>=-eq-ok (with_custom_service_annotations libs gs (bare_service libs gs)) _ h in
      let (s2, h2, _) = >>=-eq-ok (with_custom_service_annotations_template libs gs s1) _ rest in
      let (d, looped, _) = >>=-eq-ok _ (λ d. ok (set_annotations s1 d)) h2 in
      loops_fine libs gs octops_annotation_custom_service_prefix (no_service_suffix libs)
        (s1.annotations) looped

  -- For a game server whose annotations are a map, a Service can be made exactly if none of the
  -- annotations is the prefix `octops.service-` alone, and those of the prefix that are written
  -- like templates can be rendered.
  pub new_service_iff :
      IsMap gs → IsOk (new_service libs gs (service_options libs)) ↔ IsServiceReady
  new_service_iff u = (
    λ i. let (service, h) = eq_of_IsOk _ i in new_service-IsServiceReady service h,
    IsServiceReady-new_service u,
  )
