-- ===== src/Reconcilers/Service/Built.antt =====
-- The Service that a reconciler makes for a game server, field by field.
use gameserver_ingress_contr.Base.{String, ◌≡◌, refl, [], ◌∷◌}
use gameserver_ingress_contr.Base.Dict.{lookup}
use gameserver_ingress_contr.Base.Result.{ok, >>=-eq-ok}
use gameserver_ingress_contr.Gameserver.{
  GameServer, get_game_server_port, get_game_server_container_port,
  octops_annotation_custom_service_prefix, agones_game_server_name_label,
}
use gameserver_ingress_contr.Objects.{Service}
use gameserver_ingress_contr.Options.Custom.Twice.{IsMap, custom_annotation, looped}
use gameserver_ingress_contr.Options.Service.{
  no_service_suffix, set_annotations, bare_service, new_service, with_custom_service_annotations,
  with_custom_service_annotations_template,
}
use gameserver_ingress_contr.Platform.{Libs}
use gameserver_ingress_contr.Reconcilers.Service.{service_options}

module _ {E : Type 0} (libs : Libs E) (gs : GameServer) where
  pub record IsBuilt (service : Service) : Type 0 where
    pub named : service.name ≡ gs.name
    pub placed : service.namespace ≡ gs.namespace
    pub labelled : service.labels ≡ (agones_game_server_name_label, gs.name) ∷ []
    pub owned : service.owner_references ≡ libs.new_controller_ref gs "GameServer" ∷ []
    pub headless : service.cluster_ip ≡ "None"
    pub selected : service.selector ≡ (agones_game_server_name_label, gs.name) ∷ []
    pub exposed :
        service.ports
        ≡ record {
          name = "gameserver";
          port = (get_game_server_port gs).port;
          target_port = get_game_server_container_port gs;
        }
          ∷ []
    pub annotated :
        (k : String)
        → lookup k (service.annotations)
          ≡ custom_annotation libs gs octops_annotation_custom_service_prefix
              (no_service_suffix libs)
              k

  -- If the annotations of the game server are a map and the Service is made, then it has the name,
  -- the namespace and the owner that the game server gives it; it is headless, selects the pod of
  -- the game server and leads from its first status port to its first container port; and its
  -- annotations are the custom ones of the prefix `octops.service-`, templates rendered, no more.
  pub new_service-IsBuilt :
      (service : Service)
      → IsMap gs
      → new_service libs gs (service_options libs) ≡ ok service
      → IsBuilt service
  unfolding new_service service_options with_custom_service_annotations
      with_custom_service_annotations_template
  new_service-IsBuilt service u h =
      let (s1, h1, rest) =
        >>=-eq-ok (with_custom_service_annotations libs gs (bare_service libs gs)) _ h in
      let (d1, r1, e1) = >>=-eq-ok _ (λ d. ok (set_annotations (bare_service libs gs) d)) h1 in
      let (s2, h2, last) = >>=-eq-ok (with_custom_service_annotations_template libs gs s1) _ rest in
      let (d2, r2, e2) = >>=-eq-ok _ (λ d. ok (set_annotations s1 d)) h2 in
      let a1 : s1 ≡ set_annotations (bare_service libs gs) d1 = cc in
      let a2 : service ≡ set_annotations s1 d2 = cc in
      let same : service ≡ set_annotations (bare_service libs gs) d2 = rw (a2, a1) refl in
      rw same (record {
        named = refl;
        placed = refl;
        labelled = refl;
        owned = refl;
        headless = refl;
        selected = refl;
        exposed = refl;
        annotated =
            looped libs gs octops_annotation_custom_service_prefix (no_service_suffix libs) d1 d2 u
              r1 (rw a1 at r2);
      })
