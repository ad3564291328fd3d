-- ===== src/Options/Service.antt =====
-- pkg/reconcilers/service_options.go, and `newService` of service_reconciler.go.
use gameserver_ingress_contr.Base.{String, ◌<>◌, List, [], ◌∷◌}
use gameserver_ingress_contr.Base.Dict.{Dict}
use gameserver_ingress_contr.Base.Result.{Result, ok, ◌>>=◌, range}
use gameserver_ingress_contr.Gameserver.{
  GameServer, get_game_server_port, get_game_server_container_port,
  octops_annotation_custom_service_prefix, agones_game_server_name_label,
}
use gameserver_ingress_contr.Objects.{Service}
use gameserver_ingress_contr.Platform.{Libs}
use gameserver_ingress_contr.Options.Custom.{
  entries, range_custom, plain_value, template_data, template_value,
}

-- `type ServiceOption`
abbrev pub ServiceOption : Type 0 → Type 0
ServiceOption E = GameServer → Service → Result E Service

-- `service.SetAnnotations(annotations)`
abbrev pub set_annotations : Service → Dict String → Service
set_annotations service annotations = record service {
  meta = record (service.meta) { annotations = annotations };
}

module _ {E : Type 0} (libs : Libs E) where
  abbrev pub no_service_suffix : String → String
  no_service_suffix k = "custom annotation " <> k <> " does not contain a suffix"

  unfoldable pub with_custom_service_annotations_template : ServiceOption E
  with_custom_service_annotations_template gs service = do
    annotations ←
        range_custom libs octops_annotation_custom_service_prefix no_service_suffix
          (template_value libs (template_data libs gs)) (entries gs.annotations)
          (service.annotations)
    ok (set_annotations service annotations)

  unfoldable pub with_custom_service_annotations : ServiceOption E
  with_custom_service_annotations gs service = do
    annotations ←
        range_custom libs octops_annotation_custom_service_prefix no_service_suffix
          (plain_value libs) (entries gs.annotations) (service.annotations)
    ok (set_annotations service annotations)

  -- The object that `newService` fills by its options.
  abbrev pub bare_service : GameServer → Service
  bare_service gs = record {
    meta = record {
      name = gs.name;
      namespace = gs.namespace;
      labels = (agones_game_server_name_label, gs.name) ∷ [];
      annotations = [];
      owner_references = libs.new_controller_ref gs "GameServer" ∷ [];
    };
    cluster_ip = "None";
    ports =
        record {
          name = "gameserver";
          port = (get_game_server_port gs).port;
          target_port = get_game_server_container_port gs;
        }
        ∷ [];
    selector = (agones_game_server_name_label, gs.name) ∷ [];
  }

  unfoldable pub new_service : GameServer → List (ServiceOption E) → Result E Service
  unfolding range
  new_service gs options = range (λ option service. option gs service) options (bare_service gs)
