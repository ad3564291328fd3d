-- ===== src/Options/Ingress.antt =====
-- pkg/reconcilers/ingress_options.go, and `newIngress` of ingress_reconciler.go.
pub mod Steps
use text.Mathlib.Text.{◌==◌}
use gameserver_ingress_contr.Base.{
  ℕ, String, ◌<>◌, Bool, true, false, Option, none, some, List, [], ◌∷◌, map, if◌then◌else◌,
}
use gameserver_ingress_contr.Base.Dict.{Dict, insert, erase}
use gameserver_ingress_contr.Base.Result.{Result, ok, err, ◌>>=◌, range}
use gameserver_ingress_contr.Base.Text.{is_empty, split, trim_space, replace_all, parse_bool}
use gameserver_ingress_contr.Gameserver.{
  GameServer, has_annotation, get_game_server_port, ingress_routing_mode_path,
  ingress_routing_mode_domain, octops_annotation_custom_prefix, octops_annotation_terminate_tls,
  octops_annotations_tls_secret_name, octops_annotation_ingress_domain,
  octops_annotation_ingress_fqdn, octops_annotation_issuer_name,
  octops_annotation_ingress_class_name, cert_manager_annotation_issuer,
  agones_game_server_name_label,
}
use gameserver_ingress_contr.Objects.{Ingress, IngressRule, IngressTls, PathType, path_type_prefix}
use gameserver_ingress_contr.Platform.{
  Libs, annotation_missing, annotation_empty, routing_mode_empty,
}
use gameserver_ingress_contr.Options.Custom.{
  entries, range_custom, plain_value, template_data, template_value,
}

-- `,` and `.`, the separators that the options look for.
abbrev pub comma : ℕ
comma = b','

abbrev pub dot : ℕ
dot = b'.'

-- `type IngressOption`
abbrev pub IngressOption : Type 0 → Type 0
IngressOption E = GameServer → Ingress → Result E Ingress

-- `ingress.SetAnnotations(annotations)`
abbrev pub set_annotations : Ingress → Dict String → Ingress
set_annotations ingress annotations = record ingress {
  meta = record (ingress.meta) { annotations = annotations };
}

-- `defaultPathType` of pkg/reconcilers/common.go.
abbrev default_path_type : PathType
default_path_type = path_type_prefix

abbrev pub new_ingress_rule : String → String → String → ℕ → IngressRule
new_ingress_rule host path service_name port = record {
  host = trim_space host;
  paths =
      record {
        path = path;
        path_type = default_path_type;
        service_name = service_name;
        service_port = port;
      }
      ∷ [];
}

-- The secret of one domain: the annotated one, or a name made from the domain and the game server.
abbrev pub tls_secret : String → GameServer → String → String
tls_secret secret gs d =
    if is_empty secret then replace_all dot "-" (d <> "-" <> gs.name <> "-tls") else secret

abbrev pub domain_tls : GameServer → String → String → IngressTls
domain_tls gs secret d = record {
  hosts = (gs.name <> "." <> d) ∷ [];
  secret_name = tls_secret secret gs d;
}

abbrev pub path_tls : GameServer → String → String → IngressTls
path_tls gs secret f = record { hosts = trim_space f ∷ []; secret_name = tls_secret secret gs f }

abbrev pub path_rule : GameServer → String → IngressRule
path_rule gs f = new_ingress_rule f ("/" <> gs.name) gs.name (get_game_server_port gs).port

abbrev pub domain_rule : GameServer → String → IngressRule
domain_rule gs d = new_ingress_rule (gs.name <> "." <> d) "/" gs.name (get_game_server_port gs).port

module _ {E : Type 0} (libs : Libs E) where
  abbrev pub no_suffix : String → String
  no_suffix k = "custom annotation does not contain a suffix"

  unfoldable pub with_custom_annotations_template : IngressOption E
  with_custom_annotations_template gs ingress = do
    annotations ←
        range_custom libs octops_annotation_custom_prefix no_suffix
          (template_value libs (template_data libs gs)) (entries gs.annotations)
          (ingress.annotations)
    ok (set_annotations ingress annotations)

  unfoldable pub with_custom_annotations : IngressOption E
  with_custom_annotations gs ingress = do
    annotations ←
        range_custom libs octops_annotation_custom_prefix no_suffix (plain_value libs)
          (entries gs.annotations) (ingress.annotations)
    ok (set_annotations ingress annotations)

  abbrev parsed_bool : GameServer → Option Bool → Result E Bool
  parsed_bool gs (some b) = ok b
  parsed_bool gs none = err (
      libs.errorf (
        "annotation " <> octops_annotation_terminate_tls <> " for " <> gs.name
        <> " must be \"true\" or \"false\""))

  -- How `WithTLS` and `WithTLSCertIssuer` begin: `false` is their early `return nil`.
  unfoldable pub terminate_tls : GameServer → Result E Bool
  terminate_tls gs = elim (has_annotation gs octops_annotation_terminate_tls) [
    | none ↦ ok false
    | some terminate ↦
        if is_empty terminate then ok false else parsed_bool gs (parse_bool terminate)
  ]

  -- The annotated secret, empty if there is none.
  unfoldable pub annotated_secret : GameServer → Result E String
  annotated_secret gs = elim (has_annotation gs octops_annotations_tls_secret_name) [
    | none ↦ ok ""
    | some secret ↦
        if is_empty secret
        then err
            (libs.errorf (annotation_empty gs.namespace gs.name octops_annotations_tls_secret_name))
        else ok secret
  ]

  unfoldable pub tls_for_domain : String → String → GameServer → Result E (List IngressTls)
  tls_for_domain mode secret gs = elim (has_annotation gs octops_annotation_ingress_domain) [
    | none ↦ err (
        libs.errorf (routing_mode_empty mode octops_annotation_ingress_domain gs.namespace gs.name))
    | some domain ↦ ok (map (domain_tls gs secret) (split comma domain))
  ]

  unfoldable pub tls_for_path : String → String → GameServer → Result E (List IngressTls)
  tls_for_path mode secret gs = elim (has_annotation gs octops_annotation_ingress_fqdn) [
    | none ↦
        err (
          libs.errorf (routing_mode_empty mode octops_annotation_ingress_fqdn gs.namespace gs.name))
    | some fqdn ↦ ok (map (path_tls gs secret) (split comma fqdn))
  ]

  -- The part of `WithTLS` after its early returns.
  unfoldable pub terminated_tls : String → GameServer → Result E (List IngressTls)
  terminated_tls mode gs = annotated_secret gs >>= λ secret.
      if mode == ingress_routing_mode_path
      then tls_for_path mode secret gs
      else tls_for_domain mode secret gs

  abbrev with_terminated_tls : String → GameServer → Ingress → Bool → Result E Ingress
  with_terminated_tls mode gs ingress false = ok ingress
  with_terminated_tls mode gs ingress true =
      terminated_tls mode gs >>= λ tls. ok (record ingress { tls = tls })

  unfoldable pub with_tls : String → IngressOption E
  with_tls mode gs ingress = terminate_tls gs >>= with_terminated_tls mode gs ingress

  -- An annotation that a routing mode needs, with the errors for a missing and for an empty one.
  unfoldable pub required_annotation : GameServer → String → Result E String
  required_annotation gs annotation = elim (has_annotation gs annotation) [
    | none ↦ err (libs.errorf (annotation_missing gs.namespace gs.name annotation))
    | some value ↦
        if is_empty value
        then err (libs.errorf (annotation_empty gs.namespace gs.name annotation))
        else ok value
  ]

  -- The `switch` of `WithIngressRule`.
  unfoldable pub ingress_rules : String → GameServer → Result E (List IngressRule)
  ingress_rules mode gs =
      if mode == ingress_routing_mode_path
      then (required_annotation gs octops_annotation_ingress_fqdn >>= λ fqdns.
          ok (map (path_rule gs) (split comma fqdns)))
      else if mode == ingress_routing_mode_domain
      then (required_annotation gs octops_annotation_ingress_domain >>= λ domains.
          ok (map (domain_rule gs) (split comma domains)))
      else err (
          libs.errorf (
            "routing mode '" <> mode <> "' from gameserver " <> gs.namespace <> "/" <> gs.name
            <> " is not recognised"))

  unfoldable pub with_ingress_rule : String → IngressOption E
  with_ingress_rule mode gs ingress =
      ingress_rules mode gs >>= λ rules. ok (record ingress { rules = rules })

  abbrev issue : String → GameServer → Ingress → Bool → Result E Ingress
  issue issuer_name gs ingress false = ok ingress
  issue issuer_name gs ingress true =
      if is_empty issuer_name
      then err (
          libs.errorf (
            "annotation " <> octops_annotation_issuer_name <> " for " <> gs.name
            <> " must be present, check your Fleet or GameServer manifest."))
      else ok (
          set_annotations ingress
            (insert cert_manager_annotation_issuer issuer_name (ingress.annotations)))

  unfoldable pub with_tls_cert_issuer : String → IngressOption E
  with_tls_cert_issuer issuer_name gs ingress = terminate_tls gs >>= issue issuer_name gs ingress

  unfoldable pub with_ingress_class_name : String → IngressOption E
  with_ingress_class_name class_name gs ingress =
      if is_empty class_name
      then err (
          libs.errorf (
            "annotation " <> octops_annotation_ingress_class_name <> " for " <> gs.name
            <> " must not be empty, check your Fleet or GameServer manifest."))
      else ok (record ingress {
        meta = record (ingress.meta) {
          annotations = erase "kubernetes.io/ingress.class" (ingress.annotations);
        };
        ingress_class_name = some class_name;
      })

  -- The object that `newIngress` fills by its options.
  abbrev pub bare_ingress : GameServer → Ingress
  bare_ingress gs = record {
    meta = record {
      name = gs.name;
      namespace = gs.namespace;
      labels = (agones_game_server_name_label, gs.name) ∷ [];
      annotations = [];
      owner_references = libs.new_controller_ref gs "GameServer" ∷ [];
    };
    tls = [];
    rules = [];
    ingress_class_name = none;
  }

  unfoldable pub new_ingress : Option GameServer → List (IngressOption E) → Result E Ingress
  unfolding range
  new_ingress none options = err (libs.errorf "gameserver can't be nil")
  new_ingress (some gs) options =
      range (λ option ingress. option gs ingress) options (bare_ingress gs)
