-- ===== src/Tests/Options.antt =====
-- The options at concrete game servers.
use gameserver_ingress_contr.Base.{
  String, ◌≡◌, refl, Bool, true, not, ◌&&◌, Bool-cases, inl, inr, some, [], ◌∷◌, arith,
}
use Prim.Native.Char.{code}
use Prim.Native.String.{[], ◌∷◌}
use gameserver_ingress_contr.Base.Dict.{lookup, insert, erase}
use gameserver_ingress_contr.Base.Result.{Result, ok, range}
use gameserver_ingress_contr.Base.Text.{
  split, trim_space, is_space, parse_bool, contains, strip_prefix, replace_all,
}
use gameserver_ingress_contr.Base.Text.Spaces.{NoSpace}
use gameserver_ingress_contr.Gameserver.{
  has_annotation, get_ingress_class_name, get_tls_cert_issuer, get_ingress_routing_mode,
  get_game_server_port,
}
use gameserver_ingress_contr.Objects.{Ingress, HttpIngressPath, path_type_prefix}
use gameserver_ingress_contr.Options.Custom.{range_custom, custom_step, template_value}
use gameserver_ingress_contr.Options.Custom.Twice.{IsMap}
use gameserver_ingress_contr.Options.Ingress.{
  new_ingress, ingress_rules, terminated_tls, terminate_tls, required_annotation, annotated_secret,
  tls_for_domain, tls_for_path, with_custom_annotations, with_custom_annotations_template,
  with_ingress_rule, with_tls, with_tls_cert_issuer, with_ingress_class_name,
}
use gameserver_ingress_contr.Reconcilers.Ingress.{ingress_options}
use gameserver_ingress_contr.Tests.Platform.{TestError, libs, domain_server, gateway_server}

split_test : split b',' "a, b,,c" ≡ "a" ∷ " b" ∷ "" ∷ "c" ∷ []
unfolding split
split_test = refl

trim_test : trim_space " \ta b \n" ≡ "a b"
unfolding trim_space
trim_test = refl

contains_test : contains "x {{ .Name }}" "}}" ≡ true
unfolding contains
contains_test = refl

-- The Ingress of a game server with two domains, TLS, an issuer and the legacy class.
built : Result TestError Ingress
unfolding new_ingress ingress_options with_custom_annotations with_custom_annotations_template
    with_ingress_rule with_tls with_tls_cert_issuer with_ingress_class_name range_custom custom_step
    template_value range strip_prefix contains insert erase lookup has_annotation ingress_rules
    terminated_tls terminate_tls required_annotation annotated_secret tls_for_domain tls_for_path
    split trim_space replace_all parse_bool get_ingress_class_name get_tls_cert_issuer
    get_ingress_routing_mode get_game_server_port
built = new_ingress libs (some domain_server) (ingress_options libs domain_server)

abbrev root_path : HttpIngressPath
root_path = record {
  path = "/";
  path_type = path_type_prefix;
  service_name = "simple-gameserver";
  service_port = 7777;
}

built_test :
    built
    ≡ ok (record {
      meta = record {
        name = "simple-gameserver";
        namespace = "default";
        labels = ("agones.dev/gameserver", "simple-gameserver") ∷ [];
        annotations =
            ("projectcontour.io/websocket-routes", "/simple-gameserver")
            ∷ ("cert-manager.io/cluster-issuer", "letsencrypt-prod")
            ∷ [];
        owner_references = libs.new_controller_ref domain_server "GameServer" ∷ [];
      };
      tls =
          record {
            hosts = "simple-gameserver.example.com" ∷ [];
            secret_name = "example-com-simple-gameserver-tls";
          }
          ∷ record {
            hosts = "simple-gameserver.example.gg" ∷ [];
            secret_name = "example-gg-simple-gameserver-tls";
          }
          ∷ [];
      rules =
          record { host = "simple-gameserver.example.com"; paths = root_path ∷ [] }
          ∷ record { host = "simple-gameserver.example.gg"; paths = root_path ∷ [] }
          ∷ [];
      ingress_class_name = some "contour";
    })
unfolding built
built_test = refl

-- A game server whose annotations are a map.
pub domain_server-IsMap : IsMap domain_server
unfolding lookup
domain_server-IsMap = (refl, (refl, (refl, (refl, (refl, (refl, (refl, tt)))))))

pub gateway_server-IsMap : IsMap gateway_server
unfolding lookup
gateway_server-IsMap = (refl, (refl, (refl, (refl, (refl, tt)))))

abbrev pub no_space : String → Bool
no_space [] = true
no_space (c ∷ s) = not (is_space (code c)) && no_space s

pub no_space-NoSpace : (s : String) → no_space s ≡ true → NoSpace s
no_space-NoSpace [] e = tt
no_space-NoSpace (c ∷ s) e = elim (Bool-cases (is_space (code c))) [
  | inl space ↦ absurd (ground arith)
  | inr other ↦ (other, no_space-NoSpace s (ground arith))
]
