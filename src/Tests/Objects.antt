-- ===== src/Tests/Objects.antt =====
-- The theorems on the objects, at the game servers of the tests.
use mathlib.Core.Path.{subst}
use text.Mathlib.Text.{◌==◌}
use text.Mathlib.TextEquality.{eq_iff}
use Prim.Native.Char.{code}
use Prim.Native.String.{[], ◌∷◌}
use gameserver_ingress_contr.Base.{
  Bool, true, not, ◌&&◌, String, ◌≡◌, refl, none, some, List, [], ◌∷◌, map, arith, Bool-cases, inl,
  inr,
}
use gameserver_ingress_contr.Base.Dict.{Dict, lookup, insert, erase}
use gameserver_ingress_contr.Base.Result.{ok, ◌>>=◌, range}
use gameserver_ingress_contr.Base.Text.{
  same_code, split, trim_space, is_space, parse_bool, contains, strip_prefix, replace_all,
}
use gameserver_ingress_contr.Base.Text.Spaces.{NoSpace}
use gameserver_ingress_contr.Gameserver.{
  GameServer, has_annotation, get_ingress_class_name, get_tls_cert_issuer, get_ingress_routing_mode,
  get_game_server_port, get_game_server_container_port,
}
use gameserver_ingress_contr.Objects.{
  Service, Ingress, IngressRule, IngressTls, HttpRoute, path_match_path_prefix,
}
use gameserver_ingress_contr.Options.Custom.{range_custom, custom_step, template_value, plain_value}
use gameserver_ingress_contr.Options.Custom.Order.{range_custom_order}
use gameserver_ingress_contr.Options.Gateway.{
  new_http_route, route_hosts, with_http_route_parent_ref, with_http_route_rules,
  with_custom_http_route_annotations, with_custom_http_route_annotations_template,
}
use gameserver_ingress_contr.Options.Hosts.{
  HasCleanNames, terminated_tls-ingress_rules, tls_hosts, rule_hosts,
}
use gameserver_ingress_contr.Options.Ingress.{
  comma, domain_rule, no_suffix, new_ingress, ingress_rules, terminated_tls, terminate_tls,
  required_annotation, annotated_secret, tls_for_domain, tls_for_path, with_custom_annotations,
  with_custom_annotations_template, with_ingress_rule, with_tls, with_tls_cert_issuer,
  with_ingress_class_name,
}
use gameserver_ingress_contr.Options.Spaced.{Lacks, IsEntry, ingress_rules-route_hosts}
use gameserver_ingress_contr.Options.Service.{
  new_service, with_custom_service_annotations, with_custom_service_annotations_template,
}
use gameserver_ingress_contr.Reconcilers.Gateway.{http_route_options}
use gameserver_ingress_contr.Reconcilers.Gateway.Built as BuiltRoute
use gameserver_ingress_contr.Reconcilers.Ingress.{ingress_options}
use gameserver_ingress_contr.Reconcilers.Ingress.Built as BuiltIngress
use gameserver_ingress_contr.Reconcilers.Service.{service_options}
use gameserver_ingress_contr.Reconcilers.Service.Built as BuiltService
use gameserver_ingress_contr.Tests.Options.{
  domain_server-IsMap, gateway_server-IsMap, no_space-NoSpace,
}
use gameserver_ingress_contr.Tests.Platform.{libs, domain_server, gateway_server}

abbrev two : Dict String
two = ("octops-a", "1") ∷ ("octops-b", "2") ∷ []

abbrev two_reversed : Dict String
two_reversed = ("octops-b", "2") ∷ ("octops-a", "1") ∷ []

reversed_same : (k : String) → lookup k two_reversed ≡ lookup k two
unfolding lookup
reversed_same k = elim (Bool-cases ("octops-a" == k)) [
  | inl e ↦ let same : "octops-a" ≡ k = ground (arith, eq_iff "octops-a" k) in rw⁻¹ same refl
  | inr e ↦ rw e refl
]

range_custom_order_example :
    (out : Dict String) × (range_custom libs "octops-"
        (no_suffix libs)
        (plain_value libs)
        two_reversed
        []
      ≡ ok out)
    × ((k : String) → lookup k out ≡ lookup k (("a", "1") ∷ ("b", "2") ∷ []))
unfolding lookup insert range_custom custom_step range strip_prefix
range_custom_order_example =
    range_custom_order libs "octops-" (no_suffix libs) (plain_value libs) two two_reversed []
      (refl, (refl, tt)) (refl, (refl, tt)) reversed_same refl

some_same : {a b : String} → some a ≡ some b → a ≡ b
some_same e = cc

domain_server-HasCleanNames : HasCleanNames domain_server
unfolding is_space has_annotation lookup
domain_server-HasCleanNames = record {
  clean_name = no_space-NoSpace "simple-gameserver" refl;
  clean_domains =
      λ domains e. subst NoSpace (some_same e) (no_space-NoSpace "example.com,example.gg" refl);
}

abbrev domain_tls : List IngressTls
domain_tls =
    record {
      hosts = "simple-gameserver.example.com" ∷ [];
      secret_name = "example-com-simple-gameserver-tls";
    }
    ∷ record {
      hosts = "simple-gameserver.example.gg" ∷ [];
      secret_name = "example-gg-simple-gameserver-tls";
    }
    ∷ []

abbrev domain_rules : List IngressRule
domain_rules = domain_rule domain_server "example.com" ∷ domain_rule domain_server "example.gg" ∷ []

terminated_tls-ingress_rules_example : tls_hosts domain_tls ≡ rule_hosts domain_rules
unfolding terminated_tls annotated_secret tls_for_domain ingress_rules required_annotation
    has_annotation lookup split trim_space replace_all get_game_server_port
terminated_tls-ingress_rules_example =
    terminated_tls-ingress_rules libs domain_server "domain" {tls = domain_tls}
      {rules = domain_rules} domain_server-HasCleanNames refl refl

abbrev pub domain_ingress : Ingress
domain_ingress = record {
  meta = record {
    name = "simple-gameserver";
    namespace = "default";
    labels = ("agones.dev/gameserver", "simple-gameserver") ∷ [];
    annotations =
        ("projectcontour.io/websocket-routes", "/simple-gameserver")
        ∷ ("cert-manager.io/cluster-issuer", "letsencrypt-prod")
        ∷ [];
    owner_references = libs.new_controller_ref domain_server "GameServer" ∷ [];
  };
  tls = domain_tls;
  rules = domain_rules;
  ingress_class_name = some "contour";
}

pub domain_ingress_made :
    new_ingress libs (some domain_server) (ingress_options libs domain_server) ≡ ok domain_ingress
unfolding new_ingress ingress_options with_custom_annotations with_custom_annotations_template
    with_ingress_rule with_tls with_tls_cert_issuer with_ingress_class_name range_custom custom_step
    template_value range strip_prefix contains insert erase lookup has_annotation ingress_rules
    terminated_tls terminate_tls required_annotation annotated_secret tls_for_domain tls_for_path
    split trim_space replace_all parse_bool get_ingress_class_name get_tls_cert_issuer
    get_ingress_routing_mode get_game_server_port
domain_ingress_made = refl

new_ingress-IsBuilt_example : BuiltIngress.IsBuilt libs domain_server domain_ingress
new_ingress-IsBuilt_example =
    BuiltIngress.new_ingress-IsBuilt libs domain_server domain_ingress domain_server-IsMap
      domain_ingress_made

abbrev pub domain_service : Service
domain_service = record {
  meta = record {
    name = "simple-gameserver";
    namespace = "default";
    labels = ("agones.dev/gameserver", "simple-gameserver") ∷ [];
    annotations = ("owner", "games") ∷ [];
    owner_references = libs.new_controller_ref domain_server "GameServer" ∷ [];
  };
  cluster_ip = "None";
  ports = record { name = "gameserver"; port = 7777; target_port = 7654 } ∷ [];
  selector = ("agones.dev/gameserver", "simple-gameserver") ∷ [];
}

pub domain_service_made : new_service libs domain_server (service_options libs) ≡ ok domain_service
unfolding new_service service_options with_custom_service_annotations
    with_custom_service_annotations_template range_custom custom_step template_value range
    strip_prefix contains insert lookup get_game_server_port get_game_server_container_port
domain_service_made = refl

new_service-IsBuilt_example : BuiltService.IsBuilt libs domain_server domain_service
new_service-IsBuilt_example =
    BuiltService.new_service-IsBuilt libs domain_server domain_service domain_server-IsMap
      domain_service_made

abbrev pub gateway_route : HttpRoute
gateway_route = record {
  meta = record {
    name = "simple-gameserver";
    namespace = "default";
    labels = ("agones.dev/gameserver", "simple-gameserver") ∷ [];
    annotations = [];
    owner_references = libs.new_controller_ref gateway_server "GameServer" ∷ [];
  };
  parent_refs = record { name = "gateway"; namespace = none; section_name = none } ∷ [];
  hostnames = "www.example.com" ∷ "www.example.gg" ∷ [];
  rules =
      record {
        matches = record { match_type = path_match_path_prefix; value = "/simple-gameserver" } ∷ [];
        backend_refs = record { name = "simple-gameserver"; port = 7777 } ∷ [];
      }
      ∷ [];
}

new_http_route-IsBuilt_example : BuiltRoute.IsBuilt libs gateway_server gateway_route
unfolding new_http_route http_route_options with_custom_http_route_annotations
    with_custom_http_route_annotations_template with_http_route_parent_ref with_http_route_rules
    route_hosts required_annotation range_custom custom_step template_value range strip_prefix
    contains insert lookup has_annotation split trim_space get_ingress_routing_mode
    get_game_server_port
new_http_route-IsBuilt_example =
    BuiltRoute.new_http_route-IsBuilt libs gateway_server gateway_route gateway_server-IsMap refl

-- A game server whose second domain has a space in front.
abbrev spaced_server : GameServer
spaced_server = record domain_server {
  annotations = some (("octops.io/gameserver-ingress-domain", "example.com, example.gg") ∷ []);
}

abbrev no_comma : String → Bool
no_comma [] = true
no_comma (c ∷ s) = not (same_code (code c) comma) && no_comma s

no_comma-Lacks : (s : String) → no_comma s ≡ true → Lacks comma s
no_comma-Lacks [] e = tt
no_comma-Lacks (c ∷ s) e = elim (Bool-cases (same_code (code c) comma)) [
  | inl cut ↦ absurd (ground arith)
  | inr kept ↦ (kept, no_comma-Lacks s (ground arith))
]

com-IsEntry : IsEntry "example.com"
unfolding is_space
com-IsEntry = record {
  no_space = no_space-NoSpace "example.com" refl;
  no_comma = no_comma-Lacks "example.com" refl;
  not_empty = refl;
}

gg-IsEntry : IsEntry "example.gg"
unfolding is_space
gg-IsEntry = record {
  no_space = no_space-NoSpace "example.gg" refl;
  no_comma = no_comma-Lacks "example.gg" refl;
  not_empty = refl;
}

ingress_rules-route_hosts_example :
    ((ingress_rules libs "domain" spaced_server >>= λ rules.
    ok (map (λ (r : IngressRule). r.host) rules))
      ≡ ok ("simple-gameserver.example.com" ∷ "simple-gameserver. example.gg" ∷ []))
    × (route_hosts libs "domain" spaced_server
        ≡ ok ("simple-gameserver.example.com" ∷ "simple-gameserver.example.gg" ∷ [], "/"))
unfolding is_space has_annotation lookup
ingress_rules-route_hosts_example =
    ingress_rules-route_hosts spaced_server (no_space-NoSpace "simple-gameserver" refl) refl libs
      "example.com" "example.gg" com-IsEntry gg-IsEntry refl
