-- ===== src/Options/Ready.antt =====
-- When the options succeed, said of the annotations of the game server.
use text.Mathlib.Text.{◌==◌}
use gameserver_ingress_contr.Base.{
  String, ◌<>◌, ◌≡◌, refl, Bool, true, false, Option, none, some, ◌⊎◌, inl, inr, Bool-cases, List,
  map, Option-cases, if◌then◌else◌, arith,
}
use gameserver_ingress_contr.Base.Result.{ok, IsOk-of_eq, >>=-eq-ok}
use gameserver_ingress_contr.Base.Text.{is_empty, parse_bool, split, trim_space}
use gameserver_ingress_contr.Gameserver.{
  GameServer, has_annotation, get_ingress_routing_mode, ingress_routing_mode_path,
  ingress_routing_mode_domain, octops_annotation_ingress_fqdn, octops_annotation_ingress_domain,
  octops_annotation_terminate_tls, octops_annotations_tls_secret_name,
}
use gameserver_ingress_contr.Objects.{IngressRule, IngressTls}
use gameserver_ingress_contr.Options.Gateway.{route_hosts}
use gameserver_ingress_contr.Options.Ingress.{
  required_annotation, ingress_rules, terminate_tls, annotated_secret, terminated_tls, tls_for_path,
  tls_for_domain, path_tls, domain_tls, comma, path_rule, domain_rule,
}
use gameserver_ingress_contr.Platform.{Libs}

module _ (gs : GameServer) where
  -- The annotation is there and not empty.
  abbrev pub IsGiven : String → Type 0
  IsGiven annotation = (v : String) × (has_annotation gs annotation ≡ some v) × (is_empty v ≡ false)

  -- The routing mode is one of the two, and the annotation that it needs is given.
  abbrev pub IsHosted : Type 0
  IsHosted =
      (((get_ingress_routing_mode gs == ingress_routing_mode_path) ≡ true)
        × IsGiven octops_annotation_ingress_fqdn)
      ⊎ (((get_ingress_routing_mode gs == ingress_routing_mode_path) ≡ false)
          × ((get_ingress_routing_mode gs == ingress_routing_mode_domain) ≡ true)
          × IsGiven octops_annotation_ingress_domain)

  -- The flag that an optional annotation holds: a missing or empty one is `false`.
  abbrev flag : Option String → Option Bool
  flag none = some false
  flag (some v) = if is_empty v then some false else parse_bool v

  -- TLS is terminated, or it is not: a third value of the annotation says neither.
  abbrev pub Terminates : Bool → Type 0
  Terminates b = flag (has_annotation gs octops_annotation_terminate_tls) ≡ some b

  -- The annotation that names the secret is missing, or not empty.
  abbrev pub HasSecret : Type 0
  HasSecret =
      (secret : String)
      → has_annotation gs octops_annotations_tls_secret_name ≡ some secret
      → is_empty secret ≡ false

module _ {E : Type 0} (libs : Libs E) (gs : GameServer) where
  IsGiven-required_annotation :
      (annotation : String) (g : IsGiven gs annotation)
      → required_annotation libs gs annotation ≡ ok g.0
  unfolding required_annotation
  IsGiven-required_annotation annotation (v, e, full) = rw (required_annotation, e, full) refl

  required_annotation-IsGiven :
      (annotation : String) {value : String}
      → required_annotation libs gs annotation ≡ ok value
      → IsGiven gs annotation
  unfolding required_annotation
  required_annotation-IsGiven annotation {value} h = (value, ground arith, ground arith)

  pub IsHosted-ingress_rules :
      IsHosted gs
      → (rules : List IngressRule) × (ingress_rules libs (get_ingress_routing_mode gs) gs
          ≡ ok rules)
  unfolding ingress_rules
  IsHosted-ingress_rules (inl (path, g)) = (
    map (path_rule gs) (split comma g.0),
    rw (path, IsGiven-required_annotation octops_annotation_ingress_fqdn g),
  )
  IsHosted-ingress_rules (inr (other, domain, g)) = (
    map (domain_rule gs) (split comma g.0),
    rw (other, domain, IsGiven-required_annotation octops_annotation_ingress_domain g),
  )

  pub ingress_rules-IsHosted :
      {rules : List IngressRule}
      → ingress_rules libs (get_ingress_routing_mode gs) gs ≡ ok rules
      → IsHosted gs
  unfolding ingress_rules
  ingress_rules-IsHosted {rules} h =
      elim (Bool-cases (get_ingress_routing_mode gs == ingress_routing_mode_path)) [
        | inl path ↦
            let (_, got, _) =
              >>=-eq-ok (required_annotation libs gs octops_annotation_ingress_fqdn)
                (λ fqdns. ok (map (path_rule gs) (split comma fqdns))) {b = rules} (rw path at h) in
            inl (path, required_annotation-IsGiven octops_annotation_ingress_fqdn got)
        | inr other ↦
            elim (Bool-cases (get_ingress_routing_mode gs == ingress_routing_mode_domain)) [
              | inl domain ↦
                  let (_, got, _) =
                    >>=-eq-ok (required_annotation libs gs octops_annotation_ingress_domain)
                      (λ domains. ok (map (domain_rule gs) (split comma domains))) {b = rules}
                      (rw (other, domain) at h) in
                  inr (
                    other,
                    domain,
                    required_annotation-IsGiven octops_annotation_ingress_domain got,
                  )
              | inr neither ↦ absurd (IsOk-of_eq (rw (other, neither) at h))
            ]
      ]

  pub IsHosted-route_hosts :
      IsHosted gs
      → (found : List String × String) × (route_hosts libs (get_ingress_routing_mode gs) gs
          ≡ ok found)
  unfolding route_hosts
  IsHosted-route_hosts (inl (path, g)) = (
    (map trim_space (split comma g.0), "/" <> gs.name),
    rw (path, IsGiven-required_annotation octops_annotation_ingress_fqdn g),
  )
  IsHosted-route_hosts (inr (other, domain, g)) = (
    (map (λ d. gs.name <> "." <> trim_space d) (split comma g.0), "/"),
    rw (other, domain, IsGiven-required_annotation octops_annotation_ingress_domain g),
  )

  pub route_hosts-IsHosted :
      {found : List String × String}
      → route_hosts libs (get_ingress_routing_mode gs) gs ≡ ok found
      → IsHosted gs
  unfolding route_hosts
  route_hosts-IsHosted {found} h =
      elim (Bool-cases (get_ingress_routing_mode gs == ingress_routing_mode_path)) [
        | inl path ↦
            let (_, got, _) =
              >>=-eq-ok (required_annotation libs gs octops_annotation_ingress_fqdn) _ {b = found}
                (rw path at h) in
            inl (path, required_annotation-IsGiven octops_annotation_ingress_fqdn got)
        | inr other ↦
            elim (Bool-cases (get_ingress_routing_mode gs == ingress_routing_mode_domain)) [
              | inl domain ↦
                  let (_, got, _) =
                    >>=-eq-ok (required_annotation libs gs octops_annotation_ingress_domain) _
                      {b = found} (rw (other, domain) at h) in
                  inr (
                    other,
                    domain,
                    required_annotation-IsGiven octops_annotation_ingress_domain got,
                  )
              | inr neither ↦ absurd (IsOk-of_eq (rw (other, neither) at h))
            ]
      ]

  pub Terminates-terminate_tls : (b : Bool) → Terminates gs b → terminate_tls libs gs ≡ ok b
  unfolding terminate_tls
  Terminates-terminate_tls b h = ground arith

  pub terminate_tls-Terminates : (b : Bool) → terminate_tls libs gs ≡ ok b → Terminates gs b
  unfolding terminate_tls
  terminate_tls-Terminates b h = ground arith

  HasSecret-annotated_secret :
      HasSecret gs → (secret : String) × (annotated_secret libs gs ≡ ok secret)
  unfolding annotated_secret
  HasSecret-annotated_secret h =
      elim (Option-cases (has_annotation gs octops_annotations_tls_secret_name)) [
        | inl e ↦ ("", rw (annotated_secret, e) refl)
        | inr (secret, e) ↦ (secret, rw (annotated_secret, e, h secret e) refl)
      ]

  annotated_secret-HasSecret : {found : String} → annotated_secret libs gs ≡ ok found → HasSecret gs
  unfolding annotated_secret
  annotated_secret-HasSecret h secret e = ground arith

  -- With a routing mode whose annotation is given, the secret is all that TLS still needs.
  pub HasSecret-terminated_tls :
      IsHosted gs
      → HasSecret gs
      → (tls : List IngressTls) × (terminated_tls libs (get_ingress_routing_mode gs) gs ≡ ok tls)
  unfolding terminated_tls tls_for_path tls_for_domain
  HasSecret-terminated_tls (inl (path, (v, e, _))) h =
      let (secret, found) = HasSecret-annotated_secret h in
      (map (path_tls gs secret) (split comma v), rw (found, path, tls_for_path, e) refl)
  HasSecret-terminated_tls (inr (other, domain, (v, e, _))) h =
      let (secret, found) = HasSecret-annotated_secret h in
      (map (domain_tls gs secret) (split comma v), rw (found, other, tls_for_domain, e) refl)

  pub terminated_tls-HasSecret :
      {tls : List IngressTls}
      → terminated_tls libs (get_ingress_routing_mode gs) gs ≡ ok tls
      → HasSecret gs
  unfolding terminated_tls
  terminated_tls-HasSecret h =
      let (_, found, _) = >>=-eq-ok (annotated_secret libs gs) _ h in
      annotated_secret-HasSecret found
