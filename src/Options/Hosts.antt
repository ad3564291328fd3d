-- ===== src/Options/Hosts.antt =====
-- The hosts of an Ingress, of its TLS section and of an HTTPRoute, side by side, for names without
-- white space.
use text.Mathlib.Text.{◌==◌}
use gameserver_ingress_contr.Base.{
  String, ◌<>◌, ◌≡◌, refl, true, false, some, List, [], ◌∷◌, map, arith, if◌then◌else◌, Bool-cases,
  Option-cases, ◌⊎◌, inl, inr, All,
}
use gameserver_ingress_contr.Base.Result.{ok, >>=-eq-ok}
use gameserver_ingress_contr.Base.Text.{is_space, split}
use gameserver_ingress_contr.Base.Text.Spaces.{
  NoSpace, NoSpace-append, NoSpace-split, trim_space_lem,
}
use gameserver_ingress_contr.Gameserver.{
  GameServer, has_annotation, ingress_routing_mode_path, ingress_routing_mode_domain,
  octops_annotation_ingress_domain, octops_annotation_ingress_fqdn,
}
use gameserver_ingress_contr.Objects.{IngressRule, IngressTls}
use gameserver_ingress_contr.Options.Ingress.{
  comma, annotated_secret, tls_for_path, tls_for_domain, ingress_rules, terminated_tls, path_rule,
  domain_rule, path_tls, domain_tls, required_annotation,
}
use gameserver_ingress_contr.Platform.{Libs}

-- The names that become host names hold no white space: that of the game server, and the list of
-- domains.
pub record HasCleanNames (gs : GameServer) : Type 0 where
  pub clean_name : NoSpace gs.name
  pub clean_domains :
      (domains : String)
      → has_annotation gs octops_annotation_ingress_domain ≡ some domains
      → NoSpace domains

module _ (gs : GameServer) (name : NoSpace gs.name) where
  NoSpace-host : (d : String) → NoSpace d → NoSpace (gs.name <> "." <> d)
  unfolding is_space
  NoSpace-host d h = NoSpace-append gs.name ("." <> d) name (NoSpace-append "." d (refl, tt) h)

-- The path of a routing mode.
abbrev pub mode_path : String → GameServer → String
mode_path mode gs = if mode == ingress_routing_mode_path then "/" <> gs.name else "/"

-- What a required annotation that was found is.
pub required_annotation_sound :
    {E : Type 0} (libs : Libs E) (gs : GameServer) (annotation : String) {value : String}
    → required_annotation libs gs annotation ≡ ok value
    → has_annotation gs annotation ≡ some value
unfolding required_annotation
required_annotation_sound libs gs annotation h = ground arith

-- The hosts of the TLS section, one list for each secret.
abbrev pub tls_hosts : List IngressTls → List (List String)
tls_hosts = map (λ (t : IngressTls). t.hosts)

-- The host of each rule, as such a list.
abbrev pub rule_hosts : List IngressRule → List (List String)
rule_hosts = map (λ (r : IngressRule). r.host ∷ [])

module _ (gs : GameServer) (secret : String) where
  path_tls_agree :
      (parts : List String)
      → tls_hosts (map (path_tls gs secret) parts) ≡ rule_hosts (map (path_rule gs) parts)
  path_tls_agree [] = refl
  path_tls_agree (f ∷ parts) = rw (path_tls_agree parts)

  domain_tls_agree :
      (parts : List String)
      → NoSpace gs.name
      → All NoSpace parts
      → tls_hosts (map (domain_tls gs secret) parts) ≡ rule_hosts (map (domain_rule gs) parts)
  domain_tls_agree [] name _ = refl
  domain_tls_agree (d ∷ parts) name (h, hs) =
      rw (trim_space_lem _ (NoSpace-host gs name d h), domain_tls_agree parts name hs)

module _ {E : Type 0} (libs : Libs E) (gs : GameServer) where
  tls_for_path_inv :
      (mode secret : String) {tls : List IngressTls}
      → tls_for_path libs mode secret gs ≡ ok tls
      → (v : String) × (has_annotation gs octops_annotation_ingress_fqdn ≡ some v)
        × (tls ≡ map (path_tls gs secret) (split comma v))
  unfolding tls_for_path
  tls_for_path_inv mode secret {tls} h =
      elim (Option-cases (has_annotation gs octops_annotation_ingress_fqdn)) [
        | inl missing ↦ absurd (ground arith)
        | inr (v, e) ↦ (v, e, ground arith)
      ]

  tls_for_domain_inv :
      (mode secret : String) {tls : List IngressTls}
      → tls_for_domain libs mode secret gs ≡ ok tls
      → (v : String) × (has_annotation gs octops_annotation_ingress_domain ≡ some v)
        × (tls ≡ map (domain_tls gs secret) (split comma v))
  unfolding tls_for_domain
  tls_for_domain_inv mode secret {tls} h =
      elim (Option-cases (has_annotation gs octops_annotation_ingress_domain)) [
        | inl missing ↦ absurd (ground arith)
        | inr (v, e) ↦ (v, e, ground arith)
      ]

  -- The rules of the two routing modes, from the annotation that each needs.
  pub ingress_rules_inv :
      (mode : String) {rules : List IngressRule}
      → ingress_rules libs mode gs ≡ ok rules
      → ((v : String) × ((mode == ingress_routing_mode_path) ≡ true)
          × (has_annotation gs octops_annotation_ingress_fqdn ≡ some v)
          × (rules ≡ map (path_rule gs) (split comma v)))
        ⊎ ((v : String) × ((mode == ingress_routing_mode_path) ≡ false)
            × (has_annotation gs octops_annotation_ingress_domain ≡ some v)
            × (rules ≡ map (domain_rule gs) (split comma v)))
  unfolding ingress_rules
  ingress_rules_inv mode {rules} h = elim (Bool-cases (mode == ingress_routing_mode_path)) [
    | inl path ↦
        let (v, found, same) =
          >>=-eq-ok (required_annotation libs gs octops_annotation_ingress_fqdn)
            (λ v. ok (map (path_rule gs) (split comma v))) {b = rules} (ground arith) in
        inl (v, path, required_annotation_sound libs gs octops_annotation_ingress_fqdn found, cc)
    | inr no_path ↦ elim (Bool-cases (mode == ingress_routing_mode_domain)) [
      | inl domain ↦
          let (v, found, same) =
            >>=-eq-ok (required_annotation libs gs octops_annotation_ingress_domain)
              (λ v. ok (map (domain_rule gs) (split comma v))) {b = rules} (ground arith) in
          inr (
            v,
            no_path,
            required_annotation_sound libs gs octops_annotation_ingress_domain found,
            cc,
          )
      | inr no_domain ↦ absurd (ground arith)
    ]
  ]

  -- Where TLS is terminated and rules are made, the TLS section lists exactly the hosts of the
  -- rules, in their order: in every routing mode, for clean names.
  pub terminated_tls-ingress_rules :
      (mode : String) {tls : List IngressTls} {rules : List IngressRule}
      → HasCleanNames gs
      → terminated_tls libs mode gs ≡ ok tls
      → ingress_rules libs mode gs ≡ ok rules
      → tls_hosts tls ≡ rule_hosts rules
  unfolding terminated_tls
  terminated_tls-ingress_rules mode {tls} {rules} clean ht hr =
      let (secret, _, found) = >>=-eq-ok (annotated_secret libs gs) _ ht in
      elim (ingress_rules_inv mode hr) [
        | inl (v, path, e, same) ↦
            let (w, e', same') = tls_for_path_inv mode secret {tls = tls} (ground arith) in
            let ws : w ≡ v = ground arith in
            rw (same, same', ws) (path_tls_agree gs secret (split comma v))
        | inr (v, no_path, e, same) ↦
            let (w, e', same') = tls_for_domain_inv mode secret {tls = tls} (ground arith) in
            let ws : w ≡ v = ground arith in
            rw (same, same', ws)
              (domain_tls_agree gs secret (split comma v) clean.clean_name
                (NoSpace-split comma v (clean.clean_domains v e)))
      ]
