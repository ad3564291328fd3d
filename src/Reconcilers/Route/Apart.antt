-- ===== src/Reconcilers/Route/Apart.antt =====
-- The host names and the paths of the routes of two game servers.
use text.Mathlib.Text.{◌==◌}
use text.Mathlib.TextLemmas.{append_cancel_left, append-nil}
use gameserver_ingress_contr.Base.{
  String, ◌<>◌, ◌≡◌, ◌≢◌, refl, ap, sym, ◌∙◌, List, [], ◌∷◌, map, All, ◌⊎◌, inl, inr, Bool-cases,
  arith,
}
use gameserver_ingress_contr.Base.Result.{ok, ok_inj, >>=-eq-ok}
use gameserver_ingress_contr.Base.Text.{split, trim_space, trim_right}
use gameserver_ingress_contr.Base.Text.Labels.{IsLabel, trim_space-label, label-eq_of_host-eq}
use gameserver_ingress_contr.Gameserver.{
  GameServer, get_ingress_routing_mode, ingress_routing_mode_path, ingress_routing_mode_domain,
  octops_annotation_ingress_domain, octops_annotation_ingress_fqdn,
}
use gameserver_ingress_contr.Options.Custom.Twice.{IsMap}
use gameserver_ingress_contr.Options.Gateway.{route_hosts, route_rule}
use gameserver_ingress_contr.Options.Hosts.{ingress_rules_inv}
use gameserver_ingress_contr.Options.Ingress.{comma, path_rule, domain_rule, required_annotation}
use gameserver_ingress_contr.Platform.{Libs}
use gameserver_ingress_contr.Reconcilers.Gateway.Built as BuiltRoute
use gameserver_ingress_contr.Reconcilers.Ingress.Built as BuiltIngress
use gameserver_ingress_contr.Reconcilers.Route.{
  Route, by_ingress, by_http_route, Addresses, rule_addresses, route_addresses, addresses, IsMade,
}

-- No address is in both lists.
abbrev pub AreApart : Addresses → Addresses → Type 0
AreApart xs ys = All (λ (x : String × String). All (λ (y : String × String). x ≢ y) ys) xs

module _ {P Q : String × String → Type 0}
    (differ : (x y : String × String) → P x → Q y → x ≢ y) where
  differ_each :
      (x : String × String) (ys : Addresses)
      → P x
      → All Q ys
      → All (λ (y : String × String). x ≢ y) ys
  differ_each x [] p _ = tt
  differ_each x (y ∷ ys) p (q, qs) = (differ x y p q, differ_each x ys p qs)

  All-AreApart : (xs ys : Addresses) → All P xs → All Q ys → AreApart xs ys
  All-AreApart [] ys _ qs = tt
  All-AreApart (x ∷ xs) ys (p, ps) qs = (differ_each x ys p qs, All-AreApart xs ys ps qs)

-- The name of the game server is in the path, or in front of the host name.
abbrev Names : GameServer → String × String → Type 0
Names gs (host, path) =
    (path ≡ "/" <> gs.name) ⊎ ((path ≡ "/") × ((rest : String) × (host ≡ gs.name <> "." <> rest)))

module _ (gs : GameServer) where
  path_rules-Names :
      (parts : List String) → All (Names gs) (rule_addresses (map (path_rule gs) parts))
  path_rules-Names [] = tt
  path_rules-Names (d ∷ parts) = (inl refl, path_rules-Names parts)

  path_hosts-Names :
      (hosts : List String)
      → All (Names gs) (route_addresses (route_rule gs ("/" <> gs.name) ∷ []) hosts)
  path_hosts-Names [] = tt
  path_hosts-Names (h ∷ hosts) = (inl refl, path_hosts-Names hosts)

  domain_rules-Names :
      IsLabel gs.name
      → (parts : List String) → All (Names gs) (rule_addresses (map (domain_rule gs) parts))
  domain_rules-Names label [] = tt
  domain_rules-Names label (d ∷ parts) =
      (inr (refl, (trim_right d, trim_space-label gs.name d label)), domain_rules-Names label parts)

  domain_hosts-Names :
      (parts : List String)
      → All (Names gs) (
          route_addresses
            (route_rule gs "/" ∷ [])
            (map (λ d. gs.name <> "." <> trim_space d) parts))
  domain_hosts-Names [] = tt
  domain_hosts-Names (d ∷ parts) = (inr (refl, (trim_space d, refl)), domain_hosts-Names parts)

  route_hosts-Names :
      {E : Type 0} (libs : Libs E) (mode : String) {hosts : List String} {path : String}
      → route_hosts libs mode gs ≡ ok (hosts, path)
      → All (Names gs) (route_addresses (route_rule gs path ∷ []) hosts)
  unfolding route_hosts
  route_hosts-Names libs mode {hosts} {path} h =
      elim (Bool-cases (mode == ingress_routing_mode_path)) [
        | inl by_path ↦
            let (v, _, e) =
              >>=-eq-ok {B = List String × String}
                (required_annotation libs gs octops_annotation_ingress_fqdn)
                (λ v. ok (map trim_space (split comma v), "/" <> gs.name)) {b = (hosts, path)}
                (ground arith) in
            rw (← ap (λ x. x.1) (ok_inj e)) (path_hosts-Names hosts)
        | inr no_path ↦ elim (Bool-cases (mode == ingress_routing_mode_domain)) [
          | inl by_domain ↦
              let (v, _, e) =
                >>=-eq-ok {B = List String × String}
                  (required_annotation libs gs octops_annotation_ingress_domain)
                  (λ v. ok (map (λ d. gs.name <> "." <> trim_space d) (split comma v), "/"))
                  {b = (hosts, path)} (ground arith) in
              rw (← ap (λ x. x.1) (ok_inj e), ← ap (λ x. x.0) (ok_inj e))
                (domain_hosts-Names (split comma v))
          | inr no_domain ↦ absurd (ground arith)
        ]
      ]

slash_alone : (gs : GameServer) → IsLabel gs.name → "/" <> gs.name ≢ "/"
slash_alone gs l e =
    let none_left : gs.name ≡ "" = append_cancel_left "/" gs.name "" (e ∙ sym (append-nil "/")) in
    let full = rw none_left at l.not_empty in cc

-- Different labels make different addresses.
Names-differ :
    (gs gs' : GameServer)
    → IsLabel gs.name
    → IsLabel gs'.name
    → gs.name ≢ gs'.name
    → (x y : String × String) → Names gs x
    → Names gs' y
    → x ≢ y
Names-differ gs gs' l l' ne (h, p) (h', p') (inl a) (inl b) e =
    ne (append_cancel_left "/" gs.name gs'.name (sym a ∙ ap (λ x. x.1) e ∙ b))
Names-differ gs gs' l l' ne (h, p) (h', p') (inl a) (inr (b, _)) e =
    slash_alone gs l (sym a ∙ ap (λ x. x.1) e ∙ b)
Names-differ gs gs' l l' ne (h, p) (h', p') (inr (a, _)) (inl b) e =
    slash_alone gs' l' (sym b ∙ sym (ap (λ x. x.1) e) ∙ a)
Names-differ gs gs' l l' ne (h, p) (h', p') (inr (_, (rest, a))) (inr (_, (rest', b))) e =
    ne (label-eq_of_host-eq gs.name gs'.name rest rest' l l' (sym a ∙ ap (λ x. x.0) e ∙ b))

module _ {E : Type 0} (libs : Libs E) where
  made-Names :
      (gs : GameServer) (route : Route)
      → IsLabel gs.name
      → IsMap gs
      → IsMade libs gs route
      → All (Names gs) (addresses route)
  made-Names gs (by_ingress ig) label u made =
      let built = BuiltIngress.new_ingress-IsBuilt libs gs ig u made in
      elim (ingress_rules_inv libs gs (get_ingress_routing_mode gs) built.routed) [
        | inl (v, _, _, e) ↦ rw e (path_rules-Names gs (split comma v))
        | inr (v, _, _, e) ↦ rw e (domain_rules-Names gs label (split comma v))
      ]
  made-Names gs (by_http_route route) label u made =
      let (path, hosted, e) = (BuiltRoute.new_http_route-IsBuilt libs gs route u made).routed in
      rw e (route_hosts-Names gs libs (get_ingress_routing_mode gs) hosted)

  -- Two game servers with different names, each a label of a host name (not empty, no white space
  -- and no dot), whose annotations are maps: whatever their routing modes, domains and backends,
  -- the routes that are made for them have no host name with the same path in common.
  pub made-AreApart :
      (gs gs' : GameServer) (route route' : Route)
      → IsLabel gs.name
      → IsLabel gs'.name
      → gs.name ≢ gs'.name
      → IsMap gs
      → IsMap gs'
      → IsMade libs gs route
      → IsMade libs gs' route'
      → AreApart (addresses route) (addresses route')
  made-AreApart gs gs' route route' l l' ne u u' made made' =
      All-AreApart (Names-differ gs gs' l l' ne) (addresses route) (addresses route')
        (made-Names gs route l u made) (made-Names gs' route' l' u' made')
