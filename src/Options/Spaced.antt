-- ===== src/Options/Spaced.antt =====
-- A list of domains with a space after a comma, in the two backends.
use Prim.Native.Char.{code}
use Prim.Native.String.{[], ◌∷◌}
use text.Mathlib.TextLemmas.{nil-append, cons-append}
use gameserver_ingress_contr.Base.{ℕ, String, ◌<>◌, ◌≡◌, refl, false, some, [], ◌∷◌, map}
use gameserver_ingress_contr.Base.Result.{ok, ◌>>=◌}
use gameserver_ingress_contr.Base.Text.{same_code, is_empty, is_space, split, trim_space, trim_left}
use gameserver_ingress_contr.Base.Text.Spaces.{
  NoSpace, NoSpace-append, trim_space_lem, trim_space-between,
}
use gameserver_ingress_contr.Gameserver.{
  GameServer, has_annotation, octops_annotation_ingress_domain,
}
use gameserver_ingress_contr.Objects.{IngressRule}
use gameserver_ingress_contr.Options.Gateway.{route_hosts}
use gameserver_ingress_contr.Options.Ingress.{
  comma, domain_rule, required_annotation, ingress_rules,
}
use gameserver_ingress_contr.Platform.{Libs}

-- No character is the separator.
abbrev pub Lacks : ℕ → String → Type 0
Lacks sep [] = Unit
Lacks sep (c ∷ s) = (same_code (code c) sep ≡ false) × Lacks sep s

-- One entry of a list of domains: a text that is not empty, without white space and commas.
pub record IsEntry (s : String) : Type 0 where
  pub no_space : NoSpace s
  pub no_comma : Lacks comma s
  pub not_empty : is_empty s ≡ false

split_lacks : (sep : ℕ) (s : String) → Lacks sep s → split sep s ≡ s ∷ []
unfolding split
split_lacks sep [] h = refl
split_lacks sep (c ∷ s) (p, h) = rw (p, split_lacks sep s h) refl

split_first : (s t : String) → Lacks comma s → split comma (s <> ("," <> t)) ≡ s ∷ split comma t
unfolding split
split_first [] t h = rw (nil-append, cons-append, nil-append) refl
split_first (d ∷ s) t (p, h) = rw (cons-append, p, split_first s t h) refl

-- A list with a space after the comma: the space stays with the second entry.
split_spaced :
    (a b : String)
    → Lacks comma a
    → Lacks comma b
    → split comma (a <> ", " <> b) ≡ a ∷ (" " <> b) ∷ []
unfolding split
split_spaced a b ha hb =
    let second : split comma (" " <> b) ≡ (" " <> b) ∷ [] =
      split_lacks comma (" " <> b) (rw (cons-append, nil-append) (refl, hb)) in
    let text : ", " <> b ≡ "," <> (" " <> b) =
      rw (cons-append, cons-append, nil-append, cons-append, nil-append) refl in
    rw (text, split_first a (" " <> b) ha, second) refl

trim_space-space : (d : String) → trim_space (" " <> d) ≡ trim_space d
unfolding trim_space trim_left is_space
trim_space-space d = rw (cons-append, nil-append) refl

joined_not_empty : (a t : String) → is_empty a ≡ false → is_empty (a <> t) ≡ false
joined_not_empty [] t e = absurd cc
joined_not_empty (c ∷ a) t e = rw cons-append refl

required_found :
    {E : Type 0} (libs : Libs E) (gs : GameServer) (annotation : String) {value : String}
    → has_annotation gs annotation ≡ some value
    → is_empty value ≡ false
    → required_annotation libs gs annotation ≡ ok value
unfolding required_annotation
required_found libs gs annotation e full = rw (required_annotation, e, full) refl

module _ (gs : GameServer) (name : NoSpace gs.name) (named : is_empty gs.name ≡ false) where
  -- The host of the rule for a domain without a space in front, and for one with a space.
  host_plain : (d : String) → NoSpace d → (domain_rule gs d).host ≡ gs.name <> "." <> d
  unfolding is_space
  host_plain d h =
      trim_space_lem (gs.name <> "." <> d)
        (NoSpace-append gs.name ("." <> d) name (NoSpace-append "." d (refl, tt) h))

  host_spaced : (d : String) → IsEntry d → (domain_rule gs (" " <> d)).host ≡ gs.name <> ". " <> d
  host_spaced d entry =
      let text : "." <> (" " <> d) ≡ ". " <> d =
        rw (cons-append, nil-append, cons-append, nil-append, cons-append, cons-append, nil-append)
          refl in
      rw text (trim_space-between gs.name ". " d name named (entry.no_space) (entry.not_empty))

  -- In domain mode, where the annotation lists two domains with a space after the comma, as in
  -- "a.com, b.com": the host of the second Ingress rule has that space inside, between the dot and
  -- the domain, while the second host name of the HTTPRoute has none. The name of the game server
  -- and the domains are not empty and hold no white space, and the domains no comma.
  pub ingress_rules-route_hosts :
      {E : Type 0} (libs : Libs E) (a b : String)
      → IsEntry a
      → IsEntry b
      → has_annotation gs octops_annotation_ingress_domain ≡ some (a <> ", " <> b)
      → ((ingress_rules libs "domain" gs >>= λ rules. ok (map (λ (r : IngressRule). r.host) rules))
          ≡ ok ((gs.name <> "." <> a) ∷ (gs.name <> ". " <> b) ∷ []))
        × (route_hosts libs "domain" gs
            ≡ ok ((gs.name <> "." <> a) ∷ (gs.name <> "." <> b) ∷ [], "/"))
  unfolding ingress_rules route_hosts
  ingress_rules-route_hosts libs a b ha hb given =
      let found =
        required_found libs gs octops_annotation_ingress_domain given
          (joined_not_empty a (", " <> b) (ha.not_empty)) in
      let parts = split_spaced a b (ha.no_comma) (hb.no_comma) in
      (
        rw (found, parts, host_plain a (ha.no_space), host_spaced b hb) refl,
        rw
            (
              found,
              parts,
              trim_space_lem a (ha.no_space),
              trim_space-space b,
              trim_space_lem b (hb.no_space),
            )
            refl,
      )
