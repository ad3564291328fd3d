-- ===== src/Reconcilers/Ingress/Ready.antt =====
-- Which game servers an Ingress can be made for.
use gameserver_ingress_contr.Base.{
  ◌≡◌, refl, Bool, true, false, some, List, [], ◌∷◌, ◌↔◌, ◌⊎◌, inl, inr, Bool-cases, if◌then◌else◌,
}
use gameserver_ingress_contr.Base.Dict.{insert}
use gameserver_ingress_contr.Base.Result.{ok, ◌>>=◌, IsOk, eq_of_IsOk, range}
use gameserver_ingress_contr.Base.Text.{is_empty}
use gameserver_ingress_contr.Gameserver.{
  GameServer, get_ingress_routing_mode, get_ingress_class_name, get_tls_cert_issuer,
  octops_annotation_custom_prefix, cert_manager_annotation_issuer,
}
use gameserver_ingress_contr.Objects.{Ingress}
use gameserver_ingress_contr.Options.Custom.Fine.{HasFineCustoms, fine_loops, loops_fine}
use gameserver_ingress_contr.Options.Custom.Twice.{IsMap}
use gameserver_ingress_contr.Options.Ingress.{
  IngressOption, no_suffix, new_ingress, bare_ingress, with_custom_annotations,
  with_custom_annotations_template, with_ingress_rule, with_tls, with_ingress_class_name,
  with_tls_cert_issuer, set_annotations,
}
use gameserver_ingress_contr.Options.Ingress.Steps.{
  with_custom_annotations_template_inv, with_ingress_rule_inv, with_tls_inv,
  with_ingress_class_name_inv,
}
use gameserver_ingress_contr.Options.Ready.{
  IsHosted, Terminates, HasSecret, IsHosted-ingress_rules, ingress_rules-IsHosted,
  Terminates-terminate_tls, terminate_tls-Terminates, HasSecret-terminated_tls,
  terminated_tls-HasSecret,
}
use gameserver_ingress_contr.Platform.{Libs}
use gameserver_ingress_contr.Reconcilers.Ingress.{ingress_options}
use gameserver_ingress_contr.Reconcilers.Ingress.Stages.{chain}

module _ {E : Type 0} (libs : Libs E) (gs : GameServer) where
  -- What the annotations of a game server have to say for an Ingress.
  pub record IsIngressReady : Type 0 where
    pub customs : HasFineCustoms libs gs octops_annotation_custom_prefix
    pub hosted : IsHosted gs
    pub secured : Terminates gs false ⊎ (Terminates gs true × HasSecret gs)
    pub classed : is_empty (get_ingress_class_name gs) ≡ false

  -- The option that is there only where an issuer is named.
  abbrev issuer_options : List (IngressOption E)
  issuer_options =
      if is_empty (get_tls_cert_issuer gs)
      then []
      else with_tls_cert_issuer libs (get_tls_cert_issuer gs) ∷ []

  issued :
      (b : Bool) (i : Ingress)
      → Terminates gs b
      → is_empty (get_tls_cert_issuer gs) ≡ false
      → (i' : Ingress) × (with_tls_cert_issuer libs (get_tls_cert_issuer gs) gs i ≡ ok i')
  unfolding with_tls_cert_issuer
  issued false i off given =
      (i, rw (with_tls_cert_issuer, Terminates-terminate_tls libs gs false off) refl)
  issued true i on given = (
    set_annotations i
        (insert cert_manager_annotation_issuer (get_tls_cert_issuer gs) (i.annotations)),
    rw (with_tls_cert_issuer, Terminates-terminate_tls libs gs true on, given) refl,
  )

  last_option :
      (b : Bool) (i : Ingress)
      → Terminates gs b
      → IsOk (range (λ (option : IngressOption E) ingress. option gs ingress) issuer_options i)
  unfolding range
  last_option b i t = elim (Bool-cases (is_empty (get_tls_cert_issuer gs))) [
    | inl none_given ↦ rw none_given tt
    | inr given ↦ let (i', e) = issued b i t given in rw (given, e) tt
  ]

  -- The options after the routing rules.
  last_options :
      (i : Ingress)
      → IsIngressReady
      → IsOk (
          with_tls libs (get_ingress_routing_mode gs) gs i >>= λ i4.
          with_ingress_class_name libs (get_ingress_class_name gs) gs i4 >>= λ i5.
          range (λ (option : IngressOption E) ingress. option gs ingress) issuer_options i5)
  unfolding with_tls with_ingress_class_name
  last_options i r = elim r.secured [
    | inl off ↦ rw (Terminates-terminate_tls libs gs false off, r.classed) (last_option false _ off)
    | inr (on, secret) ↦
        let (tls, made) = HasSecret-terminated_tls libs gs r.hosted secret in
        rw (Terminates-terminate_tls libs gs true on, made, r.classed) (last_option true _ on)
  ]

  IsIngressReady-new_ingress :
      IsMap gs → IsIngressReady → IsOk (new_ingress libs (some gs) (ingress_options libs gs))
  unfolding new_ingress ingress_options with_custom_annotations with_custom_annotations_template
      with_ingress_rule
  IsIngressReady-new_ingress u r =
      let (d1, d2, r1, r2) =
        fine_loops libs gs octops_annotation_custom_prefix (no_suffix libs) u r.customs in
      let (rules, routed) = IsHosted-ingress_rules libs gs r.hosted in
      rw (r1, r2, routed)
        (last_options (record (set_annotations (bare_ingress libs gs) d2) { rules = rules }) r)

  new_ingress-IsIngressReady :
      (ig : Ingress) → new_ingress libs (some gs) (ingress_options libs gs) ≡ ok ig → IsIngressReady
  new_ingress-IsIngressReady ig h =
      let c = chain libs gs ig h in
      let (d, looped, _) = with_custom_annotations_template_inv libs gs c.i1 c.s2 in
      let (rules, routed, _) =
        with_ingress_rule_inv libs gs c.i2 (get_ingress_routing_mode gs) c.s3 in
      let (classed, _) =
        with_ingress_class_name_inv libs gs c.i4 (get_ingress_class_name gs) c.s5 in
      record {
        customs = loops_fine libs gs octops_annotation_custom_prefix (no_suffix libs) _ looped;
        hosted = ingress_rules-IsHosted libs gs routed;
        secured = elim (with_tls_inv libs gs c.i3 (get_ingress_routing_mode gs) c.s4) [
          | inl (off, _) ↦ inl (terminate_tls-Terminates libs gs false off)
          | inr (tls, on, made, _) ↦
              inr (terminate_tls-Terminates libs gs true on, terminated_tls-HasSecret libs gs made)
        ];
        classed = classed;
      }

  -- For a game server whose annotations are a map, an Ingress can be made exactly if none of the
  -- annotations is the prefix `octops-` alone, and those of the prefix that are written like
  -- templates can be rendered; the routing mode is `path` or `domain`, and its annotation is given;
  -- `octops.io/terminate-tls` is missing, empty or a Boolean, and where it is true the annotation
  -- for the secret is missing or not empty; and the class name is not empty. Otherwise the attempt
  -- ends with an error or a panic.
  pub new_ingress_iff :
      IsMap gs → IsOk (new_ingress libs (some gs) (ingress_options libs gs)) ↔ IsIngressReady
  new_ingress_iff u = (
    λ i. let (ig, h) = eq_of_IsOk _ i in new_ingress-IsIngressReady ig h,
    IsIngressReady-new_ingress u,
  )
