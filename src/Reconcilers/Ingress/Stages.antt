-- ===== src/Reconcilers/Ingress/Stages.antt =====
-- The options of `reconcileNotFound`, one after the other: what the Ingress is after each of them.
use gameserver_ingress_contr.Base.{
  String, ◌≡◌, refl, ◌∙◌, ◌⊎◌, inl, inr, Bool, true, false, ◌&&◌, not, Option, none, some, List, [],
  ◌∷◌, arith, if◌then◌else◌,
}
use gameserver_ingress_contr.Base.Dict.{Dict, insert, erase}
use gameserver_ingress_contr.Base.Result.{Result, ok, >>=-eq-ok, range}
use gameserver_ingress_contr.Base.Text.{is_empty}
use gameserver_ingress_contr.Gameserver.{
  GameServer, get_ingress_routing_mode, get_tls_cert_issuer, get_ingress_class_name,
  cert_manager_annotation_issuer, agones_game_server_name_label,
}
use gameserver_ingress_contr.Objects.{Ingress, IngressRule, IngressTls}
use gameserver_ingress_contr.Options.Ingress.{
  bare_ingress, new_ingress, terminate_tls, terminated_tls, with_custom_annotations,
  with_custom_annotations_template, with_ingress_rule, with_tls, with_tls_cert_issuer,
  with_ingress_class_name, IngressOption,
}
use gameserver_ingress_contr.Options.Ingress.Steps.{with_tls_inv, with_tls_cert_issuer_inv}
use gameserver_ingress_contr.Platform.{Libs}
use gameserver_ingress_contr.Reconcilers.Ingress.{ingress_options}

module _ {E : Type 0} (libs : Libs E) (gs : GameServer) where
  abbrev is_true : Result E Bool → Bool
  is_true (ok b) = b
  is_true _ = false

  -- The issuer is set where TLS is terminated and an issuer is given.
  abbrev pub sets_issuer : Bool
  sets_issuer = is_true (terminate_tls libs gs) && not (is_empty (get_tls_cert_issuer gs))

  -- The objects between the options.
  pub record Chain (ig : Ingress) : Type 0 where
    pub i1 : Ingress
    pub i2 : Ingress
    pub i3 : Ingress
    pub i4 : Ingress
    pub i5 : Ingress
    pub s1 : with_custom_annotations libs gs (bare_ingress libs gs) ≡ ok i1
    pub s2 : with_custom_annotations_template libs gs i1 ≡ ok i2
    pub s3 : with_ingress_rule libs (get_ingress_routing_mode gs) gs i2 ≡ ok i3
    pub s4 : with_tls libs (get_ingress_routing_mode gs) gs i3 ≡ ok i4
    pub s5 : with_ingress_class_name libs (get_ingress_class_name gs) gs i4 ≡ ok i5
    pub s6 :
        ((is_empty (get_tls_cert_issuer gs) ≡ true) × (ig ≡ i5))
        ⊎ ((is_empty (get_tls_cert_issuer gs) ≡ false)
            × (with_tls_cert_issuer libs (get_tls_cert_issuer gs) gs i5 ≡ ok ig))

  abbrev issuer_options : Bool → List (IngressOption E)
  issuer_options b = if b then [] else with_tls_cert_issuer libs (get_tls_cert_issuer gs) ∷ []

  last_step :
      (i5 ig : Ingress)
      → range
          (λ (option : IngressOption E) ingress. option gs ingress)
          (issuer_options (is_empty (get_tls_cert_issuer gs)))
          i5
        ≡ ok ig
      → ((is_empty (get_tls_cert_issuer gs) ≡ true) × (ig ≡ i5))
        ⊎ ((is_empty (get_tls_cert_issuer gs) ≡ false)
            × (with_tls_cert_issuer libs (get_tls_cert_issuer gs) gs i5 ≡ ok ig))
  unfolding range
  last_step i5 ig h = ground arith

  pub chain :
      (ig : Ingress) → new_ingress libs (some gs) (ingress_options libs gs) ≡ ok ig → Chain ig
  unfolding new_ingress ingress_options
  chain ig h =
      let (i1, s1, h1) = >>=-eq-ok (with_custom_annotations libs gs (bare_ingress libs gs)) _ h in
      let (i2, s2, h2) = >>=-eq-ok (with_custom_annotations_template libs gs i1) _ h1 in
      let (i3, s3, h3) =
        >>=-eq-ok (with_ingress_rule libs (get_ingress_routing_mode gs) gs i2) _ h2 in
      let (i4, s4, h4) = >>=-eq-ok (with_tls libs (get_ingress_routing_mode gs) gs i3) _ h3 in
      let (i5, s5, h5) =
        >>=-eq-ok (with_ingress_class_name libs (get_ingress_class_name gs) gs i4) _ h4 in
      record {
        i1 = i1;
        i2 = i2;
        i3 = i3;
        i4 = i4;
        i5 = i5;
        s1 = s1;
        s2 = s2;
        s3 = s3;
        s4 = s4;
        s5 = s5;
        s6 = last_step i5 ig h5;
      }

  abbrev pub assembled : Dict String → List IngressRule → List IngressTls → Option String → Ingress
  assembled d rules tls class_name = record {
    meta = record {
      name = gs.name;
      namespace = gs.namespace;
      labels = (agones_game_server_name_label, gs.name) ∷ [];
      annotations = d;
      owner_references = libs.new_controller_ref gs "GameServer" ∷ [];
    };
    tls = tls;
    rules = rules;
    ingress_class_name = class_name;
  }

  abbrev pub Secured : List IngressTls → Type 0
  Secured tls =
      ((terminate_tls libs gs ≡ ok false) × (tls ≡ []))
      ⊎ ((terminate_tls libs gs ≡ ok true)
          × (terminated_tls libs (get_ingress_routing_mode gs) gs ≡ ok tls))

  pub tls_stage :
      {i3 i4 : Ingress} (d : Dict String) (rules : List IngressRule)
      → i3 ≡ assembled d rules [] none
      → with_tls libs (get_ingress_routing_mode gs) gs i3 ≡ ok i4
      → (tls : List IngressTls) × Secured tls × (i4 ≡ assembled d rules tls none)
  tls_stage {i3} d rules e3 s4 = elim (with_tls_inv libs gs i3 (get_ingress_routing_mode gs) s4) [
    | inl (off, e4) ↦ ([], inl (off, refl), e4 ∙ e3)
    | inr (tls, on, made, e4) ↦ (tls, inr (on, made), rw (e4, e3) refl)
  ]

  -- The annotations after the last two options.
  abbrev pub closed_annotations : Dict String → Dict String
  closed_annotations d =
      if sets_issuer
      then insert cert_manager_annotation_issuer (get_tls_cert_issuer gs)
          (erase "kubernetes.io/ingress.class" d)
      else erase "kubernetes.io/ingress.class" d

  pub issuer_stage :
      {i5 ig : Ingress} (d : Dict String) (rules : List IngressRule) (tls : List IngressTls)
      (c : Option String)
      → i5 ≡ assembled (erase "kubernetes.io/ingress.class" d) rules tls c
      → ((is_empty (get_tls_cert_issuer gs) ≡ true) × (ig ≡ i5))
        ⊎ ((is_empty (get_tls_cert_issuer gs) ≡ false)
            × (with_tls_cert_issuer libs (get_tls_cert_issuer gs) gs i5 ≡ ok ig))
      → Secured tls
      → ig ≡ assembled (closed_annotations d) rules tls c
  issuer_stage {i5} {ig} d rules tls c e5 (inl (none_given, e6)) sec = elim sec [
    | inl (off, _) ↦ rw (off, e6, e5) refl
    | inr (on, _) ↦ rw (on, none_given, e6, e5) refl
  ]
  issuer_stage {i5} {ig} d rules tls c e5 (inr (given, s6)) sec =
      elim (with_tls_cert_issuer_inv libs gs i5 (get_tls_cert_issuer gs) given s6) [
        | inl (off, e6) ↦ rw (off, e6, e5) refl
        | inr (on, e6) ↦ rw (on, given, e6, e5) refl
      ]
