-- ===== src/Reconcilers/Ingress/Built.antt =====
-- The Ingress that a reconciler makes for a game server, field by field.
use text.Mathlib.Text.{◌==◌}
use gameserver_ingress_contr.Base.{
  String, ◌≡◌, refl, false, ◌&&◌, Option, none, some, [], ◌∷◌, arith, if◌then◌else◌,
}
use gameserver_ingress_contr.Base.Dict.{Dict, lookup, erase, lookup-insert, lookup-erase}
use gameserver_ingress_contr.Base.Result.{ok}
use gameserver_ingress_contr.Base.Text.{is_empty}
use gameserver_ingress_contr.Gameserver.{
  GameServer, get_ingress_routing_mode, get_tls_cert_issuer, get_ingress_class_name,
  octops_annotation_custom_prefix, cert_manager_annotation_issuer, agones_game_server_name_label,
}
use gameserver_ingress_contr.Objects.{Ingress}
use gameserver_ingress_contr.Options.Custom.Twice.{IsMap, custom_annotation, looped}
use gameserver_ingress_contr.Options.Ingress.{no_suffix, new_ingress, ingress_rules}
use gameserver_ingress_contr.Options.Ingress.Steps.{
  with_custom_annotations_inv, with_custom_annotations_template_inv, with_ingress_rule_inv,
  with_ingress_class_name_inv,
}
use gameserver_ingress_contr.Platform.{Libs}
use gameserver_ingress_contr.Reconcilers.Ingress.{ingress_options}
use gameserver_ingress_contr.Reconcilers.Ingress.Stages.{
  sets_issuer, chain, assembled, Secured, tls_stage, issuer_stage, closed_annotations,
}

module _ {E : Type 0} (libs : Libs E) (gs : GameServer) where
  abbrev pub final_annotation : String → Option String
  final_annotation k =
      if sets_issuer libs gs && (cert_manager_annotation_issuer == k)
      then some (get_tls_cert_issuer gs)
      else if "kubernetes.io/ingress.class" == k
      then none
      else custom_annotation libs gs octops_annotation_custom_prefix (no_suffix libs) k

  pub record IsBuilt (ig : Ingress) : Type 0 where
    pub named : ig.name ≡ gs.name
    pub placed : ig.namespace ≡ gs.namespace
    pub labelled : ig.labels ≡ (agones_game_server_name_label, gs.name) ∷ []
    pub owned : ig.owner_references ≡ libs.new_controller_ref gs "GameServer" ∷ []
    pub routed : ingress_rules libs (get_ingress_routing_mode gs) gs ≡ ok ig.rules
    pub class_given : is_empty (get_ingress_class_name gs) ≡ false
    pub classed : ig.ingress_class_name ≡ some (get_ingress_class_name gs)
    pub secured : Secured libs gs ig.tls
    pub annotated : (k : String) → lookup k (ig.annotations) ≡ final_annotation k

  closed :
      (d : Dict String) (k : String)
      → lookup k d ≡ custom_annotation libs gs octops_annotation_custom_prefix (no_suffix libs) k
      → lookup k (closed_annotations libs gs d) ≡ final_annotation k
  closed d k h = ground (
    arith,
    lookup-erase k "kubernetes.io/ingress.class" d,
    lookup-insert k cert_manager_annotation_issuer (get_tls_cert_issuer gs)
        (erase "kubernetes.io/ingress.class" d),
  )

  -- If the annotations of the game server are a map and the Ingress is made, then it has the name,
  -- the namespace and the owner that the game server gives it; its rules are those of the routing
  -- mode; its class is the one that the game server names, and is not empty; its TLS section is
  -- empty or that of the routing mode, as the game server asks; and its annotations are the custom
  -- ones of the prefix `octops-`, templates rendered, without `kubernetes.io/ingress.class`, and
  -- with the issuer where TLS is terminated and an issuer is named.
  pub new_ingress-IsBuilt :
      (ig : Ingress)
      → IsMap gs
      → new_ingress libs (some gs) (ingress_options libs gs) ≡ ok ig
      → IsBuilt ig
  new_ingress-IsBuilt ig u h =
      let c = chain libs gs ig h in
      let (d1, r1, e1) = with_custom_annotations_inv libs gs _ c.s1 in
      let (d2, r2, e2) = with_custom_annotations_template_inv libs gs c.i1 c.s2 in
      let (rules, routed, e3) =
        with_ingress_rule_inv libs gs c.i2 (get_ingress_routing_mode gs) c.s3 in
      let a3 : c.i3 ≡ assembled libs gs d2 rules [] none = rw (e3, e2, e1) refl in
      let (tls, secured, e4) = tls_stage libs gs d2 rules a3 c.s4 in
      let (given, e5) = with_ingress_class_name_inv libs gs c.i4 (get_ingress_class_name gs) c.s5 in
      let same =
        issuer_stage libs gs d2 rules tls (some (get_ingress_class_name gs)) (rw (e5, e4) refl) c.s6
          secured in
      rw same (record {
        named = refl;
        placed = refl;
        labelled = refl;
        owned = refl;
        routed = routed;
        class_given = given;
        classed = refl;
        secured = secured;
        annotated = λ k. closed d2 k (
            looped libs gs octops_annotation_custom_prefix (no_suffix libs) d1 d2 u r1 (rw e1 at r2)
              k);
      })
