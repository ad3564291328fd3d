-- ===== src/Options/Ingress/Steps.antt =====
-- What each option has done to an Ingress when it succeeds.
use gameserver_ingress_contr.Base.{
  String, ◌≡◌, ◌⊎◌, inl, inr, Bool, true, false, some, List, arith, Bool-cases,
}
use gameserver_ingress_contr.Base.Dict.{Dict, insert, erase}
use gameserver_ingress_contr.Base.Result.{ok, >>=-eq-ok}
use gameserver_ingress_contr.Base.Text.{is_empty}
use gameserver_ingress_contr.Gameserver.{
  GameServer, octops_annotation_custom_prefix, cert_manager_annotation_issuer,
}
use gameserver_ingress_contr.Objects.{Ingress, IngressRule, IngressTls}
use gameserver_ingress_contr.Options.Custom.{
  entries, range_custom, plain_value, template_data, template_value,
}
use gameserver_ingress_contr.Options.Ingress.{
  no_suffix, set_annotations, with_custom_annotations, with_custom_annotations_template,
  terminate_tls, terminated_tls, with_terminated_tls, with_tls, ingress_rules, with_ingress_rule,
  with_tls_cert_issuer, with_ingress_class_name,
}
use gameserver_ingress_contr.Platform.{Libs}

module _ {E : Type 0} (libs : Libs E) (gs : GameServer) (i : Ingress) {i' : Ingress} where
  pub with_custom_annotations_inv :
      with_custom_annotations libs gs i ≡ ok i'
      → (d : Dict String) × (range_custom libs octops_annotation_custom_prefix
            (no_suffix libs)
            (plain_value libs)
            (entries gs.annotations)
            (i.annotations)
          ≡ ok d)
        × (i' ≡ set_annotations i d)
  unfolding with_custom_annotations
  with_custom_annotations_inv h =
      let (d, made, same) = >>=-eq-ok _ (λ d. ok (set_annotations i d)) h in (d, made, cc)

  pub with_custom_annotations_template_inv :
      with_custom_annotations_template libs gs i ≡ ok i'
      → (d : Dict String) × (range_custom libs octops_annotation_custom_prefix
            (no_suffix libs)
            (template_value libs (template_data libs gs))
            (entries gs.annotations)
            (i.annotations)
          ≡ ok d)
        × (i' ≡ set_annotations i d)
  unfolding with_custom_annotations_template
  with_custom_annotations_template_inv h =
      let (d, made, same) = >>=-eq-ok _ (λ d. ok (set_annotations i d)) h in (d, made, cc)

  pub with_ingress_rule_inv :
      (mode : String)
      → with_ingress_rule libs mode gs i ≡ ok i'
      → (rules : List IngressRule) × (ingress_rules libs mode gs ≡ ok rules)
        × (i' ≡ record i { rules = rules })
  unfolding with_ingress_rule
  with_ingress_rule_inv mode h =
      let (rules, made, same) =
        >>=-eq-ok (ingress_rules libs mode gs) (λ rules. ok (record i { rules = rules })) h in
      (rules, made, cc)

  -- TLS is left alone, or it is terminated.
  pub with_tls_inv :
      (mode : String)
      → with_tls libs mode gs i ≡ ok i'
      → ((terminate_tls libs gs ≡ ok false) × (i' ≡ i))
        ⊎ ((tls : List IngressTls) × (terminate_tls libs gs ≡ ok true)
            × (terminated_tls libs mode gs ≡ ok tls)
            × (i' ≡ record i { tls = tls }))
  unfolding with_tls
  with_tls_inv mode h =
      let (b, e, rest) = >>=-eq-ok (terminate_tls libs gs) (with_terminated_tls libs mode gs i) h in
      go b e rest
    where
      go :
          (b : Bool)
          → terminate_tls libs gs ≡ ok b
          → with_terminated_tls libs mode gs i b ≡ ok i'
          → ((terminate_tls libs gs ≡ ok false) × (i' ≡ i))
            ⊎ ((tls : List IngressTls) × (terminate_tls libs gs ≡ ok true)
                × (terminated_tls libs mode gs ≡ ok tls)
                × (i' ≡ record i { tls = tls }))
      go false e rest = inl (e, cc)
      go true e rest =
          let (tls, made, same) =
            >>=-eq-ok (terminated_tls libs mode gs) (λ tls. ok (record i { tls = tls })) rest in
          inr (tls, e, made, cc)

  pub with_ingress_class_name_inv :
      (class_name : String)
      → with_ingress_class_name libs class_name gs i ≡ ok i'
      → (is_empty class_name ≡ false)
        × (i' ≡ record (set_annotations i (erase "kubernetes.io/ingress.class" (i.annotations))) {
          ingress_class_name = some class_name;
        })
  unfolding with_ingress_class_name
  with_ingress_class_name_inv class_name h = elim (Bool-cases (is_empty class_name)) [
    | inl e ↦ absurd (ground arith)
    | inr e ↦ (e, ground arith)
  ]

  pub with_tls_cert_issuer_inv :
      (issuer : String)
      → is_empty issuer ≡ false
      → with_tls_cert_issuer libs issuer gs i ≡ ok i'
      → ((terminate_tls libs gs ≡ ok false) × (i' ≡ i))
        ⊎ ((terminate_tls libs gs ≡ ok true)
            × (i'
                ≡ set_annotations i (insert cert_manager_annotation_issuer issuer (i.annotations))))
  unfolding with_tls_cert_issuer
  with_tls_cert_issuer_inv issuer full h = ground arith
