-- ===== src/Options/Custom/Fine.antt =====
-- When the two loops over the annotations succeed, said of the annotations of the game server.
use gameserver_ingress_contr.Base.{
  String, ◌<>◌, ◌≡◌, ◌≢◌, sym, ◌∙◌, true, Option, none, some, [], Bool-cases, Option-cases, inl,
  inr,
}
use gameserver_ingress_contr.Base.Dict.{Dict}
use gameserver_ingress_contr.Base.Result.{Result, ok, IsOk}
use gameserver_ingress_contr.Base.Text.{contains}
use gameserver_ingress_contr.Gameserver.{GameServer, has_annotation}
use gameserver_ingress_contr.Options.Custom.{
  entries, range_custom, plain_value, template_value, template_data,
}
use gameserver_ingress_contr.Options.Custom.Success.{range_custom-IsFine, range_custom_total}
use gameserver_ingress_contr.Options.Custom.Twice.{IsMap, lookup-entries}
use gameserver_ingress_contr.Platform.{Libs, TemplateData}

module _ {E : Type 0} (libs : Libs E) where
  -- A value that is written like a template is one that the template engine accepts.
  abbrev pub Renders : TemplateData → String → Type 0
  Renders fields v = contains v "{{" ≡ true → contains v "}}" ≡ true → libs.render v fields ≢ none

  template_value-Renders :
      (fields : TemplateData) (k v : String)
      → IsOk (template_value libs fields k v)
      → Renders fields v
  unfolding template_value
  template_value-Renders fields k v i opens closes e = absurd (rw (opens, closes, e) at i)

  Renders-template_value :
      (fields : TemplateData) (k v : String)
      → Renders fields v
      → IsOk (template_value libs fields k v)
  unfolding template_value
  Renders-template_value fields k v h = elim (Bool-cases (contains v "{{")) [
    | inr e ↦ rw e tt
    | inl opens ↦ elim (Bool-cases (contains v "}}")) [
      | inr e ↦ rw (opens, e) tt
      | inl closes ↦ elim (Option-cases (libs.render v fields)) [
        | inl e ↦ absurd (h opens closes e)
        | inr (parsed, e) ↦ rw (opens, closes, e) tt
      ]
    ]
  ]

module _ {E : Type 0} (libs : Libs E) (gs : GameServer) (prefix : String) where
  -- No annotation is the prefix alone, and those of the prefix that are templates can be rendered.
  pub record HasFineCustoms : Type 0 where
    pub suffixed : has_annotation gs prefix ≡ none
    pub rendered :
        (k v : String)
        → has_annotation gs (prefix <> k) ≡ some v
        → Renders libs (template_data libs gs) v

  module _ (no_suffix : String → String) where
    abbrev loop :
        (String → String → Result E (Option String)) → Dict String → Result E (Dict String)
    loop value = range_custom libs prefix no_suffix value (entries gs.annotations)

    -- Both loops succeed, whatever the annotations before are.
    pub fine_loops :
        IsMap gs
        → HasFineCustoms
        → (d1 : Dict String) × (d2 : Dict String) × (loop (plain_value libs) [] ≡ ok d1)
          × (loop (template_value libs (template_data libs gs)) d1 ≡ ok d2)
    fine_loops u f =
        let suffixed = lookup-entries gs prefix ∙ f.suffixed in
        let (d1, r1) =
          range_custom_total libs prefix no_suffix (plain_value libs) (entries gs.annotations) [] u
            (record { suffixed = suffixed; valued = λ k v e. tt }) in
        let (d2, r2) =
          range_custom_total libs prefix no_suffix (template_value libs (template_data libs gs))
            (entries gs.annotations) d1 u
            (record {
              suffixed = suffixed;
              valued = λ k v e.
                  Renders-template_value libs (template_data libs gs) k v
                    (f.rendered k v (sym (lookup-entries gs (prefix <> k)) ∙ e));
            }) in
        (d1, d2, r1, r2)

    pub loops_fine :
        (d : Dict String) {d' : Dict String}
        → loop (template_value libs (template_data libs gs)) d ≡ ok d'
        → HasFineCustoms
    loops_fine d r =
        let f =
          range_custom-IsFine libs prefix no_suffix (template_value libs (template_data libs gs))
            (entries gs.annotations) d r in
        record {
          suffixed = sym (lookup-entries gs prefix) ∙ f.suffixed;
          rendered = λ k v e.
              template_value-Renders libs (template_data libs gs) k v
                (f.valued k v (lookup-entries gs (prefix <> k) ∙ e));
        }
