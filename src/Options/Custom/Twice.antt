-- ===== src/Options/Custom/Twice.antt =====
-- The two annotation loops of every object, one after the other: the plain values, then those that
-- are templates.
use gameserver_ingress_contr.Base.{String, ◌<>◌, ◌≡◌, refl, ap, ◌∙◌, Option, none, some, []}
use gameserver_ingress_contr.Base.Dict.{Dict, lookup, NodupKeys, lookup-nil}
use gameserver_ingress_contr.Base.Result.{ok}
use gameserver_ingress_contr.Gameserver.{GameServer, has_annotation, read}
use gameserver_ingress_contr.Options.Custom.{
  entries, range_custom, template_data, template_value, plain_value,
}
use gameserver_ingress_contr.Options.Custom.Laws.{updated, lookup-range_custom}
use gameserver_ingress_contr.Platform.{Libs}

-- The annotations of a game server form a Go map: no key is listed twice.
abbrev pub IsMap : GameServer → Type 0
IsMap gs = NodupKeys (entries gs.annotations)

pub lookup-entries :
    (gs : GameServer) (k : String) → lookup k (entries gs.annotations) ≡ has_annotation gs k
unfolding has_annotation
lookup-entries gs k = go gs.annotations
  where
    go : (m : Option (Dict String)) → lookup k (entries m) ≡ read k m
    go none = lookup-nil k
    go (some d) = refl

module _ {E : Type 0} (libs : Libs E) (gs : GameServer) (prefix : String)
    (no_suffix : String → String) where
  -- The value of the custom annotation `k`: that of the game server's annotation `prefix` ++ `k`,
  -- as it stands, or rendered if it is a template.
  abbrev pub custom_annotation : String → Option String
  custom_annotation k =
      let given = has_annotation gs (prefix <> k) in
      updated (template_value libs (template_data libs gs)) k given given

  as_given : (k : String) (o : Option String) → updated (plain_value libs) k o none ≡ o
  as_given k none = refl
  as_given k (some v) = refl

  pub looped :
      (d1 d2 : Dict String)
      → IsMap gs
      → range_custom libs prefix no_suffix (plain_value libs) (entries gs.annotations) [] ≡ ok d1
      → range_custom libs prefix no_suffix
          (template_value libs (template_data libs gs))
          (entries gs.annotations)
          d1
        ≡ ok d2
      → (k : String) → lookup k d2 ≡ custom_annotation k
  looped d1 d2 u r1 r2 k =
      lookup-range_custom libs _ _ _ (entries gs.annotations) d1 k u r2
      ∙ rw
          (
            lookup-entries,
            lookup-range_custom libs _ _ _ (entries gs.annotations) [] k u r1,
            lookup-entries,
            lookup-nil,
          )
          (ap
            (updated (template_value libs (template_data libs gs)) k
              (has_annotation gs (prefix <> k)))
            (as_given k (has_annotation gs (prefix <> k))))
