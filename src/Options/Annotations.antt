-- ===== src/Options/Annotations.antt =====
-- What the annotation options leave on an object.
use gameserver_ingress_contr.Base.{String, ◌<>◌, ◌≡◌, refl, ◌∙◌, Option, none, some, first_some}
use gameserver_ingress_contr.Base.Dict.{Dict, lookup}
use gameserver_ingress_contr.Base.Result.{ok}
use gameserver_ingress_contr.Gameserver.{
  GameServer, has_annotation, octops_annotation_custom_prefix,
}
use gameserver_ingress_contr.Objects.{Ingress}
use gameserver_ingress_contr.Options.Custom.{entries, plain_value}
use gameserver_ingress_contr.Options.Custom.Laws.{updated, lookup-range_custom}
use gameserver_ingress_contr.Options.Custom.Success.{IsFine, range_custom_total}
use gameserver_ingress_contr.Options.Custom.Twice.{IsMap, lookup-entries}
use gameserver_ingress_contr.Options.Ingress.{no_suffix, set_annotations, with_custom_annotations}
use gameserver_ingress_contr.Platform.{Libs}

module _ {E : Type 0} (libs : Libs E) where
  plain-IsFine :
      (prefix : String) (no_suffix : String → String) (d : Dict String)
      → lookup prefix d ≡ none
      → IsFine libs prefix no_suffix (plain_value libs) d
  plain-IsFine prefix no_suffix d h = record { suffixed = h; valued = λ k v e. tt }

  updated-plain :
      (k : String) (o old : Option String) → updated (plain_value libs) k o old ≡ first_some o old
  updated-plain k none old = refl
  updated-plain k (some v) old = refl

  -- If the annotations of the game server are a map and none is the prefix `octops-` alone, the
  -- option succeeds. It changes nothing but the annotations: `k` has the value of the game server's
  -- `octops-k` where that is set, and the value that it had before where it is not.
  pub with_custom_annotations_lem :
      (gs : GameServer) (ingress : Ingress)
      → IsMap gs
      → has_annotation gs octops_annotation_custom_prefix ≡ none
      → (d : Dict String) × (with_custom_annotations libs gs ingress
          ≡ ok (set_annotations ingress d))
        × ((k : String)
            → lookup k d
              ≡ first_some
                  (has_annotation gs (octops_annotation_custom_prefix <> k))
                  (lookup k (ingress.annotations)))
  unfolding with_custom_annotations
  with_custom_annotations_lem gs ingress u bare =
      let fine =
        plain-IsFine octops_annotation_custom_prefix (no_suffix libs) (entries gs.annotations)
          (lookup-entries gs octops_annotation_custom_prefix ∙ bare) in
      let (d, h) =
        range_custom_total libs octops_annotation_custom_prefix (no_suffix libs) (plain_value libs)
          (entries gs.annotations) (ingress.annotations) u fine in
      (
        d,
        rw h,
        λ k.
            lookup-range_custom libs octops_annotation_custom_prefix (no_suffix libs)
              (plain_value libs) (entries gs.annotations) (ingress.annotations) k u h
            ∙ rw lookup-entries
                (updated-plain k (has_annotation gs (octops_annotation_custom_prefix <> k)) _),
      )
