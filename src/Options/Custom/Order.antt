-- ===== src/Options/Custom/Order.antt =====
-- Go visits the keys of a map in any order: two orders of the loop over the annotations.
use gameserver_ingress_contr.Base.{String, ◌<>◌, ◌≡◌, ap, sym, ◌∙◌, Option}
use gameserver_ingress_contr.Base.Dict.{Dict, lookup, NodupKeys}
use gameserver_ingress_contr.Base.Result.{Result, ok}
use gameserver_ingress_contr.Platform.{Libs}
use gameserver_ingress_contr.Options.Custom.{range_custom}
use gameserver_ingress_contr.Options.Custom.Laws.{updated, lookup-range_custom}
use gameserver_ingress_contr.Options.Custom.Success.{
  IsFine, range_custom-IsFine, range_custom_total,
}

module _ {E : Type 0} (libs : Libs E) (prefix : String) (no_suffix : String → String)
    (value : String → String → Result E (Option String)) where
  IsFine-same :
      (d d' : Dict String)
      → ((k : String) → lookup k d' ≡ lookup k d)
      → IsFine libs prefix no_suffix value d
      → IsFine libs prefix no_suffix value d'
  IsFine-same d d' same f = record {
    suffixed = same prefix ∙ f.suffixed;
    valued = λ k v h. f.valued k v (sym (same (prefix <> k)) ∙ h);
  }

  -- Take two listings of one map, in any two orders. If the loop succeeds on one of them, it
  -- succeeds on the other, and every key has the same value after both.
  pub range_custom_order :
      (d d' out : Dict String) {out1 : Dict String}
      → NodupKeys d
      → NodupKeys d'
      → ((k : String) → lookup k d' ≡ lookup k d)
      → range_custom libs prefix no_suffix value d out ≡ ok out1
      → (out2 : Dict String) × (range_custom libs prefix no_suffix value d' out ≡ ok out2)
        × ((k : String) → lookup k out2 ≡ lookup k out1)
  range_custom_order d d' out {out1} u u' same h =
      let fine = IsFine-same d d' same (range_custom-IsFine libs prefix no_suffix value d out h) in
      let (out2, h') = range_custom_total libs prefix no_suffix value d' out u' fine in
      (
        out2,
        h',
        λ k.
            lookup-range_custom libs prefix no_suffix value d' out k u' h'
            ∙ ap (λ o. updated value k o (lookup k out)) (same (prefix <> k))
            ∙ sym (lookup-range_custom libs prefix no_suffix value d out k u h),
      )
