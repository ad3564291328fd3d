-- ===== src/Options/Custom/Success.antt =====
-- When the loop over the annotations succeeds, said of its keys and values.
use text.Mathlib.Text.{◌==◌}
use text.Mathlib.TextEquality.{eq_iff}
use text.Mathlib.TextLemmas.{append-nil}
use gameserver_ingress_contr.Base.{
  String, ◌<>◌, ◌≡◌, refl, sym, ◌∙◌, inl, inr, false, Option, none, some, [], ◌∷◌, arith,
  if◌then◌else◌, Bool-cases, Option-cases,
}
use gameserver_ingress_contr.Base.Dict.{Dict, lookup, NodupKeys, lookup-cons, lookup-nil}
use gameserver_ingress_contr.Base.Result.{
  Result, ok, IsOk, IsOk-of_eq, eq_of_IsOk, range, >>=-eq-ok,
}
use gameserver_ingress_contr.Base.Text.{is_empty, strip_prefix}
use gameserver_ingress_contr.Base.Text.Laws.{is_empty_iff}
use gameserver_ingress_contr.Platform.{Libs}
use gameserver_ingress_contr.Options.Custom.{assign, custom_step, range_custom}
use gameserver_ingress_contr.Options.Custom.Laws.{unprefixed_ne, prefixed_eq, step_inversion}

module _ {E : Type 0} (libs : Libs E) (prefix : String) (no_suffix : String → String)
    (value : String → String → Result E (Option String)) where
  -- No key is the prefix alone, and every prefixed key has a value that can be made.
  pub record IsFine (d : Dict String) : Type 0 where
    pub suffixed : lookup prefix d ≡ none
    pub valued : (k v : String) → lookup (prefix <> k) d ≡ some v → IsOk (value k v)

  IsFine-nil : IsFine []
  IsFine-nil = record {
    suffixed = lookup-nil prefix;
    valued = λ k v h. ground (arith, lookup-nil {V = String} (prefix <> k));
  }

  -- `lookup prefix`, as the lookup of the prefix with the empty text behind it.
  bare : (d : Dict String) → lookup (prefix <> "") d ≡ lookup prefix d
  bare d = rw append-nil

  module _ (k0 v0 : String) (d : Dict String) where
    skip_key :
        strip_prefix k0 prefix ≡ none
        → (k : String) → lookup (prefix <> k) ((k0, v0) ∷ d) ≡ lookup (prefix <> k) d
    skip_key plain k =
        ground (arith, lookup-cons (prefix <> k) k0 v0 d, unprefixed_ne k0 prefix k plain)

    take_key :
        {c : String}
        → strip_prefix k0 prefix ≡ some c
        → (k : String)
        → lookup (prefix <> k) ((k0, v0) ∷ d) ≡ (if c == k then some v0 else lookup (prefix <> k) d)
    take_key {c} e k =
        ground (arith, lookup-cons (prefix <> k) k0 v0 d, prefixed_eq k0 prefix k c e)

    IsFine-skip : strip_prefix k0 prefix ≡ none → IsFine d → IsFine ((k0, v0) ∷ d)
    IsFine-skip plain f = record {
      suffixed = sym (bare _) ∙ skip_key plain "" ∙ bare d ∙ f.suffixed;
      valued = λ k v h. f.valued k v (sym (skip_key plain k) ∙ h);
    }

    IsFine-unskip : strip_prefix k0 prefix ≡ none → IsFine ((k0, v0) ∷ d) → IsFine d
    IsFine-unskip plain f = record {
      suffixed = sym (bare d) ∙ sym (skip_key plain "") ∙ bare _ ∙ f.suffixed;
      valued = λ k v h. f.valued k v (skip_key plain k ∙ h);
    }

    module _ {c : String} (e : strip_prefix k0 prefix ≡ some c) where
      IsFine-take : is_empty c ≡ false → IsOk (value c v0) → IsFine d → IsFine ((k0, v0) ∷ d)
      IsFine-take full good f = record {
        suffixed =
            sym (bare _)
            ∙ ground (arith, take_key e "", eq_iff c "", is_empty_iff c, bare d, f.suffixed);
        valued = λ k v h. elim (Bool-cases (c == k)) [
          | inl same ↦
              let vs : v0 ≡ v = ground (arith, take_key e k) in
              rw (← (eq_iff c k).0 same, ← vs) good
          | inr differ ↦ f.valued k v (ground (arith, take_key e k))
        ];
      }

      IsFine-untake : lookup k0 d ≡ none → IsFine ((k0, v0) ∷ d) → IsFine d
      IsFine-untake fresh f = record {
        suffixed =
            sym (bare d)
            ∙ ground (
              arith,
              take_key e "",
              prefixed_eq k0 prefix "" c e,
              eq_iff k0 (prefix <> ""),
              bare ((k0, v0) ∷ d),
              f.suffixed,
            );
        valued = λ k v h.
            f.valued k v
              (ground (arith, take_key e k, prefixed_eq k0 prefix k c e, eq_iff k0 (prefix <> k)));
      }

      value_fine : IsFine ((k0, v0) ∷ d) → (is_empty c ≡ false) × IsOk (value c v0)
      value_fine f = (
        ground (arith, take_key e "", eq_iff c "", is_empty_iff c, bare ((k0, v0) ∷ d), f.suffixed),
        f.valued c v0 (ground (arith, take_key e c, eq_iff c c)),
      )

  abbrev step : String → String → Dict String → Result E (Dict String)
  step k0 v0 = custom_step libs prefix no_suffix value (k0, v0)

  abbrev loop : Dict String → Dict String → Result E (Dict String)
  loop = range_custom libs prefix no_suffix value

  step-IsFine :
      (k0 v0 : String) (d out : Dict String) {out1 : Dict String}
      → step k0 v0 out ≡ ok out1
      → IsFine d
      → IsFine ((k0, v0) ∷ d)
  step-IsFine k0 v0 d out h f = elim (step_inversion libs prefix no_suffix value k0 v0 out h) [
    | inl (plain, _) ↦ IsFine-skip k0 v0 d plain f
    | inr (c, x, e, ev, full, _) ↦ IsFine-take k0 v0 d e full (IsOk-of_eq ev) f
  ]

  pub range_custom-IsFine :
      (d out : Dict String) {out' : Dict String}
      → range_custom libs prefix no_suffix value d out ≡ ok out'
      → IsFine d
  unfolding range_custom range
  range_custom-IsFine [] out h = IsFine-nil
  range_custom-IsFine ((k0, v0) ∷ d) out h =
      let (out1, stepped, rest) = >>=-eq-ok (step k0 v0 out) (loop d) h in
      step-IsFine k0 v0 d out stepped (range_custom-IsFine d out1 rest)

  -- A round on a fine map succeeds, and the rest of the map is fine.
  step_total :
      (k0 v0 : String) (d out : Dict String)
      → lookup k0 d ≡ none
      → IsFine ((k0, v0) ∷ d)
      → (out1 : Dict String) × (step k0 v0 out ≡ ok out1) × IsFine d
  unfolding custom_step
  step_total k0 v0 d out fresh f = elim (Option-cases (strip_prefix k0 prefix)) [
    | inl plain ↦ (out, ground arith, IsFine-unskip k0 v0 d plain f)
    | inr (c, e) ↦
        let (full, good) = value_fine k0 v0 d e f in
        let (x, ev) = eq_of_IsOk (value c v0) good in
        (assign c x out, ground arith, IsFine-untake k0 v0 d e fresh f)
  ]

  pub range_custom_total :
      (d out : Dict String)
      → NodupKeys d
      → IsFine d
      → (out' : Dict String) × (range_custom libs prefix no_suffix value d out ≡ ok out')
  unfolding range_custom range
  range_custom_total [] out u f = (out, refl)
  range_custom_total ((k0, v0) ∷ d) out (fresh, u) f =
      let (out1, stepped, fine) = step_total k0 v0 d out fresh f in
      rw stepped (range_custom_total d out1 u fine)
