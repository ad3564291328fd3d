-- ===== src/Options/Custom/Laws.antt =====
-- What the loop over the annotations leaves, key by key, in whatever order it visits them.
use Prim.Native.String.{◌++◌ as ◌<>◌}
use mathlib.Core.Option.{some-injective}
use text.Mathlib.Text.{◌==◌}
use text.Mathlib.TextEquality.{eq_iff}
use gameserver_ingress_contr.Base.{
  String, ◌≡◌, ap, sym, ◌∙◌, ◌⊎◌, inl, inr, false, Option, none, some, [], ◌∷◌, arith, Bool-cases,
  Bool_ext, Option-cases,
}
use gameserver_ingress_contr.Base.Dict.{
  Dict, lookup, NodupKeys, lookup-insert, lookup-cons, lookup-nil,
}
use gameserver_ingress_contr.Base.Result.{Result, ok, Result-cases, range, >>=-eq-ok}
use gameserver_ingress_contr.Base.Text.{is_empty, strip_prefix}
use gameserver_ingress_contr.Base.Text.Laws.{strip_prefix-append, strip_prefix_sound}
use gameserver_ingress_contr.Platform.{Libs}
use gameserver_ingress_contr.Options.Custom.{assign, custom_step, range_custom}

-- A key that lacks the prefix is no prefixed key.
pub unprefixed_ne :
    (k0 prefix k : String) → strip_prefix k0 prefix ≡ none → (k0 == (prefix <> k)) ≡ false
unprefixed_ne k0 prefix k e = elim (Bool-cases (k0 == (prefix <> k))) [
  | inl same ↦
      let bad : none ≡ some k =
        sym e
        ∙ ap (λ s. strip_prefix s prefix) ((eq_iff k0 (prefix <> k)).0 same)
        ∙ strip_prefix-append prefix k in
      cc
  | inr differ ↦ differ
]

-- A key with the prefix is `prefix <> k` exactly when what follows the prefix is `k`.
pub prefixed_eq :
    (k0 prefix k c : String) → strip_prefix k0 prefix ≡ some c → (k0 == (prefix <> k)) ≡ (c == k)
prefixed_eq k0 prefix k c e =
    Bool_ext (k0 == (prefix <> k)) (c == k)
      (λ h. (eq_iff c k).1 (stripped ((eq_iff k0 (prefix <> k)).0 h)))
      (λ h. (eq_iff k0 (prefix <> k)).1 (found ∙ ap (λ s. prefix <> s) ((eq_iff c k).0 h)))
  where
    stripped : k0 ≡ prefix <> k → c ≡ k
    stripped p =
        some-injective c k
          (sym e ∙ ap (λ s. strip_prefix s prefix) p ∙ strip_prefix-append prefix k)

    found : k0 ≡ prefix <> c
    found = strip_prefix_sound k0 prefix e

-- What a made value does to the value that a key had before.
abbrev pub chosen : {E : Type 0} → Result E (Option String) → Option String → Option String
chosen (ok (some x)) old = some x
chosen _ old = old

-- The value of the custom key `k`, from the annotation of the prefixed key and the old value.
abbrev pub updated :
    {E : Type 0}
    → (String → String → Result E (Option String))
    → String
    → Option String
    → Option String
    → Option String
updated value k none old = old
updated value k (some v) old = chosen (value k v) old

module _ {E : Type 0} (libs : Libs E) (prefix : String) (no_suffix : String → String)
    (value : String → String → Result E (Option String)) where
  abbrev loop : Dict String → Dict String → Result E (Dict String)
  loop = range_custom libs prefix no_suffix value

  -- The value of a key after the loop.
  abbrev pub after : Dict String → Dict String → String → Option String
  after d out k = updated value k (lookup (prefix <> k) d) (lookup k out)

  after-skip :
      (k0 v0 : String) (d out : Dict String) (k : String)
      → strip_prefix k0 prefix ≡ none
      → after ((k0, v0) ∷ d) out k ≡ after d out k
  after-skip k0 v0 d out k e =
      ground (arith, lookup-cons (prefix <> k) k0 v0 d, unprefixed_ne k0 prefix k e)

  after-write :
      (k0 v0 c : String) (x : Option String) (d out : Dict String) (k : String)
      → strip_prefix k0 prefix ≡ some c
      → value c v0 ≡ ok x
      → lookup k0 d ≡ none
      → after ((k0, v0) ∷ d) out k ≡ after d (assign c x out) k
  after-write k0 v0 c none d out k e ev fresh = ground (
    arith,
    lookup-cons (prefix <> k) k0 v0 d,
    prefixed_eq k0 prefix k c e,
    eq_iff c k,
    eq_iff k0 (prefix <> k),
  )
  after-write k0 v0 c (some x) d out k e ev fresh = ground (
    arith,
    lookup-cons (prefix <> k) k0 v0 d,
    prefixed_eq k0 prefix k c e,
    eq_iff c k,
    eq_iff k0 (prefix <> k),
    lookup-insert k c x out,
  )

  pub step_inversion :
      (k0 v0 : String) (out : Dict String) {out1 : Dict String}
      → custom_step libs prefix no_suffix value (k0, v0) out ≡ ok out1
      → ((strip_prefix k0 prefix ≡ none) × (out1 ≡ out))
        ⊎ ((c : String) × (x : Option String) × (strip_prefix k0 prefix ≡ some c)
            × (value c v0 ≡ ok x)
            × (is_empty c ≡ false)
            × (out1 ≡ assign c x out))
  unfolding custom_step
  step_inversion k0 v0 out {out1} h = elim (Option-cases (strip_prefix k0 prefix)) [
    | inl plain ↦ inl (plain, ground arith)
    | inr (c, e) ↦ elim (Result-cases (value c v0)) [
      | inl (x, ev) ↦ inr (c, x, e, ev, ground arith, ground arith)
      | inr (inl (x, ev)) ↦ absurd (ground arith)
      | inr (inr ev) ↦ absurd (ground arith)
    ]
  ]

  after-step :
      (k0 v0 : String) (d out out1 : Dict String) (k : String)
      → lookup k0 d ≡ none
      → custom_step libs prefix no_suffix value (k0, v0) out ≡ ok out1
      → after d out1 k ≡ after ((k0, v0) ∷ d) out k
  after-step k0 v0 d out out1 k fresh stepped = elim (step_inversion k0 v0 out stepped) [
    | inl (plain, same) ↦ rw same (sym (after-skip k0 v0 d out k plain))
    | inr (c, x, e, ev, _, same) ↦ rw same (sym (after-write k0 v0 c x d out k e ev fresh))
  ]

  pub lookup-range_custom :
      (d out : Dict String) {out' : Dict String} (k : String)
      → NodupKeys d
      → range_custom libs prefix no_suffix value d out ≡ ok out'
      → lookup k out' ≡ after d out k
  unfolding range_custom range
  lookup-range_custom [] out {out'} k u h = ground (arith, lookup-nil {V = String} (prefix <> k))
  lookup-range_custom ((k0, v0) ∷ d) out {out'} k (fresh, u) h =
      let (out1, stepped, rest) =
        >>=-eq-ok (custom_step libs prefix no_suffix value (k0, v0) out)
          (λ b. range_custom libs prefix no_suffix value d b) h in
      lookup-range_custom d out1 k u rest ∙ after-step k0 v0 d out out1 k fresh stepped
