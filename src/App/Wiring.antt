-- ===== src/App/Wiring.antt =====
-- What StartController decides about the Gateway API.
use text.Mathlib.Text.{◌==◌}
use text.Mathlib.TextEquality.{eq_iff}
use gameserver_ingress_contr.Base.{
  String, ◌≡◌, refl, ◌↔◌, true, false, List, [], ◌∷◌, ◌⊎◌, inl, inr, Bool-cases, arith,
}
use gameserver_ingress_contr.Base.Result.{Result, ok, err, panic, Result-cases, IsOk-of_eq}
use gameserver_ingress_contr.App.{listed, check_gateway_api_crds, resolve_gateway_api_enabled}
use gameserver_ingress_contr.Platform.{Libs}

-- A resource of this name is in the list.
abbrev pub Lists : String → List String → Type 0
Lists name [] = ⊥
Lists name (r ∷ rs) = (r ≡ name) ⊎ Lists name rs

listed-Lists : (name : String) (rs : List String) → Lists name rs → listed name rs ≡ true
listed-Lists name [] i = absurd i
listed-Lists name (r ∷ rs) (inl e) = ground (arith, eq_iff r name)
listed-Lists name (r ∷ rs) (inr i) = let e = listed-Lists name rs i in ground arith

Lists-listed : (name : String) (rs : List String) → listed name rs ≡ true → Lists name rs
Lists-listed name [] e = absurd (ground arith)
Lists-listed name (r ∷ rs) e = elim (Bool-cases (r == name)) [
  | inl same ↦ inl (ground (arith, eq_iff r name))
  | inr other ↦ inr (Lists-listed name rs (ground arith))
]

-- The API server says that it has the resource HTTPRoute.
abbrev pub IsInstalled : {E : Type 0} → Result E (List String) → Type 0
IsInstalled (ok names) = Lists "httproutes" names
IsInstalled (err _) = ⊥
IsInstalled panic = ⊥

module _ {E : Type 0} (libs : Libs E) where
  IsInstalled-check :
      (resources : Result E (List String))
      → check_gateway_api_crds libs resources ≡ ok tt
      → IsInstalled resources
  unfolding check_gateway_api_crds
  IsInstalled-check (ok names) e = Lists-listed "httproutes" names (ground arith)
  IsInstalled-check (err x) e = absurd (IsOk-of_eq e)
  IsInstalled-check panic e = absurd (IsOk-of_eq e)

  check-IsInstalled :
      (resources : Result E (List String))
      → IsInstalled resources
      → check_gateway_api_crds libs resources ≡ ok tt
  unfolding check_gateway_api_crds
  check-IsInstalled (ok names) i = let e = listed-Lists "httproutes" names i in rw e refl
  check-IsInstalled (err x) i = absurd i
  check-IsInstalled panic i = absurd i

  -- The gateway backend is enabled in just these cases: the flag `--enable-gateway-api` is not
  -- "false", and the API server lists the resource `httproutes` of gateway.networking.k8s.io/v1.
  pub resolve_gateway_api_enabled-IsInstalled :
      (mode : String) (resources : Result E (List String))
      → (resolve_gateway_api_enabled libs mode resources ≡ ok true)
        ↔ (((mode == "false") ≡ false) × IsInstalled resources)
  unfolding resolve_gateway_api_enabled
  resolve_gateway_api_enabled-IsInstalled mode resources = (forward, backward)
    where
      forward :
          resolve_gateway_api_enabled libs mode resources ≡ ok true
          → ((mode == "false") ≡ false) × IsInstalled resources
      forward h = elim (Bool-cases (mode == "false")) [
        | inl off ↦ absurd (ground arith)
        | inr on ↦ elim (Result-cases (check_gateway_api_crds libs resources)) [
          | inl (tt, e) ↦ (on, IsInstalled-check resources e)
          | inr (inl (x, e)) ↦ absurd (ground arith)
          | inr (inr e) ↦ absurd (ground arith)
        ]
      ]

      backward :
          ((mode == "false") ≡ false) × IsInstalled resources
          → resolve_gateway_api_enabled libs mode resources ≡ ok true
      backward (on, i) =
          let e = check-IsInstalled resources i in
          elim (Bool-cases (mode == "true")) [
            | inl t ↦ rw (on, t, e) refl
            | inr f ↦ rw (on, f, e) refl
          ]
