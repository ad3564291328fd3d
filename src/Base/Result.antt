-- ===== src/Base/Result.antt =====
-- How a Go call ends: with a value, with an error value, or with a run-time panic.
use mathlib.Core.Path.{◌≡◌, refl}
use mathlib.Core.Logic.{◌⊎◌, inl, inr}
use mathlib.Core.Option.{Option, none, some}
use mathlib.Core.List.{List, [], ◌∷◌}

pub data Result {ℓ κ} (E : Type ℓ) (A : Type κ) : Type (ℓ ⊔ κ) where
  ok : A → Result E A
  err : E → Result E A
  panic : Result E A

infixl 5 ◌>>=◌
abbrev pub ◌>>=◌ {ℓ κ μ} :
    {E : Type ℓ} {A : Type κ} {B : Type μ} → Result E A → (A → Result E B) → Result E B
ok a >>= k = k a
err e >>= k = err e
panic >>= k = panic

module _ {ℓ κ} {E : Type ℓ} {A : Type κ} where
  -- A successful call, as a proposition that computes.
  abbrev pub IsOk : Result E A → Type 0
  IsOk (ok _) = Unit
  IsOk _ = ⊥

  pub IsOk-of_eq : {r : Result E A} {a : A} → r ≡ ok a → IsOk r
  IsOk-of_eq e = rw e tt

  pub eq_of_IsOk : (r : Result E A) → IsOk r → (a : A) × (r ≡ ok a)
  eq_of_IsOk (ok a) h = (a, refl)
  eq_of_IsOk (err e) h = absurd h
  eq_of_IsOk panic h = absurd h

  pub ok_inj : {a b : A} → Path (Result E A) (ok a) (ok b) → a ≡ b
  ok_inj e = cc

  -- The `some` value, or the given error.
  abbrev pub or_err : Option A → E → Result E A
  or_err none e = err e
  or_err (some a) e = ok a

  pub Result-cases :
      (r : Result E A) → ((a : A) × (r ≡ ok a)) ⊎ (((e : E) × (r ≡ err e)) ⊎ (r ≡ panic))
  Result-cases (ok a) = inl (a, refl)
  Result-cases (err e) = inr (inl (e, refl))
  Result-cases panic = inr (inr refl)

pub >>=-eq-ok {ℓ κ μ} :
    {E : Type ℓ} {A : Type κ} {B : Type μ} (m : Result E A) (k : A → Result E B) {b : B}
    → (m >>= k) ≡ ok b
    → (a : A) × (m ≡ ok a) × (k a ≡ ok b)
>>=-eq-ok (ok a) k h = (a, refl, h)
>>=-eq-ok (err e) k h = cc
>>=-eq-ok panic k h = cc

-- `for _, x := range xs { if err := body(x); err != nil { return err } }` over a state `A`.
unfoldable pub range {ℓ κ μ} :
    {E : Type ℓ} {A : Type κ} {X : Type μ} → (X → A → Result E A) → List X → A → Result E A
range body [] a = ok a
range body (x ∷ xs) a = body x a >>= λ b. range body xs b
