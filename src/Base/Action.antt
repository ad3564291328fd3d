-- ===== src/Base/Action.antt =====
-- Calls that read and change a world: what they did before an error or a panic stays done.
use mathlib.Core.Path.{◌≡◌, refl, ap}
use gameserver_ingress_contr.Base.Result.{Result, ok, err, panic, IsOk-of_eq}

module _ (E W : Type 0) where
  abbrev pub Action : Type 0 → Type 0
  Action A = W → Result E A × W

-- What the caller of a call sees: its value or its error. A panic goes on.
abbrev caught : {E A : Type 0} → Result E A → Result E (Result E A)
caught panic = panic
caught r = ok r

module _ {E W : Type 0} where
  module _ {A : Type 0} where
    abbrev pub pure : A → Action E W A
    pure a w = (ok a, w)

    abbrev pub raise : E → Action E W A
    raise e w = (err e, w)

    abbrev pub crash : Action E W A
    crash w = (panic, w)

    -- A call whose error the caller looks at itself: `result, err := call()`.
    abbrev pub attempt : Action E W A → Action E W (Result E A)
    attempt m w = let (r, w') = m w in (caught r, w')

    abbrev pub lift : Result E A → Action E W A
    lift r w = (r, w)

  abbrev pub modify : (W → W) → Action E W (Unit {0})
  modify f w = (ok tt, f w)

infixl 5 ◌>>=◌ ◌>>◌
unfoldable pub ◌>>=◌ : {E W A B : Type 0} → Action E W A → (A → Action E W B) → Action E W B
◌>>=◌ m k w =
    let (r, w') = m w in elim r [ ok a ↦ k a w' | err e ↦ (err e, w') | panic ↦ (panic, w') ]

abbrev pub ◌>>◌ : {E W B : Type 0} → Action E W (Unit {0}) → Action E W B → Action E W B
m >> k = m >>= λ _. k

-- A call that is followed by another, where it is known how the first one ends.
module _ {E W A B : Type 0} (m : Action E W A) (k : A → Action E W B) {w w' : W} where
  pub >>=-ok : {a : A} → m w ≡ (ok a, w') → (m >>= k) w ≡ k a w'
  unfolding ◌>>=◌
  >>=-ok e = ap (λ x. ((λ _. x) >>= k) w) e

  pub >>=-err : {e : E} → m w ≡ (err e, w') → (m >>= k) w ≡ (err e, w')
  unfolding ◌>>=◌
  >>=-err e = ap (λ x. ((λ _. x) >>= k) w) e

  pub >>=-panic : m w ≡ (panic, w') → (m >>= k) w ≡ (panic, w')
  unfolding ◌>>=◌
  >>=-panic e = ap (λ x. ((λ _. x) >>= k) w) e

  -- A sequence of calls returns a value only if each of them does.
  pub >>=-inv :
      {b : B}
      → (m >>= k) w ≡ (ok b, w')
      → (a : A) × (w1 : W) × (m w ≡ (ok a, w1)) × (k a w1 ≡ (ok b, w'))
  unfolding ◌>>=◌
  >>=-inv {b} e = go (m w) refl e
    where
      go :
          (x : Result E A × W)
          → m w ≡ x
          → ((λ (_ : W). x) >>= k) w ≡ (ok b, w')
          → (a : A) × (w1 : W) × (m w ≡ (ok a, w1)) × (k a w1 ≡ (ok b, w'))
      go (ok a, w1) q e = (a, w1, q, e)
      go (err _, w1) q e = absurd (IsOk-of_eq (ap (λ x. x.0) e))
      go (panic, w1) q e = absurd (IsOk-of_eq (ap (λ x. x.0) e))
