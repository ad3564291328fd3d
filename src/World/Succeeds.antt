-- ===== src/World/Succeeds.antt =====
-- Calls that return a value wherever the cluster is in order, and leave it in order.
use mathlib.Core.Path.{subst}
use gameserver_ingress_contr.Base.{◌≡◌, ◌∙◌, refl, String, Bool, true, false}
use gameserver_ingress_contr.Base.Action.{◌>>=◌}
use gameserver_ingress_contr.Base.Result.{Result, ok, err, panic, IsOk}
use gameserver_ingress_contr.Platform.{Libs}
use gameserver_ingress_contr.Reconcilers.GameServer.{wrapping}
use gameserver_ingress_contr.World.{World, Call, Attempted, ended, again}

-- A value, or an error of the kind.
abbrev pub Expected : {E A : Type 0} → (E → Bool) → Result E A → Type 0
Expected kind (ok _) = Unit
Expected kind (err e) = kind e ≡ true
Expected kind panic = ⊥

module _ {E S : Type 0} (P : S → Type 0) where
  abbrev pub Succeeds : {A : Type 0} → Call E S A → Type 0
  Succeeds call = (w : World S) → P w.cluster → IsOk (call w).0 × P (call w).1.cluster

  -- A call that may also fail in one way.
  abbrev pub Answers : {A : Type 0} → (E → Bool) → Call E S A → Type 0
  Answers kind call = (w : World S) → P w.cluster → Expected kind (call w).0 × P (call w).1.cluster

  module _ {A : Type 0} where
    pub Succeeds->>= :
        {B : Type 0} (m : Call E S A) (k : A → Call E S B)
        → Succeeds m
        → ((a : A) → Succeeds (k a))
        → Succeeds (m >>= k)
    unfolding ◌>>=◌
    Succeeds->>= {B} m k hm hk w p = go (m w) (hm w p)
      where
        go :
            (x : Result E A × World S)
            → IsOk x.0 × P x.1.cluster
            → IsOk (((λ _. x) >>= k) w).0 × P (((λ _. x) >>= k) w).1.cluster
        go (ok a, w1) (i, q) = hk a w1 q
        go (err _, w1) (i, q) = absurd i
        go (panic, w1) (i, q) = absurd i

    pub Succeeds-wrapping :
        (libs : Libs E) (text : String) (call : Call E S A)
        → Succeeds call
        → Succeeds (wrapping libs text call)
    unfolding wrapping
    Succeeds-wrapping libs text call h w p = go (call w) (h w p)
      where
        go :
            (x : Result E A × World S)
            → IsOk x.0 × P x.1.cluster
            → IsOk (wrapping libs text (λ _. x) w).0 × P (wrapping libs text (λ _. x) w).1.cluster
        go (ok a, w1) q = q
        go (err _, w1) (i, q) = absurd i
        go (panic, w1) (i, q) = absurd i

    pub Answers-wrapping :
        (libs : Libs E) (kind : E → Bool) (text : String) (call : Call E S A) (w : World S)
        → ((e : E) (m : String) → kind (libs.wrap e m) ≡ kind e)
        → Expected kind (call w).0 × P (call w).1.cluster
        → let (r, w') = wrapping libs text call w in Expected kind r × P w'.cluster
    unfolding wrapping
    Answers-wrapping libs kind text call w same h = go (call w) h
      where
        go :
            (x : Result E A × World S)
            → Expected kind x.0 × P x.1.cluster
            → let (r, w') = wrapping libs text (λ _. x) w in Expected kind r × P w'.cluster
        go (ok a, w1) q = q
        go (err e, w1) (i, q) = (same e text ∙ i, q)
        go (panic, w1) (i, q) = absurd i

    -- A row of attempts of a call that fails with conflicts only ends with a value or a conflict.
    pub Answers-Attempted :
        {libs : Libs E} {f : Call E S A} {w : World S} {x : Result E A × World S}
        → Answers libs.is_conflict f
        → Attempted libs f w x
        → P w.cluster
        → Expected libs.is_conflict x.0 × P x.1.cluster
    Answers-Attempted {libs = libs} {w = w} h (ended e) p =
        subst (λ y. Expected libs.is_conflict y.0 × P y.1.cluster) e (h w p)
    Answers-Attempted {libs = libs} {w = w} h (again e c rest) p =
        Answers-Attempted h rest
          (subst (λ y. Expected libs.is_conflict y.0 × P y.1.cluster) e (h w p)).1

-- A call that may fail in one way only, and has not, has returned a value.
pub Expected-IsOk :
    {E A : Type 0} (kind : E → Bool) (r : Result E A)
    → Expected kind r
    → ((e : E) → r ≡ err e → kind e ≡ false)
    → IsOk r
Expected-IsOk kind (ok a) i other = tt
Expected-IsOk kind (err e) i other = let wrong : kind e ≡ false = other e refl in absurd cc
Expected-IsOk kind panic i other = absurd i
