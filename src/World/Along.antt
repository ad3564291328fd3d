-- ===== src/World/Along.antt =====
-- Calls that lead from a world to another one along a relation, whatever their result.
use mathlib.Core.Path.{subst}
use gameserver_ingress_contr.Base.{◌≡◌, refl, ap, String, [], ◌∷◌, ◌++◌}
use gameserver_ingress_contr.Base.Action.{◌>>=◌}
use gameserver_ingress_contr.Base.Result.{Result, ok, err, panic}
use gameserver_ingress_contr.Platform.{Libs}
use gameserver_ingress_contr.Reconcilers.GameServer.{wrapping}
use gameserver_ingress_contr.World.{World, Call, Event, Attempted, ended, again}

abbrev pub Along : {E S A : Type 0} → (World S → World S → Type 0) → Call E S A → Type 0
Along {S = S} R call = (w : World S) → R w (call w).1

-- A relation that calls can follow one after the other, and that recording an event follows.
pub record IsTrail {S : Type 0} (R : World S → World S → Type 0) : Type 0 where
  pub stay : (w : World S) → R w w
  pub join : (u v w : World S) → R u v → R v w → R u w
  pub note : (e : Event) (w : World S) → R w (record w { events = w.events ++ e ∷ [] })

-- What holds of the cluster before holds of it after.
abbrev pub Keeping : {S : Type 0} → (S → Type 0) → World S → World S → Type 0
Keeping P w w' = P w.cluster → P w'.cluster

pub kept : {S : Type 0} (P : S → Type 0) → IsTrail (Keeping P)
kept P = record { stay = λ w p. p; join = λ u v w f g p. g (f p); note = λ e w p. p }

module _ {E S : Type 0} (R : World S → World S → Type 0) (trail : IsTrail R) where
  module _ {A B : Type 0} (m : Call E S A) (k : A → Call E S B) where
    -- What follows may look at what the first call has returned.
    pub along_then :
        (w : World S)
        → R w (m w).1
        → ((a : A) (w1 : World S) → m w ≡ (ok a, w1) → R w1 (k a w1).1)
        → R w ((m >>= k) w).1
    unfolding ◌>>=◌
    along_then w hm hk = go (m w) hm hk
      where
        go :
            (x : Result E A × World S)
            → R w x.1
            → ((a : A) (w1 : World S) → x ≡ (ok a, w1) → R w1 (k a w1).1)
            → R w (((λ _. x) >>= k) w).1
        go (ok a, w1) q hk = trail.join w w1 (k a w1).1 q (hk a w1 refl)
        go (err _, w1) q hk = q
        go (panic, w1) q hk = q

    pub Along->>= : Along R m → ((a : A) → Along R (k a)) → Along R (m >>= k)
    Along->>= hm hk w = along_then w (hm w) λ a w1 _. hk a w1

  module _ {A : Type 0} where
    pub Along-wrapping :
        (libs : Libs E) (text : String) (call : Call E S A)
        → Along R call
        → Along R (wrapping libs text call)
    unfolding wrapping
    Along-wrapping libs text call h w = h w

    -- A row of attempts goes where each of them goes.
    pub Along-Attempted :
        {libs : Libs E} {f : Call E S A} {w : World S} {x : Result E A × World S}
        → Along R f
        → Attempted libs f w x
        → R w x.1
    Along-Attempted {w = w} h (ended e) = subst (R w) (ap (λ x. x.1) e) (h w)
    Along-Attempted {f = f} {w = w} {x = x} h (again {w' = w'} e c rest) =
        trail.join w w' x.1 (subst (R w) (ap (λ x. x.1) e) (h w)) (Along-Attempted h rest)
