-- ===== src/Handlers/Spec/Phases.antt =====
-- Calls as runs of the machine.
use gameserver_ingress_contr.Base.{String, ◌≡◌, refl, Option}
use gameserver_ingress_contr.Base.Action.{◌>>=◌}
use gameserver_ingress_contr.Base.Result.{Result, ok, err, panic, IsOk}
use gameserver_ingress_contr.Gameserver.{GameServer}
use gameserver_ingress_contr.Handlers.Spec.{Phase, Step, note, Steps, none_left, then_step}
use gameserver_ingress_contr.Platform.{Libs}
use gameserver_ingress_contr.Reconcilers.GameServer.{wrapping}
use gameserver_ingress_contr.Stores.{Store}
use gameserver_ingress_contr.World.{World, Call, GameServerClient}
use gameserver_ingress_contr.World.Along.{Along, IsTrail}

module _ {E S : Type 0} (libs : Libs E) (store : Store E S) (agones : Option (GameServerClient E S))
    (gs : GameServer) where
  pub Steps-join :
      {p q r : Phase} {u v w : World S}
      → Steps libs store agones gs p u q v
      → Steps libs store agones gs q v r w
      → Steps libs store agones gs p u r w
  Steps-join first none_left = first
  Steps-join first (then_step rest s) = then_step (Steps-join first rest) s

  -- The runs that stay in a phase.
  abbrev pub Within : Phase → World S → World S → Type 0
  Within p w w' = Steps libs store agones gs p w p w'

  pub within : (p : Phase) → IsTrail (Within p)
  within p = record {
    stay = λ w. none_left;
    join = λ u v w. Steps-join;
    note = λ e w. then_step none_left (note e);
  }

  -- A call that is a run from the phase `p`, and to the phase `q` if it returns a value.
  abbrev pub Leads : {A : Type 0} → Phase → Phase → Call E S A → Type 0
  Leads p q call =
      (w : World S)
      → (r : Phase) × Steps libs store agones gs p w r (call w).1 × (IsOk (call w).0 → r ≡ q)

  module _ {A : Type 0} (p q : Phase) (call : Call E S A) where
    pub Leads-Along :
        (P : World S → Type 0)
        → Along (Within p) call
        → ((w : World S) → IsOk (call w).0 → P (call w).1)
        → ((w : World S) → P w → Step libs store agones gs p w q w)
        → Leads p q call
    Leads-Along P along yields step w = go (call w) (along w) (yields w)
      where
        go :
            (x : Result E A × World S)
            → Within p w x.1
            → (IsOk x.0 → P x.1)
            → (r : Phase) × Steps libs store agones gs p w r x.1 × (IsOk x.0 → r ≡ q)
        go (ok _, w1) t y = (q, then_step t (step w1 (y tt)), λ _. refl)
        go (err _, w1) t y = (p, t, λ i. absurd i)
        go (panic, w1) t y = (p, t, λ i. absurd i)

    pub Leads-wrapping : (text : String) → Leads p q call → Leads p q (wrapping libs text call)
    unfolding wrapping
    Leads-wrapping text h w = go (call w) (h w)
      where
        go :
            (x : Result E A × World S)
            → (r : Phase) × Steps libs store agones gs p w r x.1 × (IsOk x.0 → r ≡ q)
            → (r : Phase) × Steps libs store agones gs p w r (wrapping libs text (λ _. x) w).1
              × (IsOk (wrapping libs text (λ _. x) w).0 → r ≡ q)
        go (ok _, w1) t = t
        go (err _, w1) t = t
        go (panic, w1) t = t

    module _ {B : Type 0} (s : Phase) (k : A → Call E S B) where
      pub Leads->>= : Leads p q call → ((a : A) → Leads q s (k a)) → Leads p s (call >>= k)
      unfolding ◌>>=◌
      Leads->>= hm hk w = go (call w) (hm w)
        where
          go :
              (x : Result E A × World S)
              → (r : Phase) × Steps libs store agones gs p w r x.1 × (IsOk x.0 → r ≡ q)
              → (r : Phase) × Steps libs store agones gs p w r (((λ _. x) >>= k) w).1
                × (IsOk (((λ _. x) >>= k) w).0 → r ≡ s)
          go (ok a, w1) (r, t, e) =
              let (r2, t2, e2) = hk a w1 in (r2, Steps-join t (rw (e tt) t2), e2)
          go (err _, w1) (r, t, e) = (r, t, λ i. absurd i)
          go (panic, w1) (r, t, e) = (r, t, λ i. absurd i)
