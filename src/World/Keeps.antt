-- ===== src/World/Keeps.antt =====
-- What calls keep true of the cluster, and what they make true of it when they return a value.
use gameserver_ingress_contr.Base.{◌≡◌, String, true}
use gameserver_ingress_contr.Base.Action.{◌>>=◌}
use gameserver_ingress_contr.Base.Result.{Result, ok, err, panic, IsOk}
use gameserver_ingress_contr.Platform.{Libs}
use gameserver_ingress_contr.Reconcilers.GameServer.{wrapping}
use gameserver_ingress_contr.World.{World, Call}
use gameserver_ingress_contr.World.Along.{Along, Keeping}

module _ {E S : Type 0} (P : S → Type 0) where
  abbrev pub Keeps : {A : Type 0} → Call E S A → Type 0
  Keeps = Along (Keeping P)

  -- `P` holds after the call, if the call returns a value.
  abbrev pub Yields : {A : Type 0} → Call E S A → Type 0
  Yields call = (w : World S) → IsOk (call w).0 → P (call w).1.cluster

  -- `P` holds after the call, also if the call says that the object exists already.
  abbrev pub MadeBy : {A : Type 0} → Libs E → Result E A → S → Type 0
  MadeBy libs (ok _) s = P s
  MadeBy libs (err e) s = libs.is_already_exists e ≡ true → P s
  MadeBy libs panic s = Unit

  abbrev pub Makes : {A : Type 0} → Libs E → Call E S A → Type 0
  Makes libs call = (w : World S) → MadeBy libs (call w).0 (call w).1.cluster

  module _ {A B : Type 0} (m : Call E S A) (k : A → Call E S B) where
    -- The first call makes it true, and what follows keeps it.
    pub Yields-keep : Yields m → ((a : A) → Keeps (k a)) → Yields (m >>= k)
    unfolding ◌>>=◌
    Yields-keep hm hk w i = go (m w) (hm w) i
      where
        go :
            (x : Result E A × World S)
            → (IsOk x.0 → P x.1.cluster)
            → IsOk (((λ _. x) >>= k) w).0
            → P (((λ _. x) >>= k) w).1.cluster
        go (ok a, w1) q i = hk a w1 (q tt)
        go (err _, w1) q i = absurd i
        go (panic, w1) q i = absurd i

    -- What follows makes it true.
    pub Yields-then : ((a : A) → Yields (k a)) → Yields (m >>= k)
    unfolding ◌>>=◌
    Yields-then hk w i = go (m w) i
      where
        go :
            (x : Result E A × World S)
            → IsOk (((λ _. x) >>= k) w).0
            → P (((λ _. x) >>= k) w).1.cluster
        go (ok a, w1) i = hk a w1 i
        go (err _, w1) i = absurd i
        go (panic, w1) i = absurd i

  module _ {A : Type 0} (libs : Libs E) (text : String) (call : Call E S A) where
    pub Yields-wrapping : Yields call → Yields (wrapping libs text call)
    unfolding wrapping
    Yields-wrapping h w i = go (call w) (h w) i
      where
        go :
            (x : Result E A × World S)
            → (IsOk x.0 → P x.1.cluster)
            → IsOk (wrapping libs text (λ _. x) w).0
            → P (wrapping libs text (λ _. x) w).1.cluster
        go (ok a, w1) q i = q tt
        go (err _, w1) q i = absurd i
        go (panic, w1) q i = absurd i
