-- ===== src/Reconcilers/Push/Keeps.antt =====
-- What looking for an object, making it and pushing it make true of the cluster.
use gameserver_ingress_contr.Base.{String, ◌≡◌, refl, Bool-cases, inl, inr}
use gameserver_ingress_contr.Base.Action.{◌>>=◌, attempt}
use gameserver_ingress_contr.Base.Result.{Result, ok, err, panic, IsOk}
use gameserver_ingress_contr.Gameserver.{GameServer}
use gameserver_ingress_contr.Platform.{Libs}
use gameserver_ingress_contr.Reconcilers.Push.{pushed, push, found_or}
use gameserver_ingress_contr.World.{World, Call}
use gameserver_ingress_contr.World.Keeps.{Yields, Makes, MadeBy}

module _ {E S : Type 0} (P : S → Type 0) (libs : Libs E) where
  module _ {A : Type 0} (kind : String) (gs : GameServer) where
    -- An object that is made and pushed is there, or another one of its name.
    pub Yields-push :
        (build_text : String) (push_text : A → String) (create : A → Call E S A)
        (built : Result E A)
        → ((a : A) → built ≡ ok a → Makes P libs (create a))
        → Yields P (push libs kind gs build_text push_text create built)
    unfolding push pushed ◌>>=◌
    Yields-push build_text push_text create (ok a) h w i = go (create a w) (h a refl w) i
      where
        go :
            (x : Result E A × World S)
            → MadeBy P libs x.0 x.1.cluster
            → IsOk ((attempt (λ _. x) >>= pushed libs kind gs (push_text a)) w).0
            → P ((attempt (λ _. x) >>= pushed libs kind gs (push_text a)) w).1.cluster
        go (ok b, w1) q i = q
        go (err e, w1) q i = elim (Bool-cases (libs.is_already_exists e)) [
          | inl there ↦ rw there (q there)
          | inr failed ↦ absurd (rw failed at i)
        ]
        go (panic, w1) q i = absurd i
    Yields-push build_text push_text create (err e) h w i = absurd i
    Yields-push build_text push_text create panic h w i = absurd i

  module _ {A B : Type 0} (text : String) (found : A → B) (not_found : Call E S B) where
    -- The object is found, or else made.
    pub Yields-found_or :
        (get : Call E S A)
        → Yields P get
        → Yields P not_found
        → Yields P (attempt get >>= found_or libs text found not_found)
    unfolding found_or ◌>>=◌
    Yields-found_or get hg hn w i = go (get w) (hg w) i
      where
        go :
            (x : Result E A × World S)
            → (IsOk x.0 → P x.1.cluster)
            → IsOk ((attempt (λ _. x) >>= found_or libs text found not_found) w).0
            → P ((attempt (λ _. x) >>= found_or libs text found not_found) w).1.cluster
        go (ok a, w1) q i = q tt
        go (err e, w1) q i = elim (Bool-cases (libs.is_not_found e)) [
          | inl missing ↦ rw missing (hn w1 (rw missing at i))
          | inr failed ↦ absurd (rw failed at i)
        ]
        go (panic, w1) q i = absurd i
