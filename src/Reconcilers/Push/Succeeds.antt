-- ===== src/Reconcilers/Push/Succeeds.antt =====
-- When looking for an object, making it and pushing it return a value.
use gameserver_ingress_contr.Base.{String, ◌≡◌, refl}
use gameserver_ingress_contr.Base.Action.{◌>>=◌, attempt}
use gameserver_ingress_contr.Base.Result.{Result, ok, err, panic, IsOk}
use gameserver_ingress_contr.Gameserver.{GameServer}
use gameserver_ingress_contr.Platform.{Libs}
use gameserver_ingress_contr.Reconcilers.Push.{pushed, push, found_or}
use gameserver_ingress_contr.World.{World, Call}
use gameserver_ingress_contr.World.Succeeds.{Succeeds, Answers, Expected}

module _ {E S A : Type 0} (P : S → Type 0) (libs : Libs E) where
  pub Succeeds-push :
      (kind : String) (gs : GameServer) (build_text : String) (push_text : A → String)
      (create : A → Call E S A) (built : Result E A)
      → IsOk built
      → ((a : A) → built ≡ ok a → Answers P libs.is_already_exists (create a))
      → Succeeds P (push libs kind gs build_text push_text create built)
  unfolding push pushed ◌>>=◌
  Succeeds-push kind gs build_text push_text create (ok a) i h w p = go (create a w) (h a refl w p)
    where
      go :
          (x : Result E A × World S)
          → Expected libs.is_already_exists x.0 × P x.1.cluster
          → IsOk ((attempt (λ _. x) >>= pushed libs kind gs (push_text a)) w).0
            × P ((attempt (λ _. x) >>= pushed libs kind gs (push_text a)) w).1.cluster
      go (ok b, w1) q = q
      go (err e, w1) (there, q) = rw there (tt, q)
      go (panic, w1) (i, q) = absurd i
  Succeeds-push kind gs build_text push_text create (err e) i h w p = absurd i
  Succeeds-push kind gs build_text push_text create panic i h w p = absurd i

  pub Succeeds-found_or :
      {B : Type 0} (text : String) (found : A → B) (not_found : Call E S B) (get : Call E S A)
      → Answers P libs.is_not_found get
      → Succeeds P not_found
      → Succeeds P (attempt get >>= found_or libs text found not_found)
  unfolding found_or ◌>>=◌
  Succeeds-found_or text found not_found get hg hn w p = go (get w) (hg w p)
    where
      go :
          (x : Result E A × World S)
          → Expected libs.is_not_found x.0 × P x.1.cluster
          → IsOk ((attempt (λ _. x) >>= found_or libs text found not_found) w).0
            × P ((attempt (λ _. x) >>= found_or libs text found not_found) w).1.cluster
      go (ok a, w1) (i, q) = (tt, q)
      go (err e, w1) (missing, q) = rw missing (hn w1 q)
      go (panic, w1) (i, q) = absurd i
