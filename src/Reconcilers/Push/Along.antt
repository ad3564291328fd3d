-- ===== src/Reconcilers/Push/Along.antt =====
-- Where looking for an object, making it and pushing it lead.
use gameserver_ingress_contr.Base.{
  String, ◌≡◌, refl, Bool, true, false, Option, none, if◌then◌else◌,
}
use gameserver_ingress_contr.Base.Action.{◌>>=◌, ◌>>◌, attempt, pure, raise}
use gameserver_ingress_contr.Base.Result.{Result, ok, err, panic}
use gameserver_ingress_contr.Gameserver.{GameServer}
use gameserver_ingress_contr.Platform.{Libs}
use gameserver_ingress_contr.Reconcilers.Push.{pushed, push, found_or}
use gameserver_ingress_contr.Recorder.{record_failed, record_success, success_event, failed_event}
use gameserver_ingress_contr.World.{World, Call}
use gameserver_ingress_contr.World.Along.{Along, IsTrail, Along->>=}

module _ {E S : Type 0} (R : World S → World S → Type 0) (trail : IsTrail R) (libs : Libs E) where
  module _ {A : Type 0} (kind : String) (gs : GameServer) where
    Along-pushed : (text : String) (r : Result E A) → Along R (pushed {S = S} libs kind gs text r)
    unfolding pushed ◌>>=◌
    Along-pushed text (ok a) w = trail.note (success_event gs kind) w
    Along-pushed text (err e) w = go (libs.is_already_exists e)
      where
        go :
            (there : Bool)
            → R w
                ((if there
                    then (record_success {E = E} {S = S} gs kind >> pure {A = Option A} none)
                    else (record_failed gs libs kind e >> raise (libs.wrap e text)))
                  w).1
        go true = trail.note (success_event gs kind) w
        go false = trail.note (failed_event gs kind (libs.message e)) w
    Along-pushed text panic w = trail.stay w

    pub Along-push :
        (build_text : String) (push_text : A → String) (create : A → Call E S A)
        (built : Result E A)
        → ((a : A) → built ≡ ok a → Along R (create a))
        → Along R (push libs kind gs build_text push_text create built)
    unfolding push ◌>>=◌
    Along-push build_text push_text create (ok a) h w =
        Along->>= R trail (attempt (create a)) (pushed libs kind gs (push_text a)) (h a refl)
          (Along-pushed (push_text a)) w
    Along-push build_text push_text create (err e) h w =
        trail.note (failed_event gs kind (libs.message e)) w
    Along-push build_text push_text create panic h w = trail.stay w

  module _ {A B : Type 0} (text : String) (found : A → B) (not_found : Call E S B) where
    pub Along-found_or :
        Along R not_found → (r : Result E A) → Along R (found_or libs text found not_found r)
    unfolding found_or
    Along-found_or h (ok a) w = trail.stay w
    Along-found_or h (err e) w = go (libs.is_not_found e)
      where
        go : (missing : Bool) → R w ((if missing then not_found else raise (libs.wrap e text)) w).1
        go true = h w
        go false = trail.stay w
    Along-found_or h panic w = trail.stay w
