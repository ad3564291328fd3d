-- ===== src/Reconcilers/Push.antt =====
-- How the three `reconcileNotFound` begin and end: they make the object, push it and record what
-- came of it. The result is `none` where the store reported that the object exists already, for
-- then the pointer is nil.
pub mod Along
pub mod Events
pub mod Keeps
pub mod Succeeds
use gameserver_ingress_contr.Base.{String, ◌≡◌, ap, Option, none, some, if◌then◌else◌}
use gameserver_ingress_contr.Base.Result.{Result, ok, err, panic}
use gameserver_ingress_contr.Base.Action.{◌>>=◌, >>=-ok, ◌>>◌, pure, raise, crash, attempt}
use gameserver_ingress_contr.Gameserver.{GameServer}
use gameserver_ingress_contr.Platform.{Libs}
use gameserver_ingress_contr.Recorder.{record_failed, record_success}
use gameserver_ingress_contr.World.{World, Call}

module _ {E S A : Type 0} (libs : Libs E) (kind : String) (gs : GameServer) where
  -- From `if err != nil` after the call of the store to the end.
  unfoldable pub pushed : String → Result E A → Call E S (Option A)
  pushed text (ok result) = record_success gs kind >> pure (some result)
  pushed text (err e) =
      if libs.is_already_exists e
      then (record_success gs kind >> pure none)
      else (record_failed gs libs kind e >> raise (libs.wrap e text))
  pushed text panic = crash

  -- From `if err != nil` after the object was made to the end.
  unfoldable pub push : String → (A → String) → (A → Call E S A) → Result E A → Call E S (Option A)
  push build_text push_text create (ok object) =
      attempt (create object) >>= pushed (push_text object)
  push build_text push_text create (err e) =
      record_failed gs libs kind e >> raise (libs.wrap e build_text)
  push build_text push_text create panic = crash

-- The branch of `Reconcile` on what the store found.
unfoldable pub found_or :
    {E S A B : Type 0} → Libs E → String → (A → B) → Call E S B → Result E A → Call E S B
found_or libs text found not_found (ok object) = pure (found object)
found_or libs text found not_found (err e) =
    if libs.is_not_found e then not_found else raise (libs.wrap e text)
found_or libs text found not_found panic = crash

-- What was found is returned, and nothing is recorded.
pub attempt-found_or :
    {E S A B : Type 0} (libs : Libs E) (text : String) (found : A → B) (not_found : Call E S B)
    (m : Call E S A) {w w' : World S} {a : A}
    → m w ≡ (ok a, w')
    → (attempt m >>= found_or libs text found not_found) w ≡ (ok (found a), w')
unfolding found_or
attempt-found_or libs text found not_found m {w} e =
    >>=-ok (attempt m) (found_or libs text found not_found) (ap (λ x. attempt (λ _. x) w) e)
