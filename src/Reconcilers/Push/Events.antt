-- ===== src/Reconcilers/Push/Events.antt =====
-- The events of a reconciler that looks for an object and makes what is missing, over a store that
-- records none itself.
use mathlib.Core.Path.{subst}
use mathlib.Core.List.{append_assoc}
use gameserver_ingress_contr.Base.{
  String, ◌≡◌, ap, ◌∙◌, ◌⊎◌, inl, inr, Bool, true, false, Option, List, [], ◌∷◌, ◌++◌,
  if◌then◌else◌, none, some, refl, Bool-cases,
}
use gameserver_ingress_contr.Base.Action.{◌>>=◌, ◌>>◌, attempt, pure, raise}
use gameserver_ingress_contr.Base.Result.{Result, ok, err, panic}
use gameserver_ingress_contr.Gameserver.{GameServer}
use gameserver_ingress_contr.Platform.{Libs}
use gameserver_ingress_contr.Reconcilers.Push.{push, pushed, found_or}
use gameserver_ingress_contr.Recorder.{record_success, record_failed, success_event, failed_event}
use gameserver_ingress_contr.World.{World, Call, Event}

-- A call that records no event.
abbrev pub IsQuiet : {E S A : Type 0} → Call E S A → Type 0
IsQuiet {S = S} call = (w : World S) → (call w).1.events ≡ w.events

-- One more event, after the notes.
noted :
    {events : List Event} (before notes : List Event) (e : Event)
    → events ≡ before ++ notes
    → events ++ (e ∷ []) ≡ before ++ (notes ++ e ∷ [])
noted before notes e q = ap (λ l. l ++ (e ∷ [])) q ∙ append_assoc before notes (e ∷ [])

module _ {E : Type 0} (libs : Libs E) (kind : String) (gs : GameServer) where
  -- The events before and after where an object is made, by the result: `notes`, and then `Created`,
  -- or `Failed` with the message of the error that the returned one wraps.
  abbrev pub MakeEvents :
      {A : Type 0} → List Event → List Event → Result E (Option A × Bool) → List Event → Type 0
  MakeEvents notes before (ok (_, made)) after =
      (made ≡ true) × (after ≡ before ++ (notes ++ success_event gs kind ∷ []))
  MakeEvents notes before (err x) after =
      (e : E) × (text : String) × (x ≡ libs.wrap e text)
      × (after ≡ before ++ (notes ++ failed_event gs kind (libs.message e) ∷ []))
  MakeEvents notes before panic after = after ≡ before ++ notes

  -- The same for the whole reconciler, by what the lookup of the object answers.
  abbrev pub ReconcileEvents :
      {A : Type 0}
      → List Event
      → List Event
      → Result E A
      → Result E (Option A × Bool)
      → List Event
      → Type 0
  ReconcileEvents notes before (ok a) r after = (r ≡ ok (some a, false)) × (after ≡ before)
  ReconcileEvents notes before (err e) r after =
      ((libs.is_not_found e ≡ true) × MakeEvents notes before r after)
      ⊎ ((libs.is_not_found e ≡ false)
          × ((text : String) × (r ≡ err (libs.wrap e text)))
          × (after ≡ before))
  ReconcileEvents notes before panic r after = (r ≡ panic) × (after ≡ before)

  module _ {S A : Type 0} (notes : List Event) where
    -- How the two `reconcileNotFound` end that say whether they made an object.
    abbrev pub made : Call E S (Option A) → Call E S (Option A × Bool)
    made call = call >>= λ result. pure (result, true)

    pushed_events :
        (text : String) (x : Result E A × World S) (before : List Event) (w : World S)
        → x.1.events ≡ before ++ notes
        → let (r, w') = made (attempt (λ _. x) >>= pushed libs kind gs text) w in
          MakeEvents notes before r w'.events
    unfolding pushed ◌>>=◌
    pushed_events text (ok a, w1) before w q = (refl, noted before notes (success_event gs kind) q)
    pushed_events text (err e, w1) before w q = go (libs.is_already_exists e)
      where
        go :
            (there : Bool)
            → let (r, w') =
                made
                  (if there
                    then (record_success gs kind >> pure none)
                    else (record_failed gs libs kind e >> raise (libs.wrap e text)))
                  w1 in
              MakeEvents notes before r w'.events
        go true = (refl, noted before notes (success_event gs kind) q)
        go false = (e, text, refl, noted before notes (failed_event gs kind (libs.message e)) q)
    pushed_events text (panic, w1) before w q = q

    pub push_events :
        (build_text : String) (push_text : A → String) (create : A → Call E S A)
        (built : Result E A) (before : List Event)
        → ((a : A) → IsQuiet (create a))
        → (w : World S) → w.events ≡ before ++ notes
        → let (r, w') = made (push libs kind gs build_text push_text create built) w in
          MakeEvents notes before r w'.events
    unfolding push ◌>>=◌
    push_events build_text push_text create (ok a) before quiet w q =
        pushed_events (push_text a) (create a w) before w (quiet a w ∙ q)
    push_events build_text push_text create (err e) before quiet w q =
        (e, build_text, refl, noted before notes (failed_event gs kind (libs.message e)) q)
    push_events build_text push_text create panic before quiet w q = q

    pub found_or_events :
        (get : Call E S A) (text : String) (not_found : Call E S (Option A × Bool))
        → IsQuiet get
        → ((w : World S) → let (r, w') = not_found w in MakeEvents notes w.events r w'.events)
        → (w : World S)
        → let (r, w') =
            (attempt get >>= found_or libs text (λ (object : A). (some object, false)) not_found)
              w in
          ReconcileEvents notes w.events (get w).0 r w'.events
    unfolding found_or ◌>>=◌
    found_or_events get text not_found quiet rest w = go (get w) (quiet w)
      where
        go :
            (x : Result E A × World S)
            → x.1.events ≡ w.events
            → let (r, w') =
                (attempt (λ _. x)
                    >>= found_or libs text (λ (object : A). (some object, false)) not_found)
                  w in
              ReconcileEvents notes w.events x.0 r w'.events
        go (ok a, w1) q = (refl, q)
        go (err e, w1) q = elim (Bool-cases (libs.is_not_found e)) [
          | inl missing ↦ rw missing (
              inl (
                refl,
                subst (λ b. MakeEvents notes b (not_found w1).0 (not_found w1).1.events) q
                    (rest w1),
              ))
          | inr other ↦ rw other (inr (refl, (text, refl), q))
        ]
        go (panic, w1) q = (refl, q)
