-- ===== src/Controller/Life/Terminated.antt =====
-- A process that gets SIGTERM.
use mathlib.Core.List.{append_assoc}
use gameserver_ingress_contr.Base.{
  ◌≡◌, refl, sym, ◌∙◌, true, false, none, List, [], ◌∷◌, ◌++◌, ◌⊎◌, inl, inr, Bool-cases,
}
use gameserver_ingress_contr.Controller.Life.{
  Phase, not_launched, in_start, returned, Process, Life, alive, exited, Label, internal, delivered,
  received, panic_status, signal_received, launches, delivers, panics, reconciles, others_act,
  manager_returns, start_returns, receives, ended_by_signals, Steps, stay, last, next,
}
use gameserver_ingress_contr.Handlers.{Handler}
use gameserver_ingress_contr.Gameserver.{GameServer}
use gameserver_ingress_contr.Platform.{Libs}
use gameserver_ingress_contr.Runtime.Signals.{Signal, interrupt, terminate, Signals, setup_signal}
use gameserver_ingress_contr.World.{Call}

abbrev pub In : Signal → List Signal → Type 0
In s [] = ⊥
In s (r ∷ rs) = (r ≡ s) ⊎ In s rs

-- What os/signal and controller-runtime say of signals: a context is done only if one of its
-- signals has been received, and with the handler of controller-runtime a single signal does not
-- end the process.
pub record AreCaught (signals : Signals) : Type 0 where
  pub done_by :
      (sigs rs : List Signal)
      → signals.notify_context sigs rs ≡ true
      → (s : Signal) × In s sigs × In s rs
  pub none_survived : signals.process_ends [] [] ≡ none
  pub one_survived : (s : Signal) → signals.process_ends [] (s ∷ []) ≡ none

abbrev pub IsLaunched : Phase → Type 0
IsLaunched not_launched = ⊥
IsLaunched in_start = Unit
IsLaunched returned = Unit

-- The signals of a row of steps.
abbrev pub signals_of : List Label → List Signal
signals_of [] = []
signals_of (internal ∷ ls) = signals_of ls
signals_of (delivered _ ∷ ls) = signals_of ls
signals_of (received s ∷ ls) = s ∷ signals_of ls

-- The part of one SIGTERM that has come.
part_of_one : (xs ys : List Signal) → xs ++ ys ≡ terminate ∷ [] → (xs ≡ []) ⊎ (xs ≡ terminate ∷ [])
part_of_one [] ys e = inl refl
part_of_one (x ∷ []) ys e = inr cc
part_of_one (x ∷ y ∷ xs) ys e = absurd cc

interrupt_apart : Path Signal interrupt terminate → ⊥
interrupt_apart e = cc

no_interrupt :
    (s : Signal) (rs : List Signal)
    → (rs ≡ []) ⊎ (rs ≡ terminate ∷ [])
    → In s (interrupt ∷ [])
    → In s rs
    → ⊥
no_interrupt s rs part (inr never) here = never
no_interrupt s rs (inl e) (inl is) here = rw e at here
no_interrupt s rs (inr e) (inl is) here = elim (rw e at here) [
  | inl terminated ↦ interrupt_apart (is ∙ sym terminated)
  | inr never ↦ never
]

module _ (signals : Signals) (caught : AreCaught signals) where
  never_done :
      (rs : List Signal) → (rs ≡ []) ⊎ (rs ≡ terminate ∷ []) → setup_signal signals rs ≡ true → ⊥
  never_done rs part done =
      let (s, registered, here) = caught.done_by (interrupt ∷ []) rs done in
      no_interrupt s rs part registered here

  never_ends :
      (rs : List Signal) → (rs ≡ []) ⊎ (rs ≡ terminate ∷ []) → signals.process_ends [] rs ≡ none
  never_ends rs (inl e) = rw e caught.none_survived
  never_ends rs (inr e) = rw e (caught.one_survived terminate)

  -- The process still waits: its context is not done. Or it has panicked.
  abbrev pub Waits : {S : Type 0} → Life S → Type 0
  Waits (alive p) = setup_signal signals (p.before ++ p.after) ≡ false
  Waits (exited status w) = status ≡ panic_status

  received_launched :
      {S : Type 0} (p : Process S) (s : Signal) (m : Phase)
      → IsLaunched m
      → signal_received p s m ≡ record p { after = p.after ++ s ∷ [] }
  received_launched p s not_launched i = absurd i
  received_launched p s in_start i = refl
  received_launched p s returned i = refl

  module _ {E S : Type 0} (libs : Libs E)
      (retry_on_conflict : Call E S GameServer → Call E S GameServer) (h : Handler E S)
      (others : S → S → Type 0) where
    -- Over signals as os/signal and controller-runtime describe them: if the first signal comes
    -- when the goroutine of `Start` has been launched, and it is one SIGTERM and no other follows,
    -- then `Start` never returns and the process never ends, unless the handler panics: whatever
    -- the manager does, also if it has stopped, and whatever the manager delivers.
    pub Steps-Waits :
        {labels : List Label} {p : Process S} {l : Life S}
        → Steps libs retry_on_conflict h signals others labels p l
        → IsLaunched p.manager
        → p.before ≡ []
        → p.after ++ signals_of labels ≡ terminate ∷ []
        → Waits l
    Steps-Waits {p = p} stay i b a =
        elim (Bool-cases (setup_signal signals (p.before ++ p.after))) [
          | inl done ↦ absurd (never_done p.after (part_of_one p.after _ a) (rw b at done))
          | inr waits ↦ waits
        ]
    Steps-Waits {p = p} (last (panics event m f e)) i b a = refl
    Steps-Waits {p = p} (last (start_returns done)) i b a =
        absurd (never_done p.after (part_of_one p.after _ a) (rw b at done))
    Steps-Waits {p = p} (last (ended_by_signals ends)) i b a =
        let none_ends = never_ends p.after (part_of_one p.after _ a) in
        let some_ends = rw b at ends in absurd cc
    Steps-Waits {p = p} (next (launches m) rest) i b a = absurd (rw m at i)
    Steps-Waits {p = p} (next (delivers event m f e) rest) i b a = Steps-Waits rest i b a
    Steps-Waits {p = p} (next (reconciles request m e) rest) i b a = Steps-Waits rest i b a
    Steps-Waits {p = p} (next (others_act a') rest) i b a = Steps-Waits rest i b a
    Steps-Waits {p = p} (next (manager_returns m) rest) i b a = Steps-Waits rest tt b a
    Steps-Waits {p = p} (next {labels = ls} (receives s) rest) i b a =
        let same = received_launched p s p.manager i in
        Steps-Waits rest (rw same i) (rw same b)
          (rw same (append_assoc p.after (s ∷ []) (signals_of ls) ∙ a))
