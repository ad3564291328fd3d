-- ===== src/Controller/Life/Keeps.antt =====
-- What the running process keeps true of the cluster.
use mathlib.Core.Path.{subst}
use gameserver_ingress_contr.Base.{◌≡◌, refl, ap, List}
use gameserver_ingress_contr.Base.Result.{Result}
use gameserver_ingress_contr.Controller.{Event, QueueCall, handle}
use gameserver_ingress_contr.Controller.Life.{
  Phase, not_launched, in_start, returned, Process, Life, alive, exited, Label, signal_received,
  launches, delivers, panics, reconciles, others_act, manager_returns, start_returns, receives,
  ended_by_signals, Steps, stay, last, next,
}
use gameserver_ingress_contr.Gameserver.{GameServer}
use gameserver_ingress_contr.Handlers.{Handler}
use gameserver_ingress_contr.Platform.{Libs}
use gameserver_ingress_contr.Runtime.Signals.{Signal, Signals}
use gameserver_ingress_contr.World.{World, Call}
use gameserver_ingress_contr.World.Keeps.{Keeps}

abbrev pub world_of : {S : Type 0} → Life S → World S
world_of (alive p) = p.world
world_of (exited _ w) = w

pub signal_keeps_world :
    {S : Type 0} (p : Process S) (s : Signal) (m : Phase) → (signal_received p s m).world ≡ p.world
signal_keeps_world p s not_launched = refl
signal_keeps_world p s in_start = refl
signal_keeps_world p s returned = refl

module _ {E S : Type 0} (libs : Libs E)
    (retry_on_conflict : Call E S GameServer → Call E S GameServer) (h : Handler E S)
    (signals : Signals) (others : S → S → Type 0) (P : S → Type 0)
    (others_keep : (s s' : S) → others s s' → P s → P s')
    (keeps : (event : Event) → Keeps P (handle libs retry_on_conflict h event)) where
  pub kept_by :
      (event : Event) (w : World S) {r : Result E (List QueueCall)} {w' : World S}
      → handle libs retry_on_conflict h event w ≡ (r, w')
      → P w.cluster
      → P w'.cluster
  kept_by event w e h = subst (λ (v : World S). P v.cluster) (ap (λ x. x.1) e) (keeps event w h)

  -- What every event keeps, the process keeps.
  pub Keeps-Steps :
      {labels : List Label} {p : Process S} {l : Life S}
      → Steps libs retry_on_conflict h signals others labels p l
      → P p.world.cluster
      → P (world_of l).cluster
  Keeps-Steps stay q = q
  Keeps-Steps {p = p} (last (panics event m f e)) q = kept_by event p.world e q
  Keeps-Steps (last (start_returns over)) q = q
  Keeps-Steps (last (ended_by_signals ends)) q = q
  Keeps-Steps (next (launches m) rest) q = Keeps-Steps rest q
  Keeps-Steps {p = p} (next (delivers event m f e) rest) q =
      Keeps-Steps rest (kept_by event p.world e q)
  Keeps-Steps (next (reconciles request m e) rest) q =
      Keeps-Steps rest (subst (λ (v : World S). P v.cluster) (ap (λ x. x.1) e) q)
  Keeps-Steps {p = p} (next (others_act {s = s} o) rest) q =
      Keeps-Steps rest (others_keep p.world.cluster s o q)
  Keeps-Steps (next (manager_returns m) rest) q = Keeps-Steps rest q
  Keeps-Steps (next {p = p} (receives s) rest) q =
      Keeps-Steps rest (rw (signal_keeps_world p s p.manager) q)
