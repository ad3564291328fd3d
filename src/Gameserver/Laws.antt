-- ===== src/Gameserver/Laws.antt =====
-- The states in which a game server is served, and what the two guards say of them.
use gameserver_ingress_contr.Base.{◌≡◌, refl, true, false, some}
use gameserver_ingress_contr.Gameserver.{
  GameServer, State, scheduled, request_ready, ready, shutdown, other_state, is_shutdown,
  is_shutdown_state, must_reconcile, is_reconciled_state,
}

-- A game server that can be reached by players, or soon.
abbrev pub IsServing : State → Type 0
IsServing scheduled = Unit
IsServing request_ready = Unit
IsServing ready = Unit
IsServing shutdown = ⊥
IsServing (other_state _) = ⊥

passes : (s : State) → IsServing s → (is_shutdown_state s ≡ false) × (is_reconciled_state s ≡ true)
passes scheduled _ = (refl, refl)
passes request_ready _ = (refl, refl)
passes ready _ = (refl, refl)
passes shutdown i = absurd i
passes (other_state _) i = absurd i

serves : (s : State) → is_reconciled_state s ≡ true → IsServing s
serves scheduled _ = tt
serves request_ready _ = tt
serves ready _ = tt
serves shutdown e = cc
serves (other_state _) e = cc

pub IsServing-passes :
    (gs : GameServer)
    → IsServing gs.status.state
    → (is_shutdown (some gs) ≡ false) × (must_reconcile (some gs) ≡ true)
unfolding is_shutdown must_reconcile
IsServing-passes gs i = passes gs.status.state i

pub must_reconcile-IsServing :
    (gs : GameServer) → must_reconcile (some gs) ≡ true → IsServing gs.status.state
unfolding must_reconcile
must_reconcile-IsServing gs e = serves gs.status.state e
