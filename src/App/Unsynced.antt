-- ===== src/App/Unsynced.antt =====
-- A controller that starts although the Agones caches have failed to sync.
use gameserver_ingress_contr.Base.{◌≡◌, refl, ap, sym, ◌∙◌, true, Option, none}
use gameserver_ingress_contr.Base.Action.{Action, attempt, ◌>>=◌, >>=-ok, >>=-panic, lift}
use gameserver_ingress_contr.Base.Result.{Result, ok, err, panic, ok_inj}
use gameserver_ingress_contr.App.Connect.{Startup, Config}
use gameserver_ingress_contr.App.Start.{new_agones_store, start_controller}
use gameserver_ingress_contr.App.Started.{start_controller-IsStarted}
use gameserver_ingress_contr.K8sutil.{RestConfig}
use gameserver_ingress_contr.Gameserver.{GameServer}
use gameserver_ingress_contr.Handlers.{Handler, new_handler, game_server_store_of}
use gameserver_ingress_contr.Platform.{Libs}
use gameserver_ingress_contr.Reconcilers.GameServer.{
  reconcile, reconcile_mark, update_ready, must_reconcile_mark, wrapping, wrapping-ok,
}
use gameserver_ingress_contr.Stores.{get_game_server}
use gameserver_ingress_contr.World.{World, Call, GameServerClient, Attempted, ended, again}

Attempted-panics :
    {E W A : Type 0} {libs : Libs E} {f : Action E W A} {w : W} {x : Result E A × W}
    → Attempted libs f w x
    → f w ≡ (panic, w)
    → x ≡ (panic, w)
Attempted-panics (ended e) p = sym e ∙ p
Attempted-panics (again e c rest) p = let q = ap (λ y. y.0) (sym e ∙ p) in absurd cc

module _ {E S : Type 0} (libs : Libs E)
    (retry_on_conflict : Call E S GameServer → Call E S GameServer)
    (attempted : (f : Call E S GameServer) (w : World S)
      → Attempted libs f w (retry_on_conflict f w))
    (gs : GameServer) (w : World S) where
  abbrev no_store : Option (GameServerClient E S)
  no_store = none

  update_panics : update_ready libs (game_server_store_of libs no_store) gs w ≡ (panic, w)
  unfolding update_ready get_game_server wrapping ◌>>=◌
  update_panics = refl

  mark_panics :
      reconcile_mark libs (game_server_store_of libs no_store) retry_on_conflict gs w ≡ (panic, w)
  unfolding reconcile_mark
  mark_panics = >>=-panic _ _ (Attempted-panics (attempted _ w) update_panics)

  reconcile_panics :
      must_reconcile_mark libs gs ≡ ok true
      → reconcile libs (game_server_store_of libs no_store) retry_on_conflict gs w ≡ (panic, w)
  unfolding reconcile
  reconcile_panics e =
      >>=-ok (wrapping libs _ (lift (must_reconcile_mark libs gs))) _
        (wrapping-ok libs _ (lift (must_reconcile_mark libs gs)) (ap (λ r. (r, w)) e))
      ∙ mark_panics

  -- If the store of game servers cannot be made, and the controller starts all the same, with a
  -- retry that tries again on conflicts only, then every game server without the mark makes the
  -- handler panic when its turn to be marked comes, and the world stays as it is.
  pub start_controller-panic :
      {P C D K M : Type 0} (startup : Startup E S P C D K M) (config : Config) {h : Handler E S}
      (p : P) {p' : P}
      → ((c : RestConfig C) (d : D) (v : P)
          → (e : E) × (v' : P) × (new_agones_store libs startup c d v ≡ (err e, v')))
      → start_controller libs startup config p ≡ (ok h, p')
      → must_reconcile_mark libs gs ≡ ok true
      → reconcile libs h.gameserver_reconciler retry_on_conflict gs w ≡ (panic, w)
  unfolding new_handler
  start_controller-panic startup config {h} p failing started unmarked =
      let s = start_controller-IsStarted libs startup config p started in
      let (e, v', failed) = failing s.cluster_config s.duration s.synced in
      let caught : err e ≡ s.agones = ok_inj (
        ap (λ x. x.0) (sym (ap (λ x. attempt (λ (_ : _). x) s.synced) failed) ∙ s.agones_stored)) in
      rw (s.built, ← caught) (reconcile_panics unmarked)
