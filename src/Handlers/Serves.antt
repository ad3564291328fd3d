-- ===== src/Handlers/Serves.antt =====
-- When a pass of the handler succeeds, and what it then has done.
use text.Mathlib.Text.{◌==◌}
use gameserver_ingress_contr.Base.{◌≡◌, ap, ◌∙◌, Bool, true, false, some, ◌⊎◌, inl, inr}
use gameserver_ingress_contr.Base.Result.{ok, eq_of_IsOk}
use gameserver_ingress_contr.Gameserver.{GameServer, get_router_backend, router_backend_gateway}
use gameserver_ingress_contr.Handlers.{
  Handler, new_handler, reconcile, reconcile_all, reconcile_route,
}
use gameserver_ingress_contr.Handlers.Gate.{IsEligible}
use gameserver_ingress_contr.Handlers.Lands.{HasService, HasRoute}
use gameserver_ingress_contr.Handlers.Order.{eligible_pass}
use gameserver_ingress_contr.Handlers.Pass.{reconcile_lands}
use gameserver_ingress_contr.Handlers.Succeeds.{
  HasMarkFlag, ConflictsEnd, Succeeds-service, Succeeds-ingress, Succeeds-http_route, Succeeds-mark,
}
use gameserver_ingress_contr.Objects.{HttpRoute}
use gameserver_ingress_contr.Options.Custom.Twice.{IsMap}
use gameserver_ingress_contr.Platform.{Libs, IsLawful}
use gameserver_ingress_contr.Reconcilers.Gateway.Ready.{IsRouteReady}
use gameserver_ingress_contr.Reconcilers.Ingress.Ready.{IsIngressReady}
use gameserver_ingress_contr.Reconcilers.Service.Ready.{IsServiceReady}
use gameserver_ingress_contr.Stores.{Store}
use gameserver_ingress_contr.Stores.Live.{IsLive}
use gameserver_ingress_contr.Stores.Up.{IsUp}
use gameserver_ingress_contr.World.{World, Call, Client, GameServerClient, Attempted}
use gameserver_ingress_contr.World.Succeeds.{Succeeds, Succeeds->>=, Succeeds-wrapping}

-- What the annotations of a game server have to say for a pass: those for the Service, those for
-- the route of its backend, which has to be enabled, and the flag of the mark.
pub record IsReadyFor {E S : Type 0} (libs : Libs E) (store : Store E S) (gateway_enabled : Bool)
    (gs : GameServer) : Type 0 where
  pub service : IsServiceReady libs gs
  pub route :
      (((get_router_backend gs == router_backend_gateway) ≡ false) × IsIngressReady libs gs)
      ⊎ (((get_router_backend gs == router_backend_gateway) ≡ true)
          × (gateway_enabled ≡ true)
          × ((client : Client E S HttpRoute) × (store.gateway_store ≡ some client))
          × IsRouteReady libs gs)
  pub flag : HasMarkFlag gs

module _ {E S : Type 0} (libs : Libs E) (law : IsLawful libs) (P : S → Type 0) (store : Store E S)
    (agones : GameServerClient E S) (gateway_enabled : Bool)
    (retry_on_conflict : Call E S GameServer → Call E S GameServer)
    (attempted : (f : Call E S GameServer) (w : World S)
      → Attempted libs f w (retry_on_conflict f w))
    (gs : GameServer) (up : IsUp libs P store agones gs)
    (settled : ConflictsEnd libs P agones retry_on_conflict gs) (u : IsMap gs)
    (ready : IsReadyFor libs store gateway_enabled gs) where
  abbrev h : Handler E S
  h = new_handler libs store (some agones) gateway_enabled

  Succeeds-route : Succeeds P (reconcile_route libs retry_on_conflict h gs)
  unfolding reconcile_route new_handler
  Succeeds-route = elim ready.route [
    | inl (other, r) ↦ rw other (
        Succeeds->>= P _ _
          (Succeeds-wrapping P libs _ _ (Succeeds-ingress libs law P store agones gs up u other r))
          λ _ w p. (tt, p))
    | inr (gateway, on, (client, e), r) ↦
        rw (gateway, on)
          (Succeeds->>= P _ _
            (Succeeds-wrapping P libs _ _
              (Succeeds-http_route libs law P store agones gs up u client e gateway r))
            λ _ w p. (tt, p))
  ]

  Succeeds-all : Succeeds P (reconcile_all libs retry_on_conflict h gs)
  unfolding reconcile_all new_handler
  Succeeds-all =
      Succeeds->>= P _ _
        (Succeeds-wrapping P libs _ _
          (Succeeds-service libs law P store agones gs up u ready.service))
        λ _. Succeeds->>= P _ _ Succeeds-route λ _.
          Succeeds->>= P _ _
            (Succeeds-wrapping P libs _ _ (
              Succeeds-mark libs law P store agones gs up u retry_on_conflict attempted settled
                ready.flag))
            λ _ w p. (tt, p)

  -- Over an API server that answers lookups at worst with "not found", knows the game server, with
  -- annotations, accepts the Service and the route made for the game server unless they exist, and
  -- takes the update with the mark unless it conflicts; whose caches are in step with it, and in
  -- which nobody else deletes; with wrapped errors that keep their reason and a retry that tries
  -- again on conflicts only and outlasts those of the mark: a pass of the handler for an eligible
  -- game server whose annotations are a map and say what a pass needs succeeds, and then the
  -- Service of the game server and the route of its backend are there.
  pub reconcile_serves :
      IsLive store (some agones) libs
      → IsEligible gs
      → (w : World S) → P w.cluster
      → (w' : World S) × (reconcile libs retry_on_conflict h (some gs) w ≡ (ok tt, w'))
        × HasService store gs w'.cluster
        × HasRoute store gs w'.cluster
  reconcile_serves live eligible w p =
      let (i, _) = Succeeds-all w p in
      let (x, e) = eq_of_IsOk (reconcile_all libs retry_on_conflict h gs w).0 i in
      let w' = (reconcile_all libs retry_on_conflict h gs w).1 in
      let done : reconcile libs retry_on_conflict h (some gs) w ≡ (ok tt, w') =
        eligible_pass libs retry_on_conflict h gs w eligible ∙ ap (λ r. (r, w')) e in
      let (service, route) =
        reconcile_lands libs law store (some agones) live gateway_enabled retry_on_conflict
          attempted gs u eligible w done in
      (w', done, service, route)
