-- ===== src/Handlers/Pass.antt =====
-- A whole pass of the handler over an API server that nobody else deletes from.
use text.Mathlib.Text.{◌==◌}
use gameserver_ingress_contr.Base.{
  ◌≡◌, ap, sym, ◌∙◌, Bool, true, false, Option, none, some, Bool-cases, Option-cases, inl, inr,
}
use gameserver_ingress_contr.Base.Action.{◌>>=◌}
use gameserver_ingress_contr.Base.Result.{ok, IsOk-of_eq}
use gameserver_ingress_contr.Gameserver.{GameServer, get_router_backend, router_backend_gateway}
use gameserver_ingress_contr.Handlers.{
  Handler, new_handler, service_store_of, http_route_store_of, game_server_store_of, reconcile,
  reconcile_all, reconcile_route,
}
use gameserver_ingress_contr.Handlers.Gate.{IsEligible, reconcile-IsEligible}
use gameserver_ingress_contr.Handlers.Lands.{
  HasService, HasIngress, HasHttpRoute, HasRoute, HasRoute-IsLasting, service_lands, ingress_lands,
  http_route_lands,
}
use gameserver_ingress_contr.Handlers.Stays.{Keeps-reconcile_route, Keeps-reconcile_mark}
use gameserver_ingress_contr.Options.Custom.Twice.{IsMap}
use gameserver_ingress_contr.Platform.{Libs, IsLawful}
use gameserver_ingress_contr.Reconcilers.Gateway as GatewayReconciler
use gameserver_ingress_contr.Reconcilers.GameServer as GameServerReconciler
use gameserver_ingress_contr.Reconcilers.Service as ServiceReconciler
use gameserver_ingress_contr.Stores.{Store, get_http_route}
use gameserver_ingress_contr.Stores.Live.{IsLasting, IsLive}
use gameserver_ingress_contr.World.{World, Call, GameServerClient, Attempted}
use gameserver_ingress_contr.World.Along.{Keeping, kept, Along->>=, Along-wrapping}
use gameserver_ingress_contr.World.Keeps.{Keeps, Yields, Yields-keep, Yields-then, Yields-wrapping}

module _ {E S : Type 0} (libs : Libs E) (law : IsLawful libs) (store : Store E S)
    (agones : Option (GameServerClient E S)) (live : IsLive store agones libs)
    (gateway_enabled : Bool) (retry_on_conflict : Call E S GameServer → Call E S GameServer)
    (attempted : (f : Call E S GameServer) (w : World S)
      → Attempted libs f w (retry_on_conflict f w))
    (gs : GameServer) where
  abbrev pub h : Handler E S
  h = new_handler libs store agones gateway_enabled

  Keeps-mark :
      (P : S → Type 0)
      → IsLasting store agones P
      → Keeps P (
          GameServerReconciler.reconcile libs
            (game_server_store_of libs agones)
            retry_on_conflict
            gs)
  Keeps-mark P last =
      Keeps-reconcile_mark libs store agones gateway_enabled retry_on_conflict attempted P last gs

  -- What the step on the service makes true, and what the step on the route does.
  Yields-service :
      (P : S → Type 0)
      → IsLasting store agones P
      → Yields P (ServiceReconciler.reconcile libs (service_store_of libs store) gs)
      → Yields P (reconcile_all libs retry_on_conflict h gs)
  unfolding reconcile_all new_handler
  Yields-service P last y = Yields-keep P _ _ (Yields-wrapping P libs _ _ y) λ _.
      Along->>= (Keeping P) (kept P) _ _
        (Keeps-reconcile_route libs store agones gateway_enabled retry_on_conflict attempted P last
          gs)
        λ _.
          Along->>= (Keeping P) (kept P) _ _
            (Along-wrapping (Keeping P) (kept P) libs _ _ (Keeps-mark P last)) λ _ w p. p

  Yields-route :
      (P : S → Type 0)
      → IsLasting store agones P
      → Yields P (reconcile_route libs retry_on_conflict h gs)
      → Yields P (reconcile_all libs retry_on_conflict h gs)
  unfolding reconcile_all new_handler
  Yields-route P last y = Yields-then P _ _ λ _. Yields-keep P _ _ y λ _.
      Along->>= (Keeping P) (kept P) _ _
        (Along-wrapping (Keeping P) (kept P) libs _ _ (Keeps-mark P last)) λ _ w p. p

  ingress_routed :
      IsMap gs
      → (get_router_backend gs == router_backend_gateway) ≡ false
      → Yields (HasIngress store gs) (reconcile_route libs retry_on_conflict h gs)
  unfolding reconcile_route new_handler
  ingress_routed u other =
      let P = HasIngress store gs in
      rw other (
        Yields-keep P _ _
          (Yields-wrapping P libs _ _ (ingress_lands libs law store agones live gs u)) (λ _ w p. p))

  -- A route of the gateway that is made or found is there. Without the gateway backend, or without
  -- its store, this step does not succeed.
  gateway_routed :
      (P : S → Type 0)
      → (get_router_backend gs == router_backend_gateway) ≡ true
      → Yields P (GatewayReconciler.reconcile libs (http_route_store_of libs store) gs)
      → Yields P (reconcile_route libs retry_on_conflict h gs)
  unfolding reconcile_route new_handler
  gateway_routed P gateway y = elim (Bool-cases gateway_enabled) [
    | inl on ↦ rw (gateway, on) (Yields-keep P _ _ (Yields-wrapping P libs _ _ y) (λ _ w p. p))
    | inr off ↦ rw (gateway, off) (λ w i. absurd i)
  ]

  no_gateway_store :
      store.gateway_store ≡ none
      → Yields (λ _. ⊥) (GatewayReconciler.reconcile libs (http_route_store_of libs store) gs)
  unfolding GatewayReconciler.reconcile get_http_route ◌>>=◌
  no_gateway_store e w i = rw e at i

  -- The step on the route makes the route there.
  pub route_lands :
      IsMap gs → Yields (HasRoute store gs) (reconcile_route libs retry_on_conflict h gs)
  route_lands u w i = elim (Bool-cases (get_router_backend gs == router_backend_gateway)) [
    | inr other ↦ inr (other, ingress_routed u other w i)
    | inl gateway ↦ elim (Option-cases store.gateway_store) [
      | inl e ↦ absurd (gateway_routed (λ _. ⊥) gateway (no_gateway_store e) w i)
      | inr (client, e) ↦ inl (
        gateway,
        (
          client,
          e,
          gateway_routed (HasHttpRoute store gs client) gateway
              (http_route_lands libs law store agones live gs u client e) w i,
        ),
      )
    ]
  ]

  -- Over an API server whose caches are in step with it, and in which nobody else deletes, with
  -- wrapped errors that keep their reason and a retry that tries again on conflicts only: when the
  -- handler reports success for an eligible game server whose annotations are a map, its Service is
  -- there, and so is its route, the Ingress or the HTTPRoute, as the game server's backend asks
  -- for.
  pub reconcile_lands :
      IsMap gs
      → IsEligible gs
      → (w : World S) {w' : World S} → reconcile libs retry_on_conflict h (some gs) w ≡ (ok tt, w')
      → HasService store gs w'.cluster × HasRoute store gs w'.cluster
  reconcile_lands u eligible w {w'} done =
      elim (reconcile-IsEligible libs retry_on_conflict h gs w) [
        | inr (refused, _) ↦ absurd (refused eligible)
        | inl (_, all) ↦
            let passed = sym all ∙ done in
            let i = IsOk-of_eq (ap (λ x. x.0) passed) in
            (
              rw passed at (
                  Yields-service (HasService store gs) (live.services_last gs.namespace gs.name)
                    (service_lands libs law store agones live gs u) w i),
              rw passed at (
                  Yields-route (HasRoute store gs) (HasRoute-IsLasting store gs libs agones live)
                    (route_lands u) w i),
            )
      ]
