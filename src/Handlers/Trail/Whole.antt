-- ===== src/Handlers/Trail/Whole.antt =====
-- Where a whole pass of the handler leads, and where an event does.
use gameserver_ingress_contr.Base.{sym, ap, Option, none, some, inl, inr}
use gameserver_ingress_contr.Base.Action.{◌>>=◌, attempt}
use gameserver_ingress_contr.Base.Result.{Result}
use gameserver_ingress_contr.Controller.{Event, created, updated, deleted, handle}
use gameserver_ingress_contr.Gameserver.{GameServer, Object, gs_object, other_object, from_object}
use gameserver_ingress_contr.Handlers.{
  Handler, reconcile_route, reconcile_all, reconcile, on_add, on_update, on_delete,
}
use gameserver_ingress_contr.Handlers.Gate.{reconcile-IsEligible}
use gameserver_ingress_contr.Platform.{Libs}
use gameserver_ingress_contr.Reconcilers.GameServer as GameServerReconciler
use gameserver_ingress_contr.Reconcilers.Service as ServiceReconciler
use gameserver_ingress_contr.World.{World, Call}
use gameserver_ingress_contr.World.Along.{Along, IsTrail, Along->>=, Along-wrapping}
use mathlib.Core.Path.{subst}

module _ {E S : Type 0} (libs : Libs E)
    (retry_on_conflict : Call E S GameServer → Call E S GameServer) (h : Handler E S)
    (R : World S → World S → Type 0) (trail : IsTrail R) where
  module _ (gs : GameServer) where
    pub Along-reconcile_all :
        Along R (ServiceReconciler.reconcile libs h.service_reconciler gs)
        → Along R (reconcile_route libs retry_on_conflict h gs)
        → Along R (GameServerReconciler.reconcile libs h.gameserver_reconciler retry_on_conflict gs)
        → Along R (reconcile_all libs retry_on_conflict h gs)
    unfolding reconcile_all
    Along-reconcile_all hs hr hm = Along->>= R trail _ _ (Along-wrapping R trail libs _ _ hs) λ _.
        Along->>= R trail _ _ hr
          λ _. Along->>= R trail _ _ (Along-wrapping R trail libs _ _ hm) λ _ w. trail.stay w

  module _ (all : (gs : GameServer) → Along R (reconcile_all libs retry_on_conflict h gs)) where
    Along-reconcile : (gs : Option GameServer) → Along R (reconcile libs retry_on_conflict h gs)
    unfolding reconcile
    Along-reconcile none w = trail.stay w
    Along-reconcile (some gs) w = elim (reconcile-IsEligible libs retry_on_conflict h gs w) [
      | inl (_, e) ↦ subst (R w) (ap (λ x. x.1) (sym e)) (all gs w)
      | inr (_, e) ↦ subst (R w) (ap (λ x. x.1) (sym e)) (trail.stay w)
    ]

    Along-attempt :
        {A B : Type 0} (call : Call E S A) (k : Result E A → Call E S B)
        → Along R call
        → ((r : Result E A) → Along R (k r))
        → Along R (attempt call >>= k)
    Along-attempt call k hc hk = Along->>= R trail (attempt call) k (λ w. hc w) hk

    Along-on_delete : (obj : Object) → Along R (on_delete libs retry_on_conflict h obj)
    unfolding on_delete
    Along-on_delete (gs_object (some gs)) w = trail.stay w
    Along-on_delete (gs_object none) w = trail.stay w
    Along-on_delete other_object w = trail.stay w

    -- An event leads where the passes do.
    pub Along-handle : (event : Event) → Along R (handle libs retry_on_conflict h event)
    unfolding handle on_add on_update
    Along-handle (created request obj) =
        Along-attempt _ _
          (Along-attempt _ _ (Along-reconcile (from_object obj)) λ _ w. trail.stay w)
          λ _ w. trail.stay w
    Along-handle (updated request _ obj) =
        Along-attempt _ _
          (Along-attempt _ _ (Along-reconcile (from_object obj)) λ _ w. trail.stay w)
          λ _ w. trail.stay w
    Along-handle (deleted request obj) =
        Along-attempt (on_delete libs retry_on_conflict h obj) _ (Along-on_delete obj)
          λ _ w. trail.stay w
