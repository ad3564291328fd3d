-- ===== src/Reconcilers/Service.antt =====
-- pkg/reconcilers/service_reconciler.go.
pub mod Built
pub mod Ready
use gameserver_ingress_contr.Base.{◌≡◌, refl, String, ◌<>◌, Option, some, List, [], ◌∷◌}
use gameserver_ingress_contr.Base.Action.{◌>>=◌, ◌>>◌, attempt}
use gameserver_ingress_contr.Base.Result.{ok}
use gameserver_ingress_contr.Gameserver.{GameServer}
use gameserver_ingress_contr.Objects.{Service}
use gameserver_ingress_contr.Options.Service.{
  ServiceOption, with_custom_service_annotations, with_custom_service_annotations_template,
  new_service,
}
use gameserver_ingress_contr.Platform.{Libs}
use gameserver_ingress_contr.Reconcilers.Push.{push, found_or, attempt-found_or}
use gameserver_ingress_contr.Recorder.{service_kind, record_creating}
use gameserver_ingress_contr.World.{World, Call}

-- The interface `ServiceStore`.
pub record ServiceStore (E S : Type 0) : Type 0 where
  pub create_service : Service → Call E S Service
  pub get_service : String → String → Call E S Service

-- The options of `reconcileNotFound`, in their order.
unfoldable pub service_options : {E : Type 0} → Libs E → List (ServiceOption E)
service_options libs =
    with_custom_service_annotations libs ∷ with_custom_service_annotations_template libs ∷ []

module _ {E S : Type 0} (libs : Libs E) (store : ServiceStore E S) where
  unfoldable pub reconcile_not_found : GameServer → Call E S (Option Service)
  reconcile_not_found gs =
      record_creating gs service_kind
      >> push libs service_kind gs ("failed to create service for gameserver " <> gs.name)
          (λ _. "failed to create service") store.create_service
          (new_service libs gs (service_options libs))

  unfoldable pub reconcile : GameServer → Call E S (Option Service)
  unfolding reconcile_not_found
  reconcile gs =
      attempt (store.get_service gs.name gs.namespace)
      >>= found_or libs
          ("error retrieving Service " <> gs.name <> " from namespace " <> gs.namespace) some
          (reconcile_not_found gs)

  -- A Service that the store finds is returned, and nothing is recorded.
  pub reconcile_found :
      (gs : GameServer) (w : World S) {service : Service}
      → store.get_service gs.name gs.namespace w ≡ (ok service, w)
      → reconcile gs w ≡ (ok (some service), w)
  unfolding reconcile
  reconcile_found gs w e = attempt-found_or libs _ _ _ (store.get_service gs.name gs.namespace) e
