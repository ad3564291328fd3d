-- ===== src/Reconcilers/Ingress.antt =====
-- pkg/reconcilers/ingress_reconciler.go. `Reconcile` returns the object and whether it made one.
pub mod Built
pub mod Events
pub mod Ready
pub mod Stages
use gameserver_ingress_contr.Base.{
  ◌≡◌, refl, String, ◌<>◌, Bool, true, false, Option, some, List, [], ◌∷◌, ◌++◌, if◌then◌else◌,
}
use gameserver_ingress_contr.Base.Action.{◌>>=◌, ◌>>◌, attempt, pure}
use gameserver_ingress_contr.Base.Text.{is_empty}
use gameserver_ingress_contr.Base.Result.{ok}
use gameserver_ingress_contr.Gameserver.{
  GameServer, get_ingress_routing_mode, get_tls_cert_issuer, get_ingress_class_name,
}
use gameserver_ingress_contr.Objects.{Ingress}
use gameserver_ingress_contr.Options.Ingress.{
  IngressOption, with_custom_annotations, with_custom_annotations_template, with_ingress_rule,
  with_tls, with_ingress_class_name, with_tls_cert_issuer, new_ingress,
}
use gameserver_ingress_contr.Platform.{Libs}
use gameserver_ingress_contr.Reconcilers.Push.{push, found_or, attempt-found_or}
use gameserver_ingress_contr.Recorder.{ingress_kind, record_creating}
use gameserver_ingress_contr.World.{World, Call}

-- The interface `IngressStore`.
pub record IngressStore (E S : Type 0) : Type 0 where
  pub create_ingress : Ingress → Call E S Ingress
  pub get_ingress : String → String → Call E S Ingress

-- The options of `reconcileNotFound`, in their order.
unfoldable pub ingress_options : {E : Type 0} → Libs E → GameServer → List (IngressOption E)
ingress_options libs gs =
    (with_custom_annotations libs
      ∷ with_custom_annotations_template libs
      ∷ with_ingress_rule libs (get_ingress_routing_mode gs)
      ∷ with_tls libs (get_ingress_routing_mode gs)
      ∷ with_ingress_class_name libs (get_ingress_class_name gs)
      ∷ [])
    ++ (if is_empty (get_tls_cert_issuer gs)
        then []
        else with_tls_cert_issuer libs (get_tls_cert_issuer gs) ∷ [])

module _ {E S : Type 0} (libs : Libs E) (store : IngressStore E S) where
  unfoldable pub reconcile_not_found : GameServer → Call E S (Option Ingress × Bool)
  unfolding ingress_options
  reconcile_not_found gs = do
    record_creating gs ingress_kind
    result ←
        push libs ingress_kind gs ("failed to create ingress for gameserver " <> gs.name)
          (λ ingress. "failed to push ingress " <> ingress.name <> " for gameserver " <> gs.name)
          store.create_ingress (new_ingress libs (some gs) (ingress_options libs gs))
    pure (result, true)

  unfoldable pub reconcile : GameServer → Call E S (Option Ingress × Bool)
  unfolding reconcile_not_found
  reconcile gs =
      attempt (store.get_ingress gs.name gs.namespace)
      >>= found_or libs
          ("error retrieving Ingress " <> gs.name <> " from namespace " <> gs.namespace)
          (λ ingress. (some ingress, false)) (reconcile_not_found gs)

  -- An Ingress that the store finds is returned, and nothing is recorded.
  pub reconcile_found :
      (gs : GameServer) (w : World S) {ingress : Ingress}
      → store.get_ingress gs.name gs.namespace w ≡ (ok ingress, w)
      → reconcile gs w ≡ (ok (some ingress, false), w)
  unfolding reconcile
  reconcile_found gs w e = attempt-found_or libs _ _ _ (store.get_ingress gs.name gs.namespace) e
