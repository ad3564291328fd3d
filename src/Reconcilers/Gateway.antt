-- ===== src/Reconcilers/Gateway.antt =====
-- pkg/reconcilers/gateway_reconciler.go. `Reconcile` returns the object and whether it made one.
pub mod Built
pub mod Events
pub mod Ready
use gameserver_ingress_contr.Base.{
  ◌≡◌, refl, String, ◌<>◌, Bool, true, false, Option, none, some, List, [], ◌∷◌,
}
use gameserver_ingress_contr.Base.Action.{◌>>=◌, ◌>>◌, attempt, pure}
use gameserver_ingress_contr.Base.Result.{ok}
use gameserver_ingress_contr.Gameserver.{
  GameServer, has_annotation, get_ingress_routing_mode, octops_annotation_terminate_tls,
  octops_annotation_issuer_name,
}
use gameserver_ingress_contr.Objects.{HttpRoute}
use gameserver_ingress_contr.Options.Gateway.{
  HttpRouteOption, with_custom_http_route_annotations, with_custom_http_route_annotations_template,
  with_http_route_parent_ref, with_http_route_rules, new_http_route,
}
use gameserver_ingress_contr.Platform.{Libs}
use gameserver_ingress_contr.Reconcilers.Push.{push, found_or, attempt-found_or}
use gameserver_ingress_contr.Recorder.{http_route_kind, record_creating, record_warning}
use gameserver_ingress_contr.World.{World, Call}

-- The interface `HTTPRouteStore`.
pub record HttpRouteStore (E S : Type 0) : Type 0 where
  pub create_http_route : HttpRoute → Call E S HttpRoute
  pub get_http_route : String → String → Call E S HttpRoute

abbrev pub terminate_tls_warning : String
terminate_tls_warning =
    "annotation octops.io/terminate-tls has no effect in gateway mode — configure TLS on the Gateway listener instead"

abbrev pub issuer_warning : String
issuer_warning =
    "annotation octops.io/issuer-tls-name has no effect in gateway mode — use a cert-manager Certificate resource linked to the Gateway listener instead"

-- `if _, ok := HasAnnotation(gs, annotation); ok { RecordWarning(…) }`
abbrev pub warn_if_present :
    {E S : Type 0} → GameServer → String → Option String → Call E S (Unit {0})
warn_if_present gs message none = pure tt
warn_if_present gs message (some _) = record_warning gs http_route_kind message

-- The options of `reconcileNotFound`, in their order.
unfoldable pub http_route_options : {E : Type 0} → Libs E → GameServer → List (HttpRouteOption E)
http_route_options libs gs =
    with_custom_http_route_annotations libs
    ∷ with_custom_http_route_annotations_template libs
    ∷ with_http_route_parent_ref libs
    ∷ with_http_route_rules libs (get_ingress_routing_mode gs)
    ∷ []

module _ {E S : Type 0} (libs : Libs E) (store : HttpRouteStore E S) where
  unfoldable pub reconcile_not_found : GameServer → Call E S (Option HttpRoute × Bool)
  unfolding http_route_options
  reconcile_not_found gs = do
    record_creating gs http_route_kind
    warn_if_present gs terminate_tls_warning (has_annotation gs octops_annotation_terminate_tls)
    warn_if_present gs issuer_warning (has_annotation gs octops_annotation_issuer_name)
    result ←
        push libs http_route_kind gs ("failed to create HTTPRoute for gameserver " <> gs.name)
          (λ route. "failed to push HTTPRoute " <> route.name <> " for gameserver " <> gs.name)
          store.create_http_route (new_http_route libs (some gs) (http_route_options libs gs))
    pure (result, true)

  unfoldable pub reconcile : GameServer → Call E S (Option HttpRoute × Bool)
  unfolding reconcile_not_found
  reconcile gs =
      attempt (store.get_http_route gs.name gs.namespace)
      >>= found_or libs
          ("error retrieving HTTPRoute " <> gs.name <> " from namespace " <> gs.namespace)
          (λ route. (some route, false)) (reconcile_not_found gs)

  -- An HTTPRoute that the store finds is returned, and nothing is recorded.
  pub reconcile_found :
      (gs : GameServer) (w : World S) {route : HttpRoute}
      → store.get_http_route gs.name gs.namespace w ≡ (ok route, w)
      → reconcile gs w ≡ (ok (some route, false), w)
  unfolding reconcile
  reconcile_found gs w e = attempt-found_or libs _ _ _ (store.get_http_route gs.name gs.namespace) e
