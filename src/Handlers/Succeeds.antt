-- ===== src/Handlers/Succeeds.antt =====
-- When the steps of the handler succeed.
use text.Mathlib.Text.{◌==◌}
use gameserver_ingress_contr.Base.{
  String, ◌<>◌, ◌∙◌, ◌≡◌, refl, ap, Bool, true, false, Option, none, some, Bool-cases, Option-cases,
  inl, inr, if◌then◌else◌, not,
}
use gameserver_ingress_contr.Base.Action.{>>=-ok, pure, lift}
use gameserver_ingress_contr.Base.Dict.{Dict}
use gameserver_ingress_contr.Base.Result.{ok, err}
use gameserver_ingress_contr.Base.Text.{is_empty, parse_bool}
use gameserver_ingress_contr.Gameserver.{
  GameServer, get_router_backend, router_backend_gateway, has_annotation, read,
  octops_annotation_game_server_ingress_ready, octops_annotation_ingress_class_name_legacy,
}
use gameserver_ingress_contr.Handlers.{
  service_store_of, ingress_store_of, http_route_store_of, game_server_store_of,
}
use gameserver_ingress_contr.Objects.{HttpRoute}
use gameserver_ingress_contr.Options.Custom.Twice.{IsMap}
use gameserver_ingress_contr.Platform.{Libs, IsLawful}
use gameserver_ingress_contr.Reconcilers.Gateway as GatewayReconciler
use gameserver_ingress_contr.Reconcilers.Gateway.{
  warn_if_present, terminate_tls_warning, issuer_warning,
}
use gameserver_ingress_contr.Reconcilers.Gateway.Ready.{IsRouteReady, new_http_route_iff}
use gameserver_ingress_contr.Reconcilers.GameServer as GameServerReconciler
use gameserver_ingress_contr.Reconcilers.GameServer.{
  update_ready, mark_ready, reconcile_mark, must_reconcile_mark, record_deprecated_annotations,
  wrapping, wrapping-ok,
}
use gameserver_ingress_contr.Reconcilers.GameServer.Marked.{marked}
use gameserver_ingress_contr.Reconcilers.Ingress as IngressReconciler
use gameserver_ingress_contr.Reconcilers.Ingress.Ready.{IsIngressReady, new_ingress_iff}
use gameserver_ingress_contr.Reconcilers.Push.Succeeds.{Succeeds-push, Succeeds-found_or}
use gameserver_ingress_contr.Reconcilers.Service as ServiceReconciler
use gameserver_ingress_contr.Reconcilers.Service.Ready.{IsServiceReady, new_service_iff}
use gameserver_ingress_contr.Recorder.{namespaced}
use gameserver_ingress_contr.Stores.{
  Store, get_service, create_service, get_ingress, create_ingress, get_http_route,
  create_http_route, get_game_server, update_game_server,
}
use gameserver_ingress_contr.Stores.Up.{
  IsUp, Answers-get_service, Answers-create_service, Answers-get_ingress, Answers-create_ingress,
  Answers-get_http_route, Answers-create_http_route, Expected-update_game_server,
}
use gameserver_ingress_contr.World.{World, Call, Client, GameServerClient, Attempted}
use gameserver_ingress_contr.World.Succeeds.{
  Succeeds, Succeeds->>=, Answers, Answers-wrapping, Answers-Attempted, Expected-IsOk,
}

-- The annotation of the mark is missing, empty or a Boolean.
abbrev pub HasMarkFlag : GameServer → Type 0
HasMarkFlag gs =
    (v : String)
    → has_annotation gs octops_annotation_game_server_ingress_ready ≡ some v
    → is_empty v ≡ false
    → (b : Bool) × (parse_bool v ≡ some b)

-- The conflicts of the update that sets the mark come to an end before the attempts do: while `P`
-- holds, the retry does not end with a conflict.
abbrev pub ConflictsEnd :
    {E S : Type 0}
    → Libs E
    → (S → Type 0)
    → GameServerClient E S
    → (Call E S GameServer → Call E S GameServer)
    → GameServer
    → Type 0
ConflictsEnd {E} {S} libs P agones retry_on_conflict gs =
    (w : World S)
    → P w.cluster
    → (e : E)
    → (retry_on_conflict (update_ready libs (game_server_store_of libs (some agones)) gs) w).0
      ≡ err e
    → libs.is_conflict e ≡ false

-- A try of the mark on a game server whose annotations are known is the update.
pub update_ready-known :
    {E S : Type 0} (libs : Libs E) (agones : GameServerClient E S) (gs cached : GameServer)
    (d : Dict String) (w : World S)
    → agones.get gs.namespace gs.name w.cluster ≡ ok cached
    → cached.annotations ≡ some d
    → update_ready libs (game_server_store_of libs (some agones)) gs w
      ≡ wrapping libs
          ("failed to update gameserver " <> namespaced cached.namespace cached.name)
          (update_game_server libs (some agones) (marked cached d))
          w
unfolding update_ready mark_ready get_game_server
update_ready-known {E} libs agones gs cached d w there given =
    let found : get_game_server libs (some agones) gs.name gs.namespace w ≡ (ok cached, w) =
      rw there refl in
    let copied : mark_ready {E = E} cached w ≡ (ok (marked cached d), w) = rw given refl in
    >>=-ok _ _ (wrapping-ok libs _ _ found) ∙ >>=-ok (mark_ready cached) _ copied

module _ {E S : Type 0} (libs : Libs E) (law : IsLawful libs) (P : S → Type 0) (store : Store E S)
    (agones : GameServerClient E S) (gs : GameServer) (up : IsUp libs P store agones gs)
    (u : IsMap gs) where
  pub Succeeds-service :
      IsServiceReady libs gs
      → Succeeds P (ServiceReconciler.reconcile libs (service_store_of libs store) gs)
  unfolding ServiceReconciler.reconcile ServiceReconciler.reconcile_not_found
  Succeeds-service ready =
      Succeeds-found_or P libs _ _ _ (get_service libs store gs.name gs.namespace)
        (Answers-get_service libs law P store agones gs up gs.name gs.namespace)
        (Succeeds->>= P _ _ (λ w p. (tt, p))
          λ _.
            Succeeds-push P libs _ gs _ _ (create_service libs store) _
              ((new_service_iff libs gs u).1 ready)
              (Answers-create_service libs law P store agones gs up))

  pub Succeeds-ingress :
      (get_router_backend gs == router_backend_gateway) ≡ false
      → IsIngressReady libs gs
      → Succeeds P (IngressReconciler.reconcile libs (ingress_store_of libs store) gs)
  unfolding IngressReconciler.reconcile IngressReconciler.reconcile_not_found
  Succeeds-ingress other ready =
      Succeeds-found_or P libs _ _ _ (get_ingress libs store gs.name gs.namespace)
        (Answers-get_ingress libs law P store agones gs up gs.name gs.namespace)
        (Succeeds->>= P _ _ (λ w p. (tt, p))
          λ _.
            Succeeds->>= P _ _
              (Succeeds-push P libs _ gs _ _ (create_ingress libs store) _
                ((new_ingress_iff libs gs u).1 ready)
                (Answers-create_ingress libs law P store agones gs up other))
              λ _ w p. (tt, p))

  Succeeds-warn :
      (message : String) (o : Option String) → Succeeds {E = E} P (warn_if_present gs message o)
  Succeeds-warn message none w p = (tt, p)
  Succeeds-warn message (some _) w p = (tt, p)

  pub Succeeds-http_route :
      (client : Client E S HttpRoute)
      → store.gateway_store ≡ some client
      → (get_router_backend gs == router_backend_gateway) ≡ true
      → IsRouteReady libs gs
      → Succeeds P (GatewayReconciler.reconcile libs (http_route_store_of libs store) gs)
  unfolding GatewayReconciler.reconcile GatewayReconciler.reconcile_not_found
  Succeeds-http_route client e gateway ready =
      Succeeds-found_or P libs _ _ _ (get_http_route libs store gs.name gs.namespace)
        (Answers-get_http_route libs law P store agones gs up client e gs.name gs.namespace)
        (Succeeds->>= P _ _ (λ w p. (tt, p))
          λ _. Succeeds->>= P _ _ (Succeeds-warn terminate_tls_warning _) λ _.
            Succeeds->>= P _ _ (Succeeds-warn issuer_warning _) λ _.
              Succeeds->>= P _ _
                (Succeeds-push P libs _ gs _ _ (create_http_route libs store) _
                  ((new_http_route_iff libs gs u).1 ready)
                  (Answers-create_http_route libs law P store agones gs up client e gateway))
                λ _ w p. (tt, p))

  must_total : HasMarkFlag gs → (must : Bool) × (must_reconcile_mark libs gs ≡ ok must)
  unfolding must_reconcile_mark
  must_total flag =
      elim (Option-cases (has_annotation gs octops_annotation_game_server_ingress_ready)) [
        | inl e ↦ (true, rw (must_reconcile_mark, e) refl)
        | inr (v, e) ↦ elim (Bool-cases (is_empty v)) [
          | inl empty ↦ (true, rw (must_reconcile_mark, e, empty) refl)
          | inr full ↦
              let (b, parsed) = flag v e full in
              (not b, rw (must_reconcile_mark, e, full, parsed) refl)
        ]
      ]

  Succeeds-deprecated : (g : GameServer) → Succeeds {E = E} P (record_deprecated_annotations g)
  Succeeds-deprecated g w p =
      elim (Option-cases (read octops_annotation_ingress_class_name_legacy g.annotations)) [
        | inl e ↦ rw (e, record_deprecated_annotations) (tt, p)
        | inr (d, e) ↦ rw (e, record_deprecated_annotations) (tt, p)
      ]

  Answers-update_ready :
      Answers P libs.is_conflict (update_ready libs (game_server_store_of libs (some agones)) gs)
  Answers-update_ready w p =
      let (cached, d, there, given) = up.known w.cluster p in
      rw (update_ready-known libs agones gs cached d w there given) (
        Answers-wrapping P libs libs.is_conflict _ _ w law.wrap_conflict
          (Expected-update_game_server libs law P store agones gs up cached d w p there given))

  pub Succeeds-mark :
      (retry_on_conflict : Call E S GameServer → Call E S GameServer)
      → ((f : Call E S GameServer) (w : World S) → Attempted libs f w (retry_on_conflict f w))
      → ConflictsEnd libs P agones retry_on_conflict gs
      → HasMarkFlag gs
      → Succeeds P (
          GameServerReconciler.reconcile libs
            (game_server_store_of libs (some agones))
            retry_on_conflict
            gs)
  unfolding GameServerReconciler.reconcile reconcile_mark
  Succeeds-mark retry attempted settled flag w p =
      let (must, e) = must_total flag in
      rw
        (>>=-ok _ _
          (wrapping-ok libs _ (lift (must_reconcile_mark libs gs)) {w = w} (ap (λ r. (r, w)) e)))
        (branch must w p)
    where
      retried : Succeeds P (retry (update_ready libs (game_server_store_of libs (some agones)) gs))
      retried w p =
          let (i, q) = Answers-Attempted P Answers-update_ready (attempted _ w) p in
          (Expected-IsOk libs.is_conflict _ i (settled w p), q)

      branch :
          (must : Bool)
          → Succeeds P (
              if must
              then reconcile_mark libs (game_server_store_of libs (some agones)) retry gs
              else pure gs)
      branch false = λ w p. (tt, p)
      branch true = Succeeds->>= P _ _ retried λ result.
          Succeeds->>= P _ _ (λ w p. (tt, p))
            λ _. Succeeds->>= P _ _ (Succeeds-deprecated result) λ _ w p. (tt, p)
