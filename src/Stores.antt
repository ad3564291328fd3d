-- ===== src/Stores.antt =====
-- pkg/stores: the stores over the informers and clients, and the wait for their caches.
pub mod Live
pub mod Retry
pub mod Up
pub mod Sync
pub mod Informers
use gameserver_ingress_contr.Base.{
  String, ◌<>◌, ◌≡◌, Bool, true, false, Option, none, some, if◌then◌else◌,
}
use gameserver_ingress_contr.Base.Result.{Result, ok, err, panic, IsOk-of_eq}
use gameserver_ingress_contr.Base.Action.{crash}
use gameserver_ingress_contr.Gameserver.{GameServer}
use gameserver_ingress_contr.Objects.{Service, Ingress, HttpRoute}
use gameserver_ingress_contr.Platform.{Libs}
use gameserver_ingress_contr.Recorder.{namespaced}
use gameserver_ingress_contr.World.{Call, Client, GameServerClient, reading, changing}

-- `Store`. The embedded `gatewayStore` is nil where the gateway is disabled.
pub record Store (E S : Type 0) : Type 0 where
  pub service_store : Client E S Service
  pub ingress_store : Client E S Ingress
  pub gateway_store : Option (Client E S HttpRoute)

-- `if err != nil { return nil, errors.Wrapf(err, text) }; return result, nil`
abbrev pub wrapped : {E A : Type 0} → Libs E → String → Result E A → Result E A
wrapped libs text (err e) = err (libs.wrap e text)
wrapped libs text r = r

pub wrapped_inv :
    {E A : Type 0} (libs : Libs E) (text : String) (r : Result E A) {a : A}
    → wrapped libs text r ≡ ok a
    → r ≡ ok a
wrapped_inv libs text (ok b) h = h
wrapped_inv libs text (err e) h = absurd (IsOk-of_eq h)
wrapped_inv libs text panic h = absurd (IsOk-of_eq h)

-- The same, where an error that says "not found" is passed on as it is.
abbrev pub wrapped_unless_not_found : {E A : Type 0} → Libs E → String → Result E A → Result E A
wrapped_unless_not_found libs text (err e) =
    if libs.is_not_found e then err e else err (libs.wrap e text)
wrapped_unless_not_found libs text r = r

module _ {E S : Type 0} (libs : Libs E) where
  unfoldable pub create_service : Store E S → Service → Call E S Service
  create_service store service = changing λ s.
      let (r, s') = store.service_store.create (service.namespace) service s in
      (
        wrapped libs ("failed to create Service " <> namespaced (service.namespace) (service.name))
            r,
        s',
      )

  unfoldable pub get_service : Store E S → String → String → Call E S Service
  get_service store name namespace = reading λ s.
      wrapped_unless_not_found libs
        ("error retrieving Service " <> name <> " from namespace " <> namespace)
        (store.service_store.get namespace name s)

  unfoldable pub create_ingress : Store E S → Ingress → Call E S Ingress
  create_ingress store ingress = changing λ s.
      let (r, s') = store.ingress_store.create (ingress.namespace) ingress s in
      (
        wrapped libs ("failed to create Ingress " <> namespaced (ingress.namespace) (ingress.name))
            r,
        s',
      )

  unfoldable pub get_ingress : Store E S → String → String → Call E S Ingress
  get_ingress store name namespace = reading λ s.
      wrapped_unless_not_found libs
        ("error retrieving Ingress " <> name <> " from namespace " <> namespace)
        (store.ingress_store.get namespace name s)

  -- A call through the nil `gatewayStore` is a panic.
  unfoldable pub create_http_route : Store E S → HttpRoute → Call E S HttpRoute
  create_http_route store route = elim store.gateway_store [
    | none ↦ crash
    | some client ↦ changing λ s.
        let (r, s') = client.create (route.namespace) route s in
        (
          wrapped libs ("failed to create HTTPRoute " <> namespaced (route.namespace) (route.name))
              r,
          s',
        )
  ]

  unfoldable pub get_http_route : Store E S → String → String → Call E S HttpRoute
  get_http_route store name namespace = elim store.gateway_store [
    | none ↦ crash
    | some client ↦ reading λ s.
        wrapped_unless_not_found libs
          ("error retrieving HTTPRoute " <> name <> " from namespace " <> namespace)
          (client.get namespace name s)
  ]

  -- A nil `*AgonesStore` is `none`: a call of its methods is a panic.
  unfoldable pub update_game_server :
      Option (GameServerClient E S) → GameServer → Call E S GameServer
  update_game_server none gs = crash
  update_game_server (some client) gs = changing λ s.
      let (r, s') = client.update gs.namespace gs s in
      (wrapped libs ("failed to update gameserver " <> namespaced gs.namespace gs.name) r, s')

  unfoldable pub get_game_server :
      Option (GameServerClient E S) → String → String → Call E S GameServer
  get_game_server none name namespace = crash
  get_game_server (some client) name namespace = reading λ s.
      wrapped libs ("failed to retrieve gameserver " <> namespaced namespace name)
        (client.get namespace name s)
