-- ===== src/Stores/Up.antt =====
-- The stores over an API server that answers for one game server: a lookup fails only with "not
-- found"; the objects that are made for the game server are valid, so that creating one fails only
-- with "already exists"; and an update that sets its mark fails only with a conflict.
use text.Mathlib.Text.{◌==◌}
use gameserver_ingress_contr.Base.{true, false, Bool, String, ◌≡◌, refl, ◌∙◌, some}
use gameserver_ingress_contr.Base.Dict.{Dict}
use gameserver_ingress_contr.Base.Result.{Result, ok, err, panic}
use gameserver_ingress_contr.Gameserver.{GameServer, get_router_backend, router_backend_gateway}
use gameserver_ingress_contr.Objects.{Service, Ingress, HttpRoute}
use gameserver_ingress_contr.Options.Gateway.{new_http_route}
use gameserver_ingress_contr.Options.Ingress.{new_ingress}
use gameserver_ingress_contr.Options.Service.{new_service}
use gameserver_ingress_contr.Platform.{Libs, IsLawful}
use gameserver_ingress_contr.Reconcilers.GameServer.Marked.{marked}
use gameserver_ingress_contr.Reconcilers.Gateway.{http_route_options}
use gameserver_ingress_contr.Reconcilers.Ingress.{ingress_options}
use gameserver_ingress_contr.Reconcilers.Service.{service_options}
use gameserver_ingress_contr.Stores.{
  Store, create_service, get_service, create_ingress, get_ingress, create_http_route,
  get_http_route, update_game_server, wrapped, wrapped_unless_not_found,
}
use gameserver_ingress_contr.World.{World, Client, GameServerClient}
use gameserver_ingress_contr.World.Succeeds.{Expected, Answers}

module _ {E S : Type 0} (libs : Libs E) (P : S → Type 0) where
  -- While `P` holds, the API server answers a lookup of objects of a kind, and accepts the objects of
  -- this kind that `IsMade` describes.
  pub record ClientAnswers {A : Type 0} (IsMade : A → Type 0) (client : Client E S A) : Type 0 where
    pub gets : (ns name : String) (s : S) → P s → Expected libs.is_not_found (client.get ns name s)
    pub creates :
        (ns : String) (a : A) (s : S)
        → IsMade a
        → P s
        → Expected libs.is_already_exists (client.create ns a s).0

  -- And no creation, accepted or refused, of any object of the kind ends `P`.
  pub record ClientIsUp {A : Type 0} (IsMade : A → Type 0) (client : Client E S A) : Type 0 where
    pub answers : ClientAnswers IsMade client
    pub keeps : (ns : String) (a : A) (s : S) → P s → P (client.create ns a s).1

  -- While `P` holds the API server answers for the game server: it accepts the Service that
  -- is made for it and the Ingress or the HTTPRoute, by its backend, the game server of this name is there, with annotations,
  -- and the update that sets the mark on it is accepted or conflicts with another one. No update of a
  -- game server that has annotations ends `P`.
  pub record IsUp (store : Store E S) (agones : GameServerClient E S) (gs : GameServer)
      : Type 0 where
    pub services :
        ClientIsUp (λ a. new_service libs gs (service_options libs) ≡ ok a) store.service_store
    pub ingresses :
        ClientIsUp
          (λ a.
            ((get_router_backend gs == router_backend_gateway) ≡ false)
            × (new_ingress libs (some gs) (ingress_options libs gs) ≡ ok a))
          store.ingress_store
    pub routes :
        (client : Client E S HttpRoute)
        → store.gateway_store ≡ some client
        → ClientIsUp
            (λ a.
              ((get_router_backend gs == router_backend_gateway) ≡ true)
              × (new_http_route libs (some gs) (http_route_options libs gs) ≡ ok a))
            client
    pub known :
        (s : S)
        → P s
        → (cached : GameServer) × (d : Dict String) × (agones.get gs.namespace gs.name s
            ≡ ok cached)
          × (cached.annotations ≡ some d)
    pub marks :
        (cached : GameServer) (d : Dict String) (s : S)
        → P s
        → agones.get gs.namespace gs.name s ≡ ok cached
        → cached.annotations ≡ some d
        → Expected libs.is_conflict (agones.update cached.namespace (marked cached d) s).0
    pub updates_keep :
        (ns : String) (a : GameServer) (d : Dict String) (s : S)
        → a.annotations ≡ some d
        → P s
        → P (agones.update ns a s).1

module _ {E : Type 0} (libs : Libs E) where
  Expected-wrapped_unless_not_found :
      {A : Type 0} (text : String) (r : Result E A)
      → Expected libs.is_not_found r
      → Expected libs.is_not_found (wrapped_unless_not_found libs text r)
  Expected-wrapped_unless_not_found text (ok a) h = tt
  Expected-wrapped_unless_not_found text (err e) h = rw h h
  Expected-wrapped_unless_not_found text panic h = absurd h

  Expected-wrapped :
      {A : Type 0} (kind : E → Bool) (text : String) (r : Result E A)
      → ((e : E) (m : String) → kind (libs.wrap e m) ≡ kind e)
      → Expected kind r
      → Expected kind (wrapped libs text r)
  Expected-wrapped kind text (ok a) same h = tt
  Expected-wrapped kind text (err e) same h = same e text ∙ h
  Expected-wrapped kind text panic same h = absurd h

module _ {E S : Type 0} (libs : Libs E) (law : IsLawful libs) (P : S → Type 0) (store : Store E S)
    (agones : GameServerClient E S) (gs : GameServer) (up : IsUp libs P store agones gs) where
  pub Answers-get_service :
      (name ns : String) → Answers P libs.is_not_found (get_service libs store name ns)
  unfolding get_service
  Answers-get_service name ns w p =
      (Expected-wrapped_unless_not_found libs _ _ (up.services.answers.gets ns name w.cluster p), p)

  pub Answers-create_service :
      (a : Service)
      → new_service libs gs (service_options libs) ≡ ok a
      → Answers P libs.is_already_exists (create_service libs store a)
  unfolding create_service
  Answers-create_service a made w p = (
    Expected-wrapped libs _ _ _ law.wrap_already_exists
        (up.services.answers.creates (a.namespace) a w.cluster made p),
    up.services.keeps (a.namespace) a w.cluster p,
  )

  pub Answers-get_ingress :
      (name ns : String) → Answers P libs.is_not_found (get_ingress libs store name ns)
  unfolding get_ingress
  Answers-get_ingress name ns w p = (
    Expected-wrapped_unless_not_found libs _ _ (up.ingresses.answers.gets ns name w.cluster p),
    p,
  )

  pub Answers-create_ingress :
      (get_router_backend gs == router_backend_gateway) ≡ false
      → (a : Ingress) → new_ingress libs (some gs) (ingress_options libs gs) ≡ ok a
      → Answers P libs.is_already_exists (create_ingress libs store a)
  unfolding create_ingress
  Answers-create_ingress other a made w p = (
    Expected-wrapped libs _ _ _ law.wrap_already_exists
        (up.ingresses.answers.creates (a.namespace) a w.cluster (other, made) p),
    up.ingresses.keeps (a.namespace) a w.cluster p,
  )

  module _ (client : Client E S HttpRoute) (e : store.gateway_store ≡ some client) where
    pub Answers-get_http_route :
        (name ns : String) → Answers P libs.is_not_found (get_http_route libs store name ns)
    unfolding get_http_route
    Answers-get_http_route name ns w p = rw e (
      Expected-wrapped_unless_not_found libs _ _
          ((up.routes client e).answers.gets ns name w.cluster p),
      p,
    )

    pub Answers-create_http_route :
        (get_router_backend gs == router_backend_gateway) ≡ true
        → (a : HttpRoute) → new_http_route libs (some gs) (http_route_options libs gs) ≡ ok a
        → Answers P libs.is_already_exists (create_http_route libs store a)
    unfolding create_http_route
    Answers-create_http_route gateway a made w p = rw e (
      Expected-wrapped libs _ _ _ law.wrap_already_exists
          ((up.routes client e).answers.creates (a.namespace) a w.cluster (gateway, made) p),
      (up.routes client e).keeps (a.namespace) a w.cluster p,
    )

  pub Expected-update_game_server :
      (cached : GameServer) (d : Dict String) (w : World S)
      → P w.cluster
      → agones.get gs.namespace gs.name w.cluster ≡ ok cached
      → cached.annotations ≡ some d
      → let (r, w') = update_game_server libs (some agones) (marked cached d) w in
        Expected libs.is_conflict r × P w'.cluster
  unfolding update_game_server
  Expected-update_game_server cached d w p there given = (
    Expected-wrapped libs _ _ _ law.wrap_conflict (up.marks cached d w.cluster p there given),
    up.updates_keep cached.namespace (marked cached d) _ w.cluster refl p,
  )
