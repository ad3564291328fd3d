-- ===== src/Stores/Live.antt =====
-- The stores over an API server whose caches are in step with it and in which nobody else deletes.
use gameserver_ingress_contr.Base.{
  String, ◌<>◌, ◌≡◌, sym, ◌∙◌, Option, some, Bool-cases, Option-cases, inl, inr,
}
use gameserver_ingress_contr.Base.Result.{Result, ok, err, panic, IsOk}
use gameserver_ingress_contr.Gameserver.{GameServer}
use gameserver_ingress_contr.Objects.{Service, Ingress, HttpRoute}
use gameserver_ingress_contr.Platform.{Libs, IsLawful}
use gameserver_ingress_contr.Recorder.{namespaced}
use gameserver_ingress_contr.Stores.{
  Store, create_service, get_service, create_ingress, get_ingress, create_http_route,
  get_http_route, update_game_server, get_game_server, wrapped, wrapped_unless_not_found,
}
use gameserver_ingress_contr.World.{Client, GameServerClient}
use gameserver_ingress_contr.World.Keeps.{Keeps, Yields, Makes, MadeBy}

-- The object of this kind and name is in the cache.
abbrev pub IsThere : {E S A : Type 0} → Client E S A → String → String → S → Type 0
IsThere client namespace name s = IsOk (client.get namespace name s)

module _ {E S : Type 0} (libs : Libs E) where
  -- What is created, or exists already, is there afterwards.
  abbrev pub IsSeen : {A : Type 0} → Client E S A → (A → String) → (A → String) → Type 0
  IsSeen client namespace_of name_of =
      (a : _) (s : S)
      → let (r, s') = client.create (namespace_of a) a s in
        MadeBy {E = E} (IsThere client (namespace_of a) (name_of a)) libs r s'

module _ {E S : Type 0} (store : Store E S) (agones : Option (GameServerClient E S)) where
  -- No call of the controller ends `P`.
  pub record IsLasting (P : S → Type 0) : Type 0 where
    pub services_keep :
        (ns : String) (a : Service) (s : S) → P s → P (store.service_store.create ns a s).1
    pub ingresses_keep :
        (ns : String) (a : Ingress) (s : S) → P s → P (store.ingress_store.create ns a s).1
    pub routes_keep :
        (client : Client E S HttpRoute)
        → store.gateway_store ≡ some client
        → (ns : String) (a : HttpRoute) (s : S) → P s
        → P (client.create ns a s).1
    pub updates_keep :
        (client : GameServerClient E S)
        → agones ≡ some client
        → (ns : String) (a : GameServer) (s : S) → P s
        → P (client.update ns a s).1

  -- What is created is there, and what is there stays.
  pub record IsLive (libs : Libs E) : Type 0 where
    pub services_seen : IsSeen libs store.service_store (λ a. a.namespace) (λ a. a.name)
    pub ingresses_seen : IsSeen libs store.ingress_store (λ a. a.namespace) (λ a. a.name)
    pub routes_seen :
        (client : Client E S HttpRoute)
        → store.gateway_store ≡ some client
        → IsSeen libs client (λ a. a.namespace) (λ a. a.name)
    pub services_last : (ns name : String) → IsLasting (IsThere store.service_store ns name)
    pub ingresses_last : (ns name : String) → IsLasting (IsThere store.ingress_store ns name)
    pub routes_last :
        (client : Client E S HttpRoute)
        → store.gateway_store ≡ some client
        → (ns name : String) → IsLasting (IsThere client ns name)

module _ {E : Type 0} (libs : Libs E) where
  found_IsOk :
      {A : Type 0} (text : String) (r : Result E A)
      → IsOk (wrapped_unless_not_found libs text r)
      → IsOk r
  found_IsOk text (ok a) i = tt
  found_IsOk text (err e) i = elim (Bool-cases (libs.is_not_found e)) [
    | inl missing ↦ absurd (rw missing at i)
    | inr failed ↦ absurd (rw failed at i)
  ]
  found_IsOk text panic i = absurd i

  moved :
      {S A B : Type 0} (client : Client E S A) {ns ns' name name' : String} (r : Result E B) (s : S)
      → ns ≡ ns'
      → name ≡ name'
      → MadeBy {E = E} (IsThere client ns name) libs r s
      → MadeBy {E = E} (IsThere client ns' name') libs r s
  moved client r s e e' m = rw (e, e') at m

  made_wrapped :
      {S A : Type 0} (P : S → Type 0) (text : String) (r : Result E A) (s : S)
      → IsLawful libs
      → MadeBy {E = E} P libs r s
      → MadeBy {E = E} P libs (wrapped libs text r) s
  made_wrapped P text (ok a) s law m = m
  made_wrapped P text (err e) s law m = λ there. m (sym (law.wrap_already_exists e text) ∙ there)
  made_wrapped P text panic s law m = tt

  created :
      {S A B : Type 0}
      → IsLawful libs
      → (client : Client E S A) (text : String) {ns ns' name name' : String} (r : Result E B)
        (s : S)
      → ns ≡ ns'
      → name ≡ name'
      → MadeBy {E = E} (IsThere client ns name) libs r s
      → MadeBy {E = E} (IsThere client ns' name') libs (wrapped libs text r) s
  created law client text {ns} {ns'} {name} {name'} r s e e' m =
      moved client (wrapped libs text r) s e e'
        (made_wrapped (IsThere client ns name) text r s law m)

module _ {E S : Type 0} (libs : Libs E) where
  module _ (store : Store E S) where
    pub Yields-get_service :
        (name ns : String)
        → Yields (IsThere store.service_store ns name) (get_service libs store name ns)
    unfolding get_service
    Yields-get_service name ns w i = found_IsOk libs _ (store.service_store.get ns name w.cluster) i

    pub Yields-get_ingress :
        (name ns : String)
        → Yields (IsThere store.ingress_store ns name) (get_ingress libs store name ns)
    unfolding get_ingress
    Yields-get_ingress name ns w i = found_IsOk libs _ (store.ingress_store.get ns name w.cluster) i

    pub Yields-get_http_route :
        (client : Client E S HttpRoute)
        → store.gateway_store ≡ some client
        → (name ns : String) → Yields (IsThere client ns name) (get_http_route libs store name ns)
    unfolding get_http_route
    Yields-get_http_route client e name ns w i =
        rw e (found_IsOk libs _ (client.get ns name w.cluster) (rw e at i))

    module _ (law : IsLawful libs) (agones : Option (GameServerClient E S))
        (live : IsLive store agones libs) where
      pub Makes-create_service :
          (a : Service) {ns name : String}
          → a.namespace ≡ ns
          → a.name ≡ name
          → Makes (IsThere store.service_store ns name) libs (create_service libs store a)
      unfolding create_service
      Makes-create_service a placed named w =
          let (r, s) = store.service_store.create (a.namespace) a w.cluster in
          created libs law store.service_store
            ("failed to create Service " <> namespaced (a.namespace) (a.name)) r s placed named
            (live.services_seen a w.cluster)

      pub Makes-create_ingress :
          (a : Ingress) {ns name : String}
          → a.namespace ≡ ns
          → a.name ≡ name
          → Makes (IsThere store.ingress_store ns name) libs (create_ingress libs store a)
      unfolding create_ingress
      Makes-create_ingress a placed named w =
          let (r, s) = store.ingress_store.create (a.namespace) a w.cluster in
          created libs law store.ingress_store
            ("failed to create Ingress " <> namespaced (a.namespace) (a.name)) r s placed named
            (live.ingresses_seen a w.cluster)

      pub Makes-create_http_route :
          (client : Client E S HttpRoute)
          → store.gateway_store ≡ some client
          → (a : HttpRoute) {ns name : String} → a.namespace ≡ ns
          → a.name ≡ name
          → Makes (IsThere client ns name) libs (create_http_route libs store a)
      unfolding create_http_route
      Makes-create_http_route client e a placed named w =
          let (r, s) = client.create (a.namespace) a w.cluster in
          rw e (
            created libs law client
              ("failed to create HTTPRoute " <> namespaced (a.namespace) (a.name)) r s placed named
              (live.routes_seen client e a w.cluster))

  module _ (store : Store E S) (agones : Option (GameServerClient E S)) (P : S → Type 0)
      (last : IsLasting store agones P) where
    pub Keeps-get_service : (name ns : String) → Keeps P (get_service libs store name ns)
    unfolding get_service
    Keeps-get_service name ns w p = p

    pub Keeps-get_ingress : (name ns : String) → Keeps P (get_ingress libs store name ns)
    unfolding get_ingress
    Keeps-get_ingress name ns w p = p

    pub Keeps-get_http_route : (name ns : String) → Keeps P (get_http_route libs store name ns)
    unfolding get_http_route
    Keeps-get_http_route name ns w p = elim (Option-cases store.gateway_store) [
      | inl e ↦ rw e p
      | inr (client, e) ↦ rw e p
    ]

    pub Keeps-get_game_server : (name ns : String) → Keeps P (get_game_server libs agones name ns)
    unfolding get_game_server
    Keeps-get_game_server name ns w p = elim (Option-cases agones) [
      | inl e ↦ rw e p
      | inr (client, e) ↦ rw e p
    ]

    pub Keeps-create_service : (a : Service) → Keeps P (create_service libs store a)
    unfolding create_service
    Keeps-create_service a w p = last.services_keep (a.namespace) a w.cluster p

    pub Keeps-create_ingress : (a : Ingress) → Keeps P (create_ingress libs store a)
    unfolding create_ingress
    Keeps-create_ingress a w p = last.ingresses_keep (a.namespace) a w.cluster p

    pub Keeps-create_http_route : (a : HttpRoute) → Keeps P (create_http_route libs store a)
    unfolding create_http_route
    Keeps-create_http_route a w p = elim (Option-cases store.gateway_store) [
      | inl e ↦ rw e p
      | inr (client, e) ↦ rw e (last.routes_keep client e (a.namespace) a w.cluster p)
    ]

    pub Keeps-update_game_server : (a : GameServer) → Keeps P (update_game_server libs agones a)
    unfolding update_game_server
    Keeps-update_game_server a w p = elim (Option-cases agones) [
      | inl e ↦ rw e p
      | inr (client, e) ↦ rw e (last.updates_keep client e a.namespace a w.cluster p)
    ]
