-- ===== src/Controller/Life/Served.antt =====
-- pkg/controller, pkg/handlers, pkg/reconcilers and pkg/stores together: what a running process has
-- done for the game servers whose events it got.
use mathlib.Core.Path.{subst}
use gameserver_ingress_contr.Base.{
  ◌≡◌, refl, sym, ap, ◌∙◌, Bool, some, Option-cases, List, [], ◌∷◌, ◌⊎◌, inl, inr,
}
use gameserver_ingress_contr.Base.Action.{◌>>=◌, attempt, pure}
use gameserver_ingress_contr.Base.Result.{Result, ok}
use gameserver_ingress_contr.Controller.{
  Request, Event, QueueCall, created, updated, deleted, forget, done, settle, handle,
}
use gameserver_ingress_contr.Controller.Life.{
  Process, Life, Label, delivered, launches, delivers, panics, reconciles, others_act,
  manager_returns, start_returns, receives, ended_by_signals, Steps, stay, last, next,
}
use gameserver_ingress_contr.Controller.Life.Keeps.{
  world_of, signal_keeps_world, kept_by, Keeps-Steps,
}
use gameserver_ingress_contr.Gameserver.{GameServer, gs_object, from_object}
use gameserver_ingress_contr.Handlers.{Handler, new_handler, reconcile, on_add, on_update}
use gameserver_ingress_contr.Handlers.Gate.{IsEligible}
use gameserver_ingress_contr.Handlers.Lands.{HasService, HasRoute, HasRoute-IsLasting}
use gameserver_ingress_contr.Handlers.Queue.{request_of}
use gameserver_ingress_contr.Handlers.Serves.{IsReadyFor, reconcile_serves}
use gameserver_ingress_contr.Handlers.Stays.{Keeps-handle}
use gameserver_ingress_contr.Handlers.Trail.Clients.{Along-pass}
use gameserver_ingress_contr.Handlers.Trail.Whole.{Along-handle}
use gameserver_ingress_contr.Handlers.Succeeds.{ConflictsEnd}
use gameserver_ingress_contr.Objects.{HttpRoute}
use gameserver_ingress_contr.Options.Custom.Twice.{IsMap}
use gameserver_ingress_contr.Platform.{Libs, IsLawful}
use gameserver_ingress_contr.Reconcilers.GameServer.Marked.{marked}
use gameserver_ingress_contr.Runtime.Signals.{Signals}
use gameserver_ingress_contr.Stores.{Store, create_service, create_ingress, create_http_route}
use gameserver_ingress_contr.Stores.Live.{IsLive}
use gameserver_ingress_contr.Stores.Up.{IsUp}
use gameserver_ingress_contr.World.{World, Call, GameServerClient, Attempted}
use gameserver_ingress_contr.World.Along.{Keeping, kept}
use gameserver_ingress_contr.World.Keeps.{Keeps}

-- The event says how the game server is now.
abbrev pub IsOf : GameServer → Event → Type 0
IsOf gs (created _ obj) = obj ≡ gs_object (some gs)
IsOf gs (updated _ _ obj) = obj ≡ gs_object (some gs)
IsOf gs (deleted _ _) = ⊥

-- Such an event has been delivered.
abbrev pub Delivered : GameServer → List Label → Type 0
Delivered gs [] = ⊥
Delivered gs (delivered event ∷ labels) = IsOf gs event ⊎ Delivered gs labels
Delivered gs (_ ∷ labels) = Delivered gs labels

settled_ok :
    {E S : Type 0} (request : Request) (w : World S) {w' : World S}
    {x : Result E (Unit {0}) × World S}
    → x ≡ (ok tt, w')
    → (attempt (attempt (λ _. x) >>= λ _. pure tt) >>= λ r. pure (settle request r)) w
      ≡ (ok (forget request ∷ done request ∷ []), w')
unfolding ◌>>=◌
settled_ok request w e = rw e refl

-- An event of a game server that the handler has success with leaves the world as the handler does.
pub handle_ok :
    {E S : Type 0} (libs : Libs E) (retry_on_conflict : Call E S GameServer → Call E S GameServer)
    (h : Handler E S) (gs : GameServer) (event : Event) (w : World S) {w' : World S}
    → IsOf gs event
    → reconcile libs retry_on_conflict h (some gs) w ≡ (ok tt, w')
    → handle libs retry_on_conflict h event w
      ≡ (ok (forget (request_of event) ∷ done (request_of event) ∷ []), w')
unfolding handle on_add on_update ◌>>=◌ from_object
handle_ok libs retry h gs (created request obj) w is e = rw is (settled_ok request w e)
handle_ok libs retry h gs (updated request _ obj) w is e = rw is (settled_ok request w e)
handle_ok libs retry h gs (deleted request obj) w is e = absurd is

-- Nobody else deletes the Service or the route of the game server, and the API server stays up.
pub record IsGentle {E S : Type 0} (P : S → Type 0) (store : Store E S) (gs : GameServer)
    (others : S → S → Type 0) : Type 0 where
  pub keeps_up : (s s' : S) → others s s' → P s → P s'
  pub keeps_service : (s s' : S) → others s s' → HasService store gs s → HasService store gs s'
  pub keeps_route : (s s' : S) → others s s' → HasRoute store gs s → HasRoute store gs s'

module _ {E S : Type 0} (libs : Libs E) (law : IsLawful libs) (P : S → Type 0) (store : Store E S)
    (agones : GameServerClient E S) (gateway_enabled : Bool)
    (retry_on_conflict : Call E S GameServer → Call E S GameServer)
    (attempted : (f : Call E S GameServer) (w : World S)
      → Attempted libs f w (retry_on_conflict f w))
    (gs : GameServer) (up : IsUp libs P store agones gs)
    (settled : ConflictsEnd libs P agones retry_on_conflict gs) (signals : Signals)
    (others : S → S → Type 0) (gentle : IsGentle P store gs others) where
  abbrev h : Handler E S
  h = new_handler libs store (some agones) gateway_enabled

  Keeps-create_http_route : (a : HttpRoute) → Keeps P (create_http_route libs store a)
  unfolding create_http_route
  Keeps-create_http_route a w p = elim (Option-cases store.gateway_store) [
    | inl e ↦ rw e p
    | inr (client, e) ↦ rw e ((up.routes client e).keeps (a.namespace) a w.cluster p)
  ]

  -- The API server stays up, whatever events of game servers are handled.
  Keeps-up : (event : Event) → Keeps P (handle libs retry_on_conflict h event)
  unfolding create_service create_ingress
  Keeps-up = Along-handle libs retry_on_conflict h (Keeping P) (kept P) (
      Along-pass libs store (some agones) gateway_enabled retry_on_conflict attempted (Keeping P)
        (kept P) (λ a w p. up.services.keeps (a.namespace) a w.cluster p)
        (λ a w p. up.ingresses.keeps (a.namespace) a w.cluster p) Keeps-create_http_route
        λ client cached d w given p.
          let same : agones ≡ client = cc in
          subst
            (λ (c : GameServerClient E S).
              P (c.update cached.namespace (marked cached d) w.cluster).1)
            same (up.updates_keep cached.namespace (marked cached d) _ w.cluster refl p))

  module _ (u : IsMap gs) (ready : IsReadyFor libs store gateway_enabled gs)
      (live : IsLive store (some agones) libs) (eligible : IsEligible gs) where
    abbrev IsServed : S → Type 0
    IsServed s = HasService store gs s × HasRoute store gs s

    handle_serves :
        (event : Event) (w : World S) {r : Result E (List QueueCall)} {w' : World S}
        → handle libs retry_on_conflict h event w ≡ (r, w')
        → IsOf gs event
        → P w.cluster
        → IsServed w'.cluster
    handle_serves event w e is p =
        let (w1, passed, service, route) =
          reconcile_serves libs law P store agones gateway_enabled retry_on_conflict attempted gs up
            settled u ready live eligible w p in
        subst (λ (v : World S). IsServed v.cluster)
          (ap (λ x. x.1) (sym (handle_ok libs retry_on_conflict h gs event w is passed) ∙ e))
          (service, route)

    IsServed-keep : (s s' : S) → others s s' → IsServed s → IsServed s'
    IsServed-keep s s' o (service, route) =
        (gentle.keeps_service s s' o service, gentle.keeps_route s s' o route)

    Keeps-IsServed : (event : Event) → Keeps IsServed (handle libs retry_on_conflict h event)
    Keeps-IsServed event w (service, route) = (
      Keeps-handle libs store (some agones) gateway_enabled retry_on_conflict attempted
          (HasService store gs) (live.services_last gs.namespace gs.name) event w service,
      Keeps-handle libs store (some agones) gateway_enabled retry_on_conflict attempted
          (HasRoute store gs) (HasRoute-IsLasting store gs libs (some agones) live) event w route,
    )

    -- Over an API server that answers lookups at worst with "not found", knows the game server,
    -- with annotations, accepts the Service and the route made for the game server unless they
    -- exist, and takes the update with the mark unless it conflicts, and whose caches are in step
    -- with it; with wrapped errors that keep their reason and a retry that tries again on
    -- conflicts only and outlasts those of the mark: once the process has got an event of an
    -- eligible game server whose annotations are a map and say what a pass needs, the Service of
    -- the game server and the route of its backend are there, in whatever order the goroutines
    -- run, whatever other events of any objects come before and after it, whatever others do to
    -- the cluster between two events short of deleting these two or of what takes the API server
    -- down, whatever signals come, and however the process ends.
    pub Steps-served :
        {labels : List Label} {p : Process S} {l : Life S}
        → Steps libs retry_on_conflict h signals others labels p l
        → P p.world.cluster
        → Delivered gs labels
        → HasService store gs (world_of l).cluster × HasRoute store gs (world_of l).cluster
    Steps-served stay q d = absurd d
    Steps-served {p = p} (last (panics event m f e)) q (inl is) = handle_serves event p.world e is q
    Steps-served (last (panics event m f e)) q (inr never) = absurd never
    Steps-served (last (start_returns over)) q d = absurd d
    Steps-served (last (ended_by_signals ends)) q d = absurd d
    Steps-served (next (launches m) rest) q d = Steps-served rest q d
    Steps-served {p = p} (next (delivers event m f e) rest) q (inl is) =
        Keeps-Steps libs retry_on_conflict h signals others IsServed IsServed-keep Keeps-IsServed
          rest (handle_serves event p.world e is q)
    Steps-served {p = p} (next (delivers event m f e) rest) q (inr later) =
        Steps-served rest
          (kept_by libs retry_on_conflict h signals others P gentle.keeps_up Keeps-up event p.world
            e q)
          later
    Steps-served (next (reconciles request m e) rest) q d =
        Steps-served rest (subst (λ (v : World S). P v.cluster) (ap (λ x. x.1) e) q) d
    Steps-served {p = p} (next (others_act {s = s} o) rest) q d =
        Steps-served rest (gentle.keeps_up p.world.cluster s o q) d
    Steps-served (next (manager_returns m) rest) q d = Steps-served rest q d
    Steps-served (next {p = p} (receives s) rest) q d =
        Steps-served rest (rw (signal_keeps_world p s p.manager) q) d
