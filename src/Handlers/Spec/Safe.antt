-- ===== src/Handlers/Spec/Safe.antt =====
-- What the machine has established in each phase.
use gameserver_ingress_contr.Base.{Option}
use gameserver_ingress_contr.Gameserver.{GameServer}
use gameserver_ingress_contr.Handlers.Lands.{HasService, HasRoute, HasRoute-IsLasting}
use gameserver_ingress_contr.Handlers.Spec.{
  Phase, serving, routing, marking, Step, note, make_service, service_there, make_ingress,
  make_http_route, route_there, mark, Steps, none_left, then_step,
}
use gameserver_ingress_contr.Platform.{Libs}
use gameserver_ingress_contr.Stores.{Store}
use gameserver_ingress_contr.Stores.Live.{IsLive}
use gameserver_ingress_contr.World.{World, GameServerClient}

module _ {E S : Type 0} (libs : Libs E) (store : Store E S) (agones : Option (GameServerClient E S))
    (gs : GameServer) where
  -- What is there when the machine is in a phase.
  abbrev pub Established : Phase → S → Type 0
  Established serving s = Unit
  Established routing s = HasService store gs s
  Established marking s = HasService store gs s × HasRoute store gs s

  module _ (live : IsLive store agones libs) where
    Established-Step :
        {p q : Phase} {v w : World S}
        → Step libs store agones gs p v q w
        → Established p v.cluster
        → Established q w.cluster
    Established-Step (note e) h = h
    Established-Step (make_service a built) h = tt
    Established-Step (service_there there) h = there
    Established-Step (make_ingress {w = w} a other built) h =
        (live.services_last gs.namespace gs.name).ingresses_keep gs.namespace a w.cluster h
    Established-Step (make_http_route {w = w} client a gateway e built) h =
        (live.services_last gs.namespace gs.name).routes_keep client e gs.namespace a w.cluster h
    Established-Step (route_there there) h = (h, there)
    Established-Step (mark {w = w} client cached d e got given) (h, route) = (
      (live.services_last gs.namespace gs.name).updates_keep client e cached.namespace _ w.cluster
          h,
      (HasRoute-IsLasting store gs libs agones live).updates_keep client e cached.namespace _
          w.cluster route,
    )

    -- Over an API server whose caches are in step with it, and in which nobody else deletes: a run
    -- of the machine that has come to routing finds the Service there, and one that has come to
    -- marking, which alone sets the mark, finds the Service and the route of the game server's
    -- backend there, whatever it has done on the way.
    pub Steps-Established :
        {p : Phase} {v w : World S}
        → Steps libs store agones gs serving v p w
        → Established p w.cluster
    Steps-Established none_left = tt
    Steps-Established (then_step rest s) = Established-Step s (Steps-Established rest)
