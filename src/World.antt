-- ===== src/World.antt =====
-- What the controller's calls read and change: the cluster, seen through clients and informers
-- (k8s.io/client-go, agones.dev/agones, sigs.k8s.io/gateway-api), and the events that it records.
pub mod Along
pub mod Keeps
pub mod Succeeds
use gameserver_ingress_contr.Base.{String, true, ◌≡◌, List}
use gameserver_ingress_contr.Base.Result.{Result, err}
use gameserver_ingress_contr.Base.Action.{Action}
use gameserver_ingress_contr.Gameserver.{GameServer}
use gameserver_ingress_contr.Platform.{Libs}

-- One call of `Recorder.Event`.
pub record Event : Type 0 where
  pub namespace : String
  pub name : String
  pub event_type : String
  pub reason : String
  pub message : String

-- `cluster` is a state that only the clients know. Events are in the order of recording.
pub record World (S : Type 0) : Type 0 where
  pub cluster : S
  pub events : List Event

-- A call of the controller.
abbrev pub Call : Type 0 → Type 0 → Type 0 → Type 0
Call E S = Action E (World S)

-- A call that reads the cluster, and one that changes it.
module _ {E S A : Type 0} where
  abbrev pub reading : (S → Result E A) → Call E S A
  reading f w = (f w.cluster, w)

  abbrev pub changing : (S → Result E A × S) → Call E S A
  changing f w = let (r, s) = f w.cluster in (r, record w { cluster = s })

-- The lister and the typed client of one kind: `Lister().…(namespace).Get(name)` reads the cache
-- of an informer, and `….Create(ctx, object, options)` calls the API server.
pub record Client (E S A : Type 0) : Type 0 where
  pub get : String → String → S → Result E A
  pub create : String → A → S → Result E A × S

-- The same for game servers, which are updated and never created.
pub record GameServerClient (E S : Type 0) : Type 0 where
  pub get : String → String → S → Result E GameServer
  pub update : String → GameServer → S → Result E GameServer × S

-- How a row of attempts ends: only a conflict is tried again, and the outcome is that of the last
-- attempt.
pub data Attempted {E W A : Type 0} (libs : Libs E) (f : Action E W A)
    : W → Result E A × W → Type 0 where
  ended : {w : W} {x : Result E A × W} → f w ≡ x → Attempted libs f w x
  again :
      {w w' : W} {x : Result E A × W} {e : E}
      → f w ≡ (err e, w')
      → libs.is_conflict e ≡ true
      → Attempted libs f w' x
      → Attempted libs f w x
