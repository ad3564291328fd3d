-- ===== src/Lib.antt =====
-- The Octops Gameserver Ingress Controller, as a model whose definitions can be run.
--
-- For an Agones game server that asks for it, the controller makes a Service and then a route to
-- it, an Ingress or an HTTPRoute, and in the end it marks the game server as ready. The watch
-- (pkg/controller) hands each event to the event handler (pkg/handlers), which asks pkg/gameserver
-- whether the game server is one to act on and then calls the reconcilers (pkg/reconcilers). These
-- look for an object in a store (pkg/stores), build what is missing by a list of options, push it
-- and record events (pkg/record). cmd reads the command line, and pkg/app puts all of it together
-- at the start, with the clients of pkg/k8sutil and the manager of pkg/manager.
--
-- Files:
--   Base/*: results with errors and panics, calls that change a world, maps with text keys, and the
--     functions of Go's packages strings and strconv that the program calls.
--   Gameserver: pkg/gameserver/gameserver.go. A nil map of annotations is `none`.
--   Objects: the Kubernetes objects that are made, by the fields that the program sets.
--   Platform: the packages outside the repository, as the parameters `Libs`.
--   World: the cluster, which only the clients know, and the events recorded so far. A call takes a
--     world to a result and a world, so that what was done before an error stays done.
--   Recorder: pkg/record/recorder.go.
--     World/Along, Keeps and Succeeds carry relations, predicates and success through calls.
--   Stores: pkg/stores. Stores/Retry is withRetry, Stores/Sync the two HasSynced, and
--     Stores/Informers the order in which NewStore starts its informers and asks for them.
--     Stores/Live says what an API server promises whose caches are in step and in which nobody else
--     deletes, Stores/Up what one promises that accepts the objects made for one game server.
--   K8sutil, Manager, Runtime: pkg/k8sutil, pkg/manager and internal/runtime.
--   Options/*: pkg/reconcilers/*_options.go and the three functions that make an object.
--     Options/Custom is the loop over the annotations that six of the options share.
--   Reconcilers/*: the reconcilers. Reconcilers/Push is what the three reconcileNotFound share; the
--     modules Built describe the objects field by field, the modules Ready say when they can be
--     made, and the modules Events which events are recorded. Reconcilers/Route puts the two kinds of
--     routes side by side.
--   Handlers: pkg/handlers/gameserver_handler.go, with the properties of a pass in its children;
--     Handlers/Spec is a machine of three phases to hold a pass against.
--   Controller: the event filter and the event functions of
--     pkg/controller/gameserver_controller.go. Controller/Life is Start with its
--     goroutine, step by step, up to the end of the process.
--   App: pkg/app/controller.go. App/Connect is the first part of StartController, App/Start the rest.
--   Cmd: cmd/root.go. Cmd/Served is about the whole program.
--   Tests/*: a concrete platform and cluster, runs of the model, and each theorem at an example.
--
-- Maps are association lists in the order in which Go happens to visit the keys, and the theorems
-- are about every such list. A pointer that may be nil is an Option, and a call through nil is the
-- result `panic`. Ports are only passed on, so an int32 stands for its bit pattern. No definition
-- has fuel: loops over maps, lists and texts are structural, and the loop of withRetry is by the
-- number of attempts that are left. The retry on a conflict is a call of client-go, so it is a
-- parameter with its documented behaviour: the outcome is that of the last attempt, and only a
-- conflict is tried again.
--
-- The events of the watch are handled one after the other, and a pass is one step of the process: what
-- others do to the cluster comes between two events.
--
-- Not modelled: log lines, the libraries behind the command line (cobra, viper), what the builder
-- and the manager of controller-runtime do inside, the build data (internal/version) and the example
-- game server. In NewStore the race is modelled for the factory of the Services and the
-- Ingresses; that of the HTTPRoutes has the same order.
pub mod Base
pub mod Gameserver
pub mod Objects
pub mod Platform
pub mod World
pub mod Recorder
pub mod Stores
pub mod K8sutil
pub mod Manager
pub mod Runtime
pub mod Options
pub mod Reconcilers
pub mod Handlers
pub mod Controller
pub mod App
pub mod Cmd
mod Tests
