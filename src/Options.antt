-- ===== src/Options.antt =====
-- pkg/reconcilers/{ingress,service,gateway}_options.go: the option functions that fill a new object
-- from the annotations of a game server. An option returns the filled object; on an error the
-- caller drops the object, so what was written before the error is not kept.
pub mod Custom
pub mod Ingress
pub mod Service
pub mod Gateway
pub mod Annotations
pub mod Ready
pub mod Hosts
pub mod Spaced
