-- ===== src/Reconcilers.antt =====
-- pkg/reconcilers: a reconciler for each object that a game server needs, and for the mark that it
-- sets on the game server itself.
pub mod Service
pub mod Ingress
pub mod Gateway
pub mod GameServer
pub mod Push
pub mod Route
