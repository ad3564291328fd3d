-- ===== src/Handlers/Trail/Updates.antt =====
-- Where a try of the update of a game server leads, from where the API server's update does.
use gameserver_ingress_contr.Base.{String, ◌≡◌, ap, sym, ◌∙◌, Option, some, Option-cases, inl, inr}
use gameserver_ingress_contr.Base.Dict.{Dict}
use gameserver_ingress_contr.Base.Result.{ok, IsOk-of_eq}
use gameserver_ingress_contr.Gameserver.{GameServer}
use gameserver_ingress_contr.Handlers.{game_server_store_of}
use gameserver_ingress_contr.Platform.{Libs}
use gameserver_ingress_contr.Reconcilers.GameServer.{
  update_ready, mark_ready, wrapping, wrapping-inv,
}
use gameserver_ingress_contr.Reconcilers.GameServer.Marked.{marked, mark_ready_inv}
use gameserver_ingress_contr.Stores.{get_game_server, update_game_server, wrapped_inv}
use gameserver_ingress_contr.World.{World, GameServerClient}
use gameserver_ingress_contr.World.Along.{Along, IsTrail, along_then}

module _ {E S : Type 0} (libs : Libs E) (agones : Option (GameServerClient E S))
    (gs : GameServer) where
  module _ (R : World S → World S → Type 0) (trail : IsTrail R) where
    reads :
        (text : String) (w : World S)
        → R w (wrapping libs text (get_game_server {S = S} libs agones gs.name gs.namespace) w).1
    unfolding wrapping get_game_server
    reads text w = elim (Option-cases agones) [
      | inl e ↦ rw e (trail.stay w)
      | inr (client, e) ↦ rw e (trail.stay w)
    ]

    marks : (g : GameServer) (w : World S) → R w (mark_ready {E = E} g w).1
    unfolding mark_ready
    marks g w = elim (Option-cases g.annotations) [
      | inl e ↦ rw e (trail.stay w)
      | inr (d, e) ↦ rw e (trail.stay w)
    ]

  get_game_server_inv :
      {cached : GameServer} (w : World S) {w' : World S}
      → get_game_server libs agones gs.name gs.namespace w ≡ (ok cached, w')
      → (client : GameServerClient E S) × (agones ≡ some client)
        × (client.get gs.namespace gs.name w.cluster ≡ ok cached)
        × (w' ≡ w)
  unfolding get_game_server
  get_game_server_inv w h = elim (Option-cases agones) [
    | inl e ↦ absurd (IsOk-of_eq (ap (λ x. x.0) (rw e at h)))
    | inr (client, e) ↦
        let q = rw e at h in
        (
          client,
          e,
          wrapped_inv libs _ (client.get gs.namespace gs.name w.cluster) (ap (λ x. x.0) q),
          sym (ap (λ x. x.1) q),
        )
  ]

  accepted :
      (R : World S → World S → Type 0) (client : GameServerClient E S) (copy cached : GameServer)
      (d : Dict String) (text : String) (w v : World S)
      → agones ≡ some client
      → copy ≡ marked cached d
      → v ≡ w
      → R w (record w { cluster = (client.update cached.namespace (marked cached d) w.cluster).1 })
      → R v (wrapping libs text (update_game_server libs agones copy) v).1
  unfolding wrapping update_game_server
  accepted R client copy cached d text w v e made same r = rw (same, e, made) r

  -- A try of the update changes nothing, or is an update of what the cache has.
  pub Along-update_ready :
      (R : World S → World S → Type 0)
      → IsTrail R
      → ((client : GameServerClient E S) (cached : GameServer) (d : Dict String) (w : World S)
          → agones ≡ some client
          → client.get gs.namespace gs.name w.cluster ≡ ok cached
          → cached.annotations ≡ some d
          → R w (record w {
            cluster = (client.update cached.namespace (marked cached d) w.cluster).1;
          }))
      → Along R (update_ready libs (game_server_store_of libs agones) gs)
  unfolding update_ready
  Along-update_ready R trail updated w =
      along_then R trail _ _ w (reads R trail _ w) λ g w1 read_back.
        let (client, e, got, same) = get_game_server_inv w (wrapping-inv libs _ _ read_back) in
        along_then R trail (mark_ready g) _ w1 (marks R trail g w1) λ copy w2 marking.
          let (d, given, made, stays) = mark_ready_inv g w1 marking in
          accepted R client copy g d _ w w2 e made (stays ∙ same) (updated client g d w e got given)
