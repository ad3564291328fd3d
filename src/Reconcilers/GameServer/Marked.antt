-- ===== src/Reconcilers/GameServer/Marked.antt =====
-- What a game server is updated to when the mark is set.
use gameserver_ingress_contr.Base.{
  String, ◌≡◌, refl, ap, sym, ◌∙◌, true, false, some, Option-cases, inl, inr,
}
use gameserver_ingress_contr.Base.Action.{Action, >>=-inv, >>=-ok, lift}
use text.Mathlib.Text.{◌==◌}
use gameserver_ingress_contr.Base.Dict.{Dict, insert, lookup-insert}
use gameserver_ingress_contr.Base.Result.{Result, ok, IsOk-of_eq, ok_inj}
use gameserver_ingress_contr.Gameserver.{
  GameServer, has_annotation, octops_annotation_game_server_ingress_ready,
}
use gameserver_ingress_contr.Platform.{Libs}
use gameserver_ingress_contr.Reconcilers.GameServer.{
  must_reconcile_mark-marked, GameServerStore, mark_ready, update_ready, reconcile_mark, reconcile,
  must_reconcile_mark, wrapping, wrapping-ok, wrapping-inv, record_deprecated_annotations,
}
use gameserver_ingress_contr.World.{World, Call, Attempted, ended, again}

-- The last attempt of a row that returns a value.
Attempted-last :
    {E W A : Type 0} {libs : Libs E} {f : Action E W A} {w : W} {x : Result E A × W}
    → Attempted libs f w x
    → (v : W) × (f v ≡ x)
Attempted-last {w = w} (ended e) = (w, e)
Attempted-last (again e c rest) = Attempted-last rest

abbrev pub marked : GameServer → Dict String → GameServer
marked g d = record g {
  annotations = some (insert octops_annotation_game_server_ingress_ready "true" d);
}

pub mark_ready_inv :
    {E S : Type 0} (g : GameServer) {copy : GameServer} (v : World S) {v' : World S}
    → mark_ready {E = E} g v ≡ (ok copy, v')
    → (d : Dict String) × (g.annotations ≡ some d) × (copy ≡ marked g d) × (v' ≡ v)
unfolding mark_ready
mark_ready_inv {E} {S} g {copy} v {v'} e = elim (Option-cases g.annotations) [
  | inl m ↦ absurd (IsOk-of_eq (ap (λ x. x.0) (rw m at e)))
  | inr (d, m) ↦ let q = rw m at e in (d, m, ok_inj (ap (λ x. x.0) (sym q)), ap (λ x. x.1) (sym q))
]

module _ {E S : Type 0} (libs : Libs E) (store : GameServerStore E S) where
  -- The update of a game server that the store returned, with the mark and nothing else changed,
  -- was accepted with this result.
  pub record IsMarked (gs result : GameServer) : Type 0 where
    pub before : World S
    pub between : World S
    pub after : World S
    pub cached : GameServer
    pub cached_annotations : Dict String
    pub read_back : store.get_game_server gs.name gs.namespace before ≡ (ok cached, between)
    pub annotated : cached.annotations ≡ some cached_annotations
    pub accepted :
        store.update_game_server (marked cached cached_annotations) between ≡ (ok result, after)

  updated_inv :
      (gs : GameServer) {result : GameServer} (v : World S) {v' : World S}
      → update_ready libs store gs v ≡ (ok result, v')
      → IsMarked gs result
  unfolding update_ready
  updated_inv gs {result} v {v'} e =
      let (g, v1, got, e1) = >>=-inv _ _ e in
      let (copy, v2, marking, e2) = >>=-inv (mark_ready g) _ e1 in
      let (d, given, same, stays) = mark_ready_inv g v1 marking in
      record {
        before = v;
        between = v1;
        after = v';
        cached = g;
        cached_annotations = d;
        read_back = wrapping-inv libs _ _ got;
        annotated = given;
        accepted = rw (same, stays) at (wrapping-inv libs _ _ e2);
      }

  -- If the step for a game server without the mark succeeds, and the updates that meet a conflict
  -- are tried again, then the API server has accepted an update of the game server as the cache has
  -- it, with the annotation `octops.io/ingress-ready` set to "true" and nothing else changed, and
  -- its answer is the result of the step.
  pub reconcile-IsMarked :
      (retry_on_conflict : Call E S GameServer → Call E S GameServer)
      → ((f : Call E S GameServer) (w : World S) → Attempted libs f w (retry_on_conflict f w))
      → (gs : GameServer) {result : GameServer} (w : World S) {w' : World S}
      → must_reconcile_mark libs gs ≡ ok true
      → reconcile libs store retry_on_conflict gs w ≡ (ok result, w')
      → IsMarked gs result
  unfolding reconcile reconcile_mark
  reconcile-IsMarked retry attempted gs {result} w {w'} must e =
      let e0 =
        sym (
          >>=-ok (wrapping libs _ (lift (must_reconcile_mark libs gs))) _
            (wrapping-ok libs _ (lift (must_reconcile_mark libs gs)) (ap (λ r. (r, w)) must)))
        ∙ e in
      let (updated, w1, tried, e1) = >>=-inv (retry (update_ready libs store gs)) _ e0 in
      let (_, w2, _, e2) = >>=-inv _ _ e1 in
      let (_, w3, _, e3) = >>=-inv (record_deprecated_annotations updated) _ e2 in
      let same : updated ≡ result = ok_inj (ap (λ x. x.0) e3) in
      let (v, last) = Attempted-last (attempted (update_ready libs store gs) w) in
      rw same at (updated_inv gs v (last ∙ tried))

-- What the mark writes is what `MustReconcile` reads: a game server that has just been marked needs
-- no other mark, and none of its other annotations has changed.
pub mark_ready-must_reconcile_mark :
    {E S : Type 0} (libs : Libs E) (g : GameServer) {copy : GameServer} (w : World S) {w' : World S}
    → mark_ready {E = E} g w ≡ (ok copy, w')
    → (must_reconcile_mark libs copy ≡ ok false)
      × ((k : String)
          → (octops_annotation_game_server_ingress_ready == k) ≡ false
          → has_annotation copy k ≡ has_annotation g k)
unfolding has_annotation
mark_ready-must_reconcile_mark libs g {copy} w marking =
    let (d, given, same, _) = mark_ready_inv g w marking in
    (
      must_reconcile_mark-marked libs copy (rw (same, lookup-insert) refl),
      λ k other. rw (same, given, lookup-insert, other) refl,
    )
