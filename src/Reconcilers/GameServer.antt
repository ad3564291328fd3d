-- ===== src/Reconcilers/GameServer.antt =====
-- pkg/reconcilers/gameserver_reconciler.go: the mark on a game server whose ingress is ready.
pub mod Marked
use gameserver_ingress_contr.Base.{
  ap, ◌≡◌, refl, String, ◌<>◌, Bool, true, false, not, none, some, if◌then◌else◌,
}
use gameserver_ingress_contr.Base.Dict.{insert}
use gameserver_ingress_contr.Base.Action.{Action, ◌>>=◌, >>=-ok, ◌>>◌, pure, crash, lift}
use gameserver_ingress_contr.Base.Result.{Result, ok, err, panic, IsOk-of_eq}
use gameserver_ingress_contr.Base.Text.{is_empty, parse_bool}
use gameserver_ingress_contr.Gameserver.{
  GameServer, has_annotation, read, octops_annotation_game_server_ingress_ready,
  octops_annotation_ingress_class_name, octops_annotation_ingress_class_name_legacy,
}
use gameserver_ingress_contr.Platform.{Libs}
use gameserver_ingress_contr.Recorder.{namespaced, record_event}
use gameserver_ingress_contr.Stores.{wrapped}
use gameserver_ingress_contr.World.{World, Call}

-- The interface `GameServerStore`.
pub record GameServerStore (E S : Type 0) : Type 0 where
  pub update_game_server : GameServer → Call E S GameServer
  pub get_game_server : String → String → Call E S GameServer

-- `deepCopy.Annotations[…] = "true"`: a write to a nil map is a panic.
unfoldable pub mark_ready : {E S : Type 0} → GameServer → Call E S GameServer
mark_ready g = elim g.annotations [
  | none ↦ crash
  | some d ↦ pure (record g {
    annotations = some (insert octops_annotation_game_server_ingress_ready "true" d);
  })
]

-- A call whose error is wrapped by `errors.Wrapf`.
unfoldable pub wrapping : {E W A : Type 0} → Libs E → String → Action E W A → Action E W A
wrapping libs text call w = let (r, w') = call w in (wrapped libs text r, w')

pub wrapping-ok :
    {E W A : Type 0} (libs : Libs E) (text : String) (call : Action E W A) {w w' : W} {a : A}
    → call w ≡ (ok a, w')
    → wrapping libs text call w ≡ (ok a, w')
unfolding wrapping
wrapping-ok libs text call {w} e = ap (λ x. wrapping libs text (λ _. x) w) e

-- A wrapped call returns a value only if the call does.
pub wrapping-inv :
    {E W A : Type 0} (libs : Libs E) (text : String) (call : Action E W A) {w w' : W} {a : A}
    → wrapping libs text call w ≡ (ok a, w')
    → call w ≡ (ok a, w')
unfolding wrapping
wrapping-inv {E} {W} {A} libs text call {w} {w'} {a} e = go (call w) e
  where
    go : (x : Result E A × W) → wrapping libs text (λ _. x) w ≡ (ok a, w') → x ≡ (ok a, w')
    go (ok b, v) e = e
    go (err _, v) e = absurd (IsOk-of_eq (ap (λ x. x.0) e))
    go (panic, v) e = absurd (IsOk-of_eq (ap (λ x. x.0) e))

abbrev deprecated_text : String
deprecated_text =
    "Annotation " <> octops_annotation_ingress_class_name_legacy <> " deprecated in favor of "
    <> octops_annotation_ingress_class_name <> ", future versions won't support this annotation"

abbrev pub record_deprecated_annotations : {E S : Type 0} → GameServer → Call E S (Unit {0})
record_deprecated_annotations gs =
    elim (read octops_annotation_ingress_class_name_legacy gs.annotations) [
      | none ↦ pure tt
      | some _ ↦ record_event gs deprecated_text
    ]

-- `MustReconcile`. The pair (true, err) is the error alone, for the caller drops the Boolean.
unfoldable pub must_reconcile_mark : {E : Type 0} → Libs E → GameServer → Result E Bool
must_reconcile_mark libs gs = elim (has_annotation gs octops_annotation_game_server_ingress_ready) [
  | none ↦ ok true
  | some value ↦ if is_empty value then ok true else elim (parse_bool value) [
    | none ↦ err (libs.num_error value)
    | some is_ready ↦ ok (not is_ready)
  ]
]

module _ {E S : Type 0} (libs : Libs E) (store : GameServerStore E S) where
  -- The function that is tried again on a conflict.
  unfoldable pub update_ready : GameServer → Call E S GameServer
  update_ready gs = do
    g ←
        wrapping libs ("failed to retrieve gameserver " <> namespaced gs.namespace gs.name)
          (store.get_game_server gs.name gs.namespace)
    copy ← mark_ready g
    wrapping libs ("failed to update gameserver " <> namespaced copy.namespace copy.name)
        (store.update_game_server copy)

  module _ (retry_on_conflict : Call E S GameServer → Call E S GameServer) where
    unfoldable pub reconcile_mark : GameServer → Call E S GameServer
    reconcile_mark gs = do
      result ← retry_on_conflict (update_ready gs)
      record_event result
          ("GameServer annotated with " <> octops_annotation_game_server_ingress_ready)
      record_deprecated_annotations result
      pure result

    unfoldable pub reconcile : GameServer → Call E S GameServer
    reconcile gs = do
      must ←
          wrapping libs ("failed to reconcile gameserver " <> namespaced gs.namespace gs.name)
            (lift (must_reconcile_mark libs gs))
      if must then reconcile_mark gs else pure gs

    -- A game server that has the mark is left alone.
    pub reconcile_marked :
        (gs : GameServer) (w : World S)
        → must_reconcile_mark libs gs ≡ ok false
        → reconcile gs w ≡ (ok gs, w)
    unfolding reconcile
    reconcile_marked gs w e =
        >>=-ok (wrapping libs _ (lift (must_reconcile_mark libs gs))) _
          (wrapping-ok libs _ (lift (must_reconcile_mark libs gs)) (ap (λ r. (r, w)) e))

-- A game server with the mark needs no other.
pub must_reconcile_mark-marked :
    {E : Type 0} (libs : Libs E) (gs : GameServer)
    → has_annotation gs octops_annotation_game_server_ingress_ready ≡ some "true"
    → must_reconcile_mark libs gs ≡ ok false
unfolding must_reconcile_mark parse_bool
must_reconcile_mark-marked libs gs e = rw (must_reconcile_mark, e) refl
