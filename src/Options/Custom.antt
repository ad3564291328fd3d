-- ===== src/Options/Custom.antt =====
-- The loops over `gs.Annotations` of the six `With…Annotations` and `With…AnnotationsTemplate`
-- options. They have one body, but for the prefix, the message and the value that is written.
pub mod Laws
pub mod Success
pub mod Fine
pub mod Order
pub mod Twice
use gameserver_ingress_contr.Base.{
  String, ◌<>◌, Bool, true, false, not, ◌||◌, Option, none, some, List, [], ◌∷◌, if◌then◌else◌,
}
use gameserver_ingress_contr.Base.Dict.{Dict, insert}
use gameserver_ingress_contr.Base.Result.{Result, ok, err, panic, ◌>>=◌, range}
use gameserver_ingress_contr.Base.Text.{is_empty, has_prefix, strip_prefix, trim_prefix, contains}
use gameserver_ingress_contr.Gameserver.{GameServer, get_game_server_port}
use gameserver_ingress_contr.Platform.{Libs, TemplateData}

-- The entries that `range gs.Annotations` visits. Go may visit them in any order: the theorems are
-- about every list.
abbrev pub entries : Option (Dict String) → Dict String
entries none = []
entries (some d) = d

-- `annotations[custom] = x`, or nothing where there is no value.
abbrev pub assign : String → Option String → Dict String → Dict String
assign custom none annotations = annotations
assign custom (some x) annotations = insert custom x annotations

module _ {E : Type 0} (libs : Libs E) where
  -- One round of the loop: the prefix, the message for a key that is the prefix alone, and the
  -- value for a custom key.
  unfoldable pub custom_step :
      String
      → (String → String)
      → (String → String → Result E (Option String))
      → String × String
      → Dict String
      → Result E (Dict String)
  custom_step prefix no_suffix value (k, v) annotations =
      if has_prefix k prefix
      then (let custom = trim_prefix k prefix in
          if is_empty custom
          then err (libs.errorf (no_suffix k))
          else (value custom v >>= λ x. ok (assign custom x annotations)))
      else ok annotations

  -- The loop.
  unfoldable pub range_custom :
      String
      → (String → String)
      → (String → String → Result E (Option String))
      → Dict String
      → Dict String
      → Result E (Dict String)
  range_custom prefix no_suffix value = range (custom_step prefix no_suffix value)

  -- `annotations[custom] = v`
  abbrev pub plain_value : String → String → Result E (Option String)
  plain_value custom v = ok (some v)

  -- `data`
  abbrev pub template_data : GameServer → TemplateData
  template_data gs = record { name = gs.name; port = (get_game_server_port gs).port }

  abbrev non_empty : String → Option String
  non_empty parsed = if is_empty parsed then none else some parsed

  -- The value is skipped if it is no template or comes out empty.
  unfoldable pub template_value : TemplateData → String → String → Result E (Option String)
  template_value fields custom v =
      if not (contains v "{{") || not (contains v "}}")
      then ok none
      else elim (libs.render v fields) [
        | none ↦ err (libs.errorf (custom <> ":" <> v <> " does not contain a valid template"))
        | some parsed ↦ ok (non_empty parsed)
      ]
