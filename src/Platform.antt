-- ===== src/Platform.antt =====
-- What the controller calls in other packages, as parameters: error values (github.com/pkg/errors,
-- k8s.io/apimachinery/pkg/api/errors, strconv), the template engine (text/template) and the owner
-- reference (k8s.io/apimachinery/pkg/apis/meta/v1). Formatting by `%s` is concatenation.
use gameserver_ingress_contr.Base.{ℕ, String, ◌<>◌, Bool, false, ◌≡◌, Option}
use gameserver_ingress_contr.Gameserver.{GameServer}
use gameserver_ingress_contr.Objects.{OwnerReference}

-- The struct that the templates read.
pub record TemplateData : Type 0 where
  pub name : String
  pub port : ℕ

pub record Libs (E : Type 0) : Type 0 where
  -- `errors.New` and `errors.Errorf`, of the formatted message
  pub errorf : String → E
  -- `errors.Wrap` and `errors.Wrapf`
  pub wrap : E → String → E
  -- `err.Error()`
  pub message : E → String
  pub is_not_found : E → Bool
  pub is_already_exists : E → Bool
  pub is_conflict : E → Bool
  -- `fmt.Sprintf("%d", n)`
  pub format_int : ℕ → String
  -- the `*strconv.NumError` of `strconv.ParseBool`
  pub num_error : String → E
  -- `template.New("gs").Parse(text)`: `none` if it fails; otherwise what `Execute` has written when
  -- it returns, with an error or without
  pub render : String → TemplateData → Option String
  -- `metav1.NewControllerRef(gs, agonesv1.SchemeGroupVersion.WithKind(kind))`
  pub new_controller_ref : GameServer → String → OwnerReference

-- The reasons of the API's errors are found through wrapped errors, and an error that the program
-- makes up has none of them.
pub record IsLawful {E : Type 0} (libs : Libs E) : Type 0 where
  pub wrap_not_found :
      (e : E) (m : String) → libs.is_not_found (libs.wrap e m) ≡ libs.is_not_found e
  pub wrap_already_exists :
      (e : E) (m : String) → libs.is_already_exists (libs.wrap e m) ≡ libs.is_already_exists e
  pub wrap_conflict : (e : E) (m : String) → libs.is_conflict (libs.wrap e m) ≡ libs.is_conflict e
  pub errorf_conflict : (m : String) → libs.is_conflict (libs.errorf m) ≡ false

-- The message formats `ErrGameServerAnnotationMissing`, `ErrGameServerAnnotationEmpty` and
-- `ErrIngressRoutingModeEmpty`.
abbrev pub annotation_missing : String → String → String → String
annotation_missing namespace name annotation =
    "gameserver " <> namespace <> "/" <> name <> " is missing annotation " <> annotation

abbrev pub annotation_empty : String → String → String → String
annotation_empty namespace name annotation =
    "gameserver " <> namespace <> "/" <> name <> " has annotation " <> annotation
    <> " but it is empty"

abbrev pub routing_mode_empty : String → String → String → String → String
routing_mode_empty mode annotation namespace name =
    "ingress routing mode " <> mode <> " requires the annotation " <> annotation
    <> " to be set on gameserver " <> namespace <> "/" <> name
