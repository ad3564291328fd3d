-- ===== src/App.antt =====
-- pkg/app/controller.go: what the flag `--enable-gateway-api` and the API server come to.
pub mod Configured
pub mod Connect
pub mod Made
pub mod Start
pub mod Started
pub mod Unsynced
pub mod Wiring
use text.Mathlib.Text.{◌==◌}
use gameserver_ingress_contr.Base.{
  String, ◌<>◌, Bool, true, false, Option, none, some, List, [], ◌∷◌, if◌then◌else◌,
}
use gameserver_ingress_contr.Base.Result.{Result, ok, err, panic, ◌>>=◌}
use gameserver_ingress_contr.Handlers.{Handler, new_handler}
use gameserver_ingress_contr.Objects.{Service, Ingress, HttpRoute}
use gameserver_ingress_contr.Platform.{Libs}
use gameserver_ingress_contr.Stores.{Store, wrapped}
use gameserver_ingress_contr.World.{Client, GameServerClient}

-- The search for `httproutes` in what the discovery client lists for
-- gateway.networking.k8s.io/v1, by resource name.
abbrev listed : String → List String → Bool
listed name [] = false
listed name (r ∷ rs) = if r == name then true else listed name rs

module _ {E : Type 0} (libs : Libs E) where
  unfoldable pub check_gateway_api_crds : Result E (List String) → Result E (Unit {0})
  check_gateway_api_crds resources = resources >>= λ names.
      if listed "httproutes" names
      then ok tt
      else err (libs.errorf "httproutes not found in gateway.networking.k8s.io/v1")

  -- The errors of `auto` are logged and mean "disabled".
  abbrev pub detected : Result E (Unit {0}) → Result E Bool
  detected (ok _) = ok true
  detected (err _) = ok false
  detected panic = panic

  unfoldable pub resolve_gateway_api_enabled : String → Result E (List String) → Result E Bool
  unfolding check_gateway_api_crds
  resolve_gateway_api_enabled mode resources =
      if mode == "false"
      then ok false
      else if mode == "true"
      then (wrapped libs
            "Gateway API CRDs not found (--enable-gateway-api=true requires them to be installed)"
            (check_gateway_api_crds resources)
          >>= λ _. ok true)
      else detected (check_gateway_api_crds resources)
