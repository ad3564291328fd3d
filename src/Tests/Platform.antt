-- ===== src/Tests/Platform.antt =====
-- A concrete platform: errors with a reason, a cluster of lists, and a retry with five attempts.
use text.Mathlib.Text.{◌==◌}
use gameserver_ingress_contr.Base.{
  ℕ, zero, suc, String, ◌<>◌, refl, Bool, true, false, ◌&&◌, Option, none, some, List, [], ◌∷◌,
  ◌++◌, if◌then◌else◌,
}
use gameserver_ingress_contr.Base.Result.{Result, ok, err, panic}
use gameserver_ingress_contr.Gameserver.{GameServer, ready}
use gameserver_ingress_contr.Objects.{OwnerReference, Service, Ingress, HttpRoute}
use gameserver_ingress_contr.Platform.{Libs, IsLawful, TemplateData}
use gameserver_ingress_contr.World.{World, Call, Client, GameServerClient}

pub data Reason : Type 0 where
  not_found already_exists conflict server_error : Reason

pub data TestError : Type 0 where
  plain : String → TestError
  wrapped_error : TestError → String → TestError
  api : Reason → TestError

abbrev has_reason : (Reason → Bool) → TestError → Bool
has_reason p (plain _) = false
has_reason p (wrapped_error e _) = has_reason p e
has_reason p (api r) = p r

abbrev text_of : TestError → String
text_of (plain m) = m
text_of (wrapped_error e m) = m <> ": " <> text_of e
text_of (api _) = "api error"

abbrev is_not_found_reason : Reason → Bool
is_not_found_reason not_found = true
is_not_found_reason _ = false

abbrev is_already_exists_reason : Reason → Bool
is_already_exists_reason already_exists = true
is_already_exists_reason _ = false

abbrev is_conflict_reason : Reason → Bool
is_conflict_reason conflict = true
is_conflict_reason _ = false

-- A template engine that knows one template, and refuses one.
abbrev test_render : String → TemplateData → Option String
test_render text fields =
    if text == "/{{ .Name }}"
    then some ("/" <> fields.name)
    else if text == "{{ .Name"
    then none
    else some ""

abbrev test_owner : GameServer → String → OwnerReference
test_owner gs kind = record {
  api_version = "agones.dev/v1";
  kind = kind;
  name = gs.name;
  uid = gs.uid;
  controller = true;
  block_owner_deletion = true;
}

abbrev pub libs : Libs TestError
libs = record {
  errorf = plain;
  wrap = wrapped_error;
  message = text_of;
  is_not_found = has_reason is_not_found_reason;
  is_already_exists = has_reason is_already_exists_reason;
  is_conflict = has_reason is_conflict_reason;
  format_int = λ _. "5";
  num_error = λ value. plain ("strconv.ParseBool: parsing " <> value);
  render = test_render;
  new_controller_ref = test_owner;
}

pub libs-IsLawful : IsLawful libs
libs-IsLawful = record {
  wrap_not_found = λ e m. refl;
  wrap_already_exists = λ e m. refl;
  wrap_conflict = λ e m. refl;
  errorf_conflict = λ m. refl;
}

-- The objects of the cluster, and how many of the next updates conflict with another one; the caches
-- are in step with it.
pub record Cluster : Type 0 where
  pub services : List Service
  pub ingresses : List Ingress
  pub http_routes : List HttpRoute
  pub game_servers : List GameServer
  pub conflicts : ℕ

module _ {A : Type 0} (name_of namespace_of : A → String) where
  abbrev pub find : String → String → List A → Result TestError A
  find namespace name [] = err (api not_found)
  find namespace name (x ∷ xs) =
      if name_of x == name && namespace_of x == namespace then ok x else find namespace name xs

  abbrev pub put : A → List A → Result TestError A → Result TestError A × List A
  put x xs (ok _) = (err (api already_exists), xs)
  put x xs _ = (ok x, xs ++ (x ∷ []))

  abbrev pub add : A → List A → Result TestError A × List A
  add x xs = put x xs (find (namespace_of x) (name_of x) xs)

abbrev pub services : Client TestError Cluster Service
services = record {
  get = λ namespace name c. find (λ s. s.name) (λ s. s.namespace) namespace name c.services;
  create = λ namespace x c.
      let (r, xs) = add (λ s. s.name) (λ s. s.namespace) x c.services in
      (r, record c { services = xs });
}

abbrev pub ingresses : Client TestError Cluster Ingress
ingresses = record {
  get = λ namespace name c. find (λ s. s.name) (λ s. s.namespace) namespace name c.ingresses;
  create = λ namespace x c.
      let (r, xs) = add (λ s. s.name) (λ s. s.namespace) x c.ingresses in
      (r, record c { ingresses = xs });
}

abbrev pub http_routes : Client TestError Cluster HttpRoute
http_routes = record {
  get = λ namespace name c. find (λ s. s.name) (λ s. s.namespace) namespace name c.http_routes;
  create = λ namespace x c.
      let (r, xs) = add (λ s. s.name) (λ s. s.namespace) x c.http_routes in
      (r, record c { http_routes = xs });
}

abbrev pub replaced : GameServer → List GameServer → List GameServer
replaced gs [] = []
replaced gs (x ∷ xs) =
    (if x.name == gs.name && x.namespace == gs.namespace then gs else x) ∷ replaced gs xs

abbrev pub answer : ℕ → GameServer → Result TestError GameServer
answer zero gs = ok gs
answer (suc _) gs = err (api conflict)

abbrev pub written : ℕ → GameServer → List GameServer → List GameServer
written zero gs xs = replaced gs xs
written (suc _) gs xs = xs

abbrev pub one_less : ℕ → ℕ
one_less zero = zero
one_less (suc n) = n

-- A conflict writes nothing.
abbrev pub game_servers : GameServerClient TestError Cluster
game_servers = record {
  get = λ namespace name c. find (λ s. s.name) (λ s. s.namespace) namespace name c.game_servers;
  update = λ namespace gs c. (
    answer c.conflicts gs,
    record c {
      game_servers = written c.conflicts gs c.game_servers;
      conflicts = one_less c.conflicts;
    },
  );
}

-- Five attempts at most.
abbrev pub try_next :
    Call TestError Cluster GameServer
    → Result TestError GameServer × World Cluster
    → Result TestError GameServer × World Cluster
try_next rest (ok gs, w) = (ok gs, w)
try_next rest (err e, w) = if libs.is_conflict e then rest w else (err e, w)
try_next rest (panic, w) = (panic, w)

abbrev pub try_again : ℕ → Call TestError Cluster GameServer → Call TestError Cluster GameServer
try_again zero f w = f w
try_again (suc n) f w = try_next (try_again n f) (f w)

abbrev pub retry_on_conflict : Call TestError Cluster GameServer → Call TestError Cluster GameServer
retry_on_conflict = try_again 4

-- Game servers.
abbrev pub game_server : List (String × String) → GameServer
game_server annotations = record {
  name = "simple-gameserver";
  namespace = "default";
  uid = "uid-1";
  annotations = some annotations;
  spec_ports = record { container_port = 7654 } ∷ [];
  status = record { state = ready; ports = record { name = "default"; port = 7777 } ∷ [] };
}

abbrev pub domain_server : GameServer
domain_server = game_server (
    ("octops.io/gameserver-ingress-mode", "domain")
    ∷ ("octops.io/gameserver-ingress-domain", "example.com,example.gg")
    ∷ ("octops.io/terminate-tls", "true")
    ∷ ("octops.io/issuer-tls-name", "letsencrypt-prod")
    ∷ ("octops-kubernetes.io/ingress.class", "contour")
    ∷ ("octops-projectcontour.io/websocket-routes", "/{{ .Name }}")
    ∷ ("octops.service-owner", "games")
    ∷ [])

abbrev pub gateway_server : GameServer
gateway_server = game_server (
    ("octops.io/router-backend", "gateway")
    ∷ ("octops.io/gateway-name", "gateway")
    ∷ ("octops.io/gameserver-ingress-mode", "path")
    ∷ ("octops.io/gameserver-ingress-fqdn", "www.example.com, www.example.gg")
    ∷ ("octops.io/terminate-tls", "true")
    ∷ [])
