-- ===== src/Tests/Up.antt =====
-- The test cluster answers while it lists the game server, with annotations, and while the conflicts
-- that it has in store are fewer than the attempts of the retry.
use mathlib.Core.Path.{subst}
use text.Mathlib.Text.{◌==◌}
use text.Mathlib.TextEquality.{eq_iff}
use gameserver_ingress_contr.Base.{
  ℕ, zero, suc, String, ◌≡◌, refl, ap, true, ◌&&◌, Option, none, some, is_some, List, [], ◌∷◌,
  Bool-cases, inl, inr, arith,
}
use gameserver_ingress_contr.Base.Dict.{Dict}
use gameserver_ingress_contr.Base.Result.{Result, ok, err, panic, IsOk}
use gameserver_ingress_contr.Gameserver.{GameServer, get_router_backend, router_backend_gateway}
use gameserver_ingress_contr.Handlers.{game_server_store_of}
use gameserver_ingress_contr.Handlers.Succeeds.{ConflictsEnd, update_ready-known}
use gameserver_ingress_contr.Objects.{HttpRoute}
use gameserver_ingress_contr.Options.Gateway.{new_http_route}
use gameserver_ingress_contr.Reconcilers.GameServer.{update_ready, wrapping}
use gameserver_ingress_contr.Reconcilers.GameServer.Marked.{marked}
use gameserver_ingress_contr.Reconcilers.Gateway.{http_route_options}
use gameserver_ingress_contr.Stores.{update_game_server}
use gameserver_ingress_contr.Stores.Up.{ClientIsUp, IsUp}
use gameserver_ingress_contr.Tests.Live.{store, some_same}
use gameserver_ingress_contr.Tests.Platform.{
  TestError, Cluster, libs, answer, written, one_less, try_again, try_next, retry_on_conflict, find,
  put, add, replaced, http_routes, game_servers, domain_server,
}
use gameserver_ingress_contr.World.{World, Call}
use gameserver_ingress_contr.World.Succeeds.{Expected}

abbrev IsAnnotated : Result TestError GameServer → Type 0
IsAnnotated (ok g) = is_some g.annotations ≡ true
IsAnnotated (err _) = ⊥
IsAnnotated panic = ⊥

abbrev found : String → String → List GameServer → Result TestError GameServer
found = find (λ s. s.name) (λ s. s.namespace)

abbrev AtMost : ℕ → ℕ → Type 0
AtMost _ zero = Unit
AtMost zero (suc _) = ⊥
AtMost (suc n) (suc m) = AtMost n m

one_less-AtMost : (n m : ℕ) → AtMost n m → AtMost n (one_less m)
one_less-AtMost n zero h = tt
one_less-AtMost (suc n) (suc zero) h = tt
one_less-AtMost (suc zero) (suc (suc m)) h = absurd h
one_less-AtMost (suc (suc n)) (suc (suc m)) h = one_less-AtMost (suc n) (suc m) h
one_less-AtMost zero (suc m) h = absurd h

abbrev pub IsListed : Cluster → Type 0
IsListed c =
    IsAnnotated (found domain_server.namespace domain_server.name c.game_servers)
    × AtMost 4 c.conflicts

-- An update of a game server with annotations leaves those that were found to be found.
replaced_listed :
    (ns name : String) (a : GameServer) (xs : List GameServer)
    → is_some a.annotations ≡ true
    → IsAnnotated (found ns name xs)
    → IsAnnotated (found ns name (replaced a xs))
replaced_listed ns name a [] given h = absurd h
replaced_listed ns name a (x ∷ xs) given h =
    let rest = replaced_listed ns name a xs given in
    elim (Bool-cases (x.name == a.name && x.namespace == a.namespace)) [
      | inr other ↦ elim (Bool-cases (x.name == name && x.namespace == ns)) [
        | inl here ↦ rw (other, here) (rw here at h)
        | inr there ↦ rw (other, there) (rest (rw there at h))
      ]
      | inl same ↦
          let q : (x.name == name && x.namespace == ns) ≡ (a.name == name && a.namespace == ns) =
            ground (
              arith,
              eq_iff x.name a.name,
              eq_iff x.namespace a.namespace,
              eq_iff x.name name,
              eq_iff a.name name,
              eq_iff x.namespace ns,
              eq_iff a.namespace ns,
            ) in
          elim (Bool-cases (a.name == name && a.namespace == ns)) [
            | inl here ↦ rw (same, here) given
            | inr there ↦ rw (same, there) (rest (rw (q, there) at h))
          ]
    ]

written_listed :
    (n : ℕ) (a : GameServer) (xs : List GameServer)
    → is_some a.annotations ≡ true
    → IsAnnotated (found domain_server.namespace domain_server.name xs)
    → IsAnnotated (found domain_server.namespace domain_server.name (written n a xs))
written_listed zero a xs given h =
    replaced_listed domain_server.namespace domain_server.name a xs given h
written_listed (suc n) a xs given h = h

answer_conflicts : (n : ℕ) (a : GameServer) → Expected libs.is_conflict (answer n a)
answer_conflicts zero a = tt
answer_conflicts (suc n) a = refl

module _ {A : Type 0} (name_of namespace_of : A → String) where
  find_answers :
      (ns name : String) (xs : List A)
      → Expected libs.is_not_found (find name_of namespace_of ns name xs)
  find_answers ns name [] = refl
  find_answers ns name (x ∷ xs) = elim (Bool-cases (name_of x == name && namespace_of x == ns)) [
    | inl e ↦ rw e tt
    | inr e ↦ rw e (find_answers ns name xs)
  ]

  add_answers :
      (x : A) (xs : List A) → Expected libs.is_already_exists (add name_of namespace_of x xs).0
  add_answers x xs = go (find name_of namespace_of (namespace_of x) (name_of x) xs)
    where
      go :
          (r : Result TestError A)
          → Expected libs.is_already_exists (put name_of namespace_of x xs r).0
      go (ok b) = refl
      go (err b) = tt
      go panic = tt

annotated_known :
    (r : Result TestError GameServer)
    → IsAnnotated r
    → (g : GameServer) × (d : Dict String) × (r ≡ ok g) × (g.annotations ≡ some d)
annotated_known (ok g) h = go g.annotations refl h
  where
    go :
        (o : Option (Dict String))
        → g.annotations ≡ o
        → is_some o ≡ true
        → (g' : GameServer) × (d : Dict String) × Path (Result TestError GameServer) (ok g) (ok g')
          × (g'.annotations ≡ some d)
    go none e i = absurd cc
    go (some d) e i = (g, d, refl, e)
annotated_known (err x) h = absurd h
annotated_known panic h = absurd h

abbrev IsRouteMade : HttpRoute → Type 0
IsRouteMade a =
    ((get_router_backend domain_server == router_backend_gateway) ≡ true)
    × (new_http_route libs (some domain_server) (http_route_options libs domain_server) ≡ ok a)

http_routes-ClientIsUp : ClientIsUp libs IsListed IsRouteMade http_routes
http_routes-ClientIsUp = record {
  answers = record {
    gets = λ ns name s _. find_answers (λ x. x.name) (λ x. x.namespace) ns name s.http_routes;
    creates = λ ns a s _ _. add_answers (λ x. x.name) (λ x. x.namespace) a s.http_routes;
  };
  keeps = λ ns a s h. h;
}

pub is_up : IsUp libs IsListed store game_servers domain_server
is_up = record {
  services = record {
    answers = record {
      gets = λ ns name s _. find_answers (λ x. x.name) (λ x. x.namespace) ns name s.services;
      creates = λ ns a s _ _. add_answers (λ x. x.name) (λ x. x.namespace) a s.services;
    };
    keeps = λ ns a s h. h;
  };
  ingresses = record {
    answers = record {
      gets = λ ns name s _. find_answers (λ x. x.name) (λ x. x.namespace) ns name s.ingresses;
      creates = λ ns a s _ _. add_answers (λ x. x.name) (λ x. x.namespace) a s.ingresses;
    };
    keeps = λ ns a s h. h;
  };
  routes =
      λ client e. subst (ClientIsUp libs IsListed IsRouteMade) (some_same e) http_routes-ClientIsUp;
  known = λ s h. annotated_known _ h.0;
  marks = λ cached d s _ _ _. answer_conflicts s.conflicts (marked cached d);
  updates_keep = λ ns a d s given (listed, few). (
    written_listed s.conflicts a s.game_servers (ap is_some given) listed,
    one_less-AtMost 4 s.conflicts few,
  );
}

abbrev update : Call TestError Cluster GameServer
update = update_ready libs (game_server_store_of libs (some game_servers)) domain_server

-- A try with conflicts in store takes one of them away, and one without is not a conflict.
abbrev Tried : ℕ → Result TestError GameServer × World Cluster → Type 0
Tried zero x = IsOk x.0
Tried (suc n) x =
    (e : TestError) × (w : World Cluster) × (x ≡ (err e, w))
    × (libs.is_conflict e ≡ true)
    × IsAnnotated (found domain_server.namespace domain_server.name w.cluster.game_servers)
    × (w.cluster.conflicts ≡ n)

update-Tried :
    (w : World Cluster)
    → IsAnnotated (found domain_server.namespace domain_server.name w.cluster.game_servers)
    → (n : ℕ) → w.cluster.conflicts ≡ n
    → Tried n (update w)
unfolding wrapping update_game_server
update-Tried w h zero e =
    let (g, d, there, given) = annotated_known _ h in
    rw (update_ready-known libs game_servers domain_server g d w there given, e) tt
update-Tried w h (suc n) e =
    let (g, d, there, given) = annotated_known _ h in
    rw (update_ready-known libs game_servers domain_server g d w there given, e)
      (_, _, refl, refl, h, refl)

try_again-settled :
    (attempts n : ℕ) (w : World Cluster)
    → IsAnnotated (found domain_server.namespace domain_server.name w.cluster.game_servers)
    → w.cluster.conflicts ≡ n
    → AtMost attempts n
    → IsOk (try_again attempts update w).0
try_again-settled zero zero w h c few = update-Tried w h zero c
try_again-settled zero (suc n) w h c few = absurd few
try_again-settled (suc k) zero w h c few = go (update w) (update-Tried w h zero c)
  where
    go :
        (x : Result TestError GameServer × World Cluster)
        → IsOk x.0
        → IsOk (try_next (try_again k update) x).0
    go (ok g, v) i = tt
    go (err _, v) i = absurd i
    go (panic, v) i = absurd i
try_again-settled (suc k) (suc n) w h c few =
    let (e, v, q, conflict, listed, left) = update-Tried w h (suc n) c in
    rw (q, conflict) (try_again-settled k n v listed left few)

pub settled : ConflictsEnd libs IsListed game_servers retry_on_conflict domain_server
settled w (listed, few) e failed =
    absurd (rw failed at (try_again-settled 4 w.cluster.conflicts w listed refl few))
