-- ===== src/Tests/Live.antt =====
-- The test cluster as one that nobody deletes from, and its retry.
use mathlib.Core.Path.{subst}
use text.Mathlib.Text.{◌==◌}
use text.Mathlib.TextEquality.{eq_iff}
use gameserver_ingress_contr.Base.{
  ℕ, zero, suc, String, ◌≡◌, refl, true, ◌&&◌, Option, some, List, [], ◌∷◌, ◌++◌, Bool-cases, inl,
  inr, arith,
}
use gameserver_ingress_contr.Base.Result.{Result, ok, err, panic, IsOk}
use gameserver_ingress_contr.Gameserver.{GameServer}
use gameserver_ingress_contr.Objects.{Service, Ingress, HttpRoute}
use gameserver_ingress_contr.Stores.{Store}
use gameserver_ingress_contr.Stores.Live.{IsThere, IsSeen, IsLasting, IsLive}
use gameserver_ingress_contr.Tests.Platform.{
  TestError, Cluster, libs, find, put, add, services, ingresses, http_routes, game_servers,
  retry_on_conflict, try_again, try_next,
}
use gameserver_ingress_contr.World.{World, Call, Attempted, ended, again, Client, GameServerClient}
use gameserver_ingress_contr.World.Keeps.{MadeBy}

abbrev pub store : Store TestError Cluster
store = record {
  service_store = services;
  ingress_store = ingresses;
  gateway_store = some http_routes;
}

abbrev pub agones : Option (GameServerClient TestError Cluster)
agones = some game_servers

pub try_again-Attempted :
    (n : ℕ) (f : Call TestError Cluster GameServer) (w : World Cluster)
    → Attempted libs f w (try_again n f w)
try_again-Attempted zero f w = ended refl
try_again-Attempted (suc n) f w = go (f w) refl (try_again-Attempted n f)
  where
    go :
        (x : Result TestError GameServer × World Cluster)
        → f w ≡ x
        → ((w' : World Cluster) → Attempted libs f w' (try_again n f w'))
        → Attempted libs f w (try_next (try_again n f) x)
    go (ok gs, w') e rest = ended e
    go (panic, w') e rest = ended e
    go (err x, w') e rest = elim (Bool-cases (libs.is_conflict x)) [
      | inl c ↦ rw c (again e c (rest w'))
      | inr c ↦ rw c (ended e)
    ]

pub retry-Attempted :
    (f : Call TestError Cluster GameServer) (w : World Cluster)
    → Attempted libs f w (retry_on_conflict f w)
retry-Attempted = try_again-Attempted 4

module _ {A : Type 0} (name_of namespace_of : A → String) where
  find_appended :
      (ns name : String) (x : A) (xs : List A)
      → IsOk (find name_of namespace_of ns name xs)
      → IsOk (find name_of namespace_of ns name (xs ++ (x ∷ [])))
  find_appended ns name x [] i = absurd i
  find_appended ns name x (y ∷ xs) i =
      elim (Bool-cases (name_of y == name && namespace_of y == ns)) [
        | inl e ↦ rw e tt
        | inr e ↦ rw e (find_appended ns name x xs (rw e at i))
      ]

  find_last :
      (x : A) (xs : List A)
      → IsOk (find name_of namespace_of (namespace_of x) (name_of x) (xs ++ (x ∷ [])))
  find_last x [] =
      let e : (name_of x == name_of x) ≡ true = ground (arith, eq_iff (name_of x) (name_of x)) in
      let e' : (namespace_of x == namespace_of x) ≡ true =
        ground (arith, eq_iff (namespace_of x) (namespace_of x)) in
      rw (e, e') tt
  find_last x (y ∷ xs) =
      elim (Bool-cases (name_of y == name_of x && namespace_of y == namespace_of x)) [
        | inl e ↦ rw e tt
        | inr e ↦ rw e (find_last x xs)
      ]

  add_seen :
      (P : Cluster → Type 0) (rebuild : List A → Cluster) (x : A) (xs : List A)
      → ((ys : List A)
          → IsOk (find name_of namespace_of (namespace_of x) (name_of x) ys)
          → P (rebuild ys))
      → let (r, ys) = add name_of namespace_of x xs in MadeBy P libs r (rebuild ys)
  add_seen P rebuild x xs seen = go (find name_of namespace_of (namespace_of x) (name_of x) xs) refl
    where
      go :
          (r : Result TestError A)
          → find name_of namespace_of (namespace_of x) (name_of x) xs ≡ r
          → let (r', ys) = put name_of namespace_of x xs r in MadeBy P libs r' (rebuild ys)
      go (ok b) e = λ _. seen xs (rw e tt)
      go (err b) e = seen (xs ++ (x ∷ [])) (find_last x xs)
      go panic e = seen (xs ++ (x ∷ [])) (find_last x xs)

  add_keeps :
      (ns name : String) (x : A) (xs : List A)
      → IsOk (find name_of namespace_of ns name xs)
      → IsOk (find name_of namespace_of ns name (add name_of namespace_of x xs).1)
  add_keeps ns name x xs i = go (find name_of namespace_of (namespace_of x) (name_of x) xs)
    where
      go :
          (r : Result TestError A)
          → IsOk (find name_of namespace_of ns name (put name_of namespace_of x xs r).1)
      go (ok b) = i
      go (err b) = find_appended ns name x xs i
      go panic = find_appended ns name x xs i

pub some_same : {A : Type 0} {a b : A} → some a ≡ some b → a ≡ b
some_same e = cc

lasting :
    (P : Cluster → Type 0)
    → ((ns : String) (a : Service) (s : Cluster) → P s → P (services.create ns a s).1)
    → ((ns : String) (a : Ingress) (s : Cluster) → P s → P (ingresses.create ns a s).1)
    → ((ns : String) (a : HttpRoute) (s : Cluster) → P s → P (http_routes.create ns a s).1)
    → ((ns : String) (a : GameServer) (s : Cluster) → P s → P (game_servers.update ns a s).1)
    → IsLasting store agones P
lasting P hs hi hr hu = record {
  services_keep = hs;
  ingresses_keep = hi;
  routes_keep = λ client e.
      subst
        (λ (c : Client TestError Cluster HttpRoute).
          (ns : String) (a : HttpRoute) (s : Cluster) → P s → P (c.create ns a s).1)
        (some_same e) hr;
  updates_keep = λ client e.
      subst
        (λ (c : GameServerClient TestError Cluster).
          (ns : String) (a : GameServer) (s : Cluster) → P s → P (c.update ns a s).1)
        (some_same e) hu;
}

pub is_live : IsLive store agones libs
is_live = record {
  services_seen = λ a s.
      add_seen (λ x. x.name) (λ x. x.namespace) (IsThere services (a.namespace) (a.name))
        (λ xs. record s { services = xs }) a s.services (λ ys i. i);
  ingresses_seen = λ a s.
      add_seen (λ x. x.name) (λ x. x.namespace) (IsThere ingresses (a.namespace) (a.name))
        (λ xs. record s { ingresses = xs }) a s.ingresses (λ ys i. i);
  routes_seen = λ client e.
      subst (λ c. IsSeen libs c (λ (a : HttpRoute). a.namespace) (λ a. a.name)) (some_same e)
        λ a s.
          add_seen (λ x. x.name) (λ x. x.namespace) (IsThere http_routes (a.namespace) (a.name))
            (λ xs. record s { http_routes = xs }) a s.http_routes (λ ys i. i);
  services_last = λ ns name.
      lasting (IsThere services ns name)
        (λ _ a s. add_keeps (λ x. x.name) (λ x. x.namespace) ns name a s.services) (λ _ a s p. p)
        (λ _ a s p. p) (λ _ a s p. p);
  ingresses_last = λ ns name.
      lasting (IsThere ingresses ns name) (λ _ a s p. p)
        (λ _ a s. add_keeps (λ x. x.name) (λ x. x.namespace) ns name a s.ingresses) (λ _ a s p. p)
        (λ _ a s p. p);
  routes_last = λ client e ns name.
      subst (λ c. IsLasting store agones (IsThere c ns name)) (some_same e)
        (lasting (IsThere http_routes ns name) (λ _ a s p. p) (λ _ a s p. p)
          (λ _ a s. add_keeps (λ x. x.name) (λ x. x.namespace) ns name a s.http_routes)
          (λ _ a s p. p));
}
