-- ===== src/WorkloadClient/Threads/Fine.antt =====
-- What a step of a goroutine of WorkloadClient/Threads.antt keeps of the clients at hand.
use cluster_api_provider_kwo.Exec.Inversion.{ok-injective}
use cluster_api_provider_kwo.Prelude.{
  ℕ, subst, String, Option, none, some, ◌≡◌, refl, ap, ◌∙◌, sym, inl, inr,
}
use cluster_api_provider_kwo.Prelude.Dict.{lookup, lookup-insert-some, lookup-erase-some}
use cluster_api_provider_kwo.Exec.{Outcome, ok, err, panic, out_of_fuel}
use cluster_api_provider_kwo.Kube.{Kube, RestConfig, Failure}
use cluster_api_provider_kwo.Kube.Session.{Sys}
use cluster_api_provider_kwo.WorkloadClient.{fetch_config, connect, remember, remove_client}
use cluster_api_provider_kwo.WorkloadClient.Key.{NoSlash, cache_key-injective}
use cluster_api_provider_kwo.WorkloadClient.Threads.{
  Request, key_of, Pc, idle, calling, looking, fetching, connecting, waiting, storing, returned,
  asking, removing, Shared, lock, unlock, after_lookup, after_fetch, after_connect, advance,
}
use cluster_api_provider_kwo.WorkloadClient.Threads.Built.{
  IsFetchedFor, IsBuiltFor, fetch_config-ok, fetch_config-clients, connect-ok, connect-clients,
}

-- `Asked` are the requests of a run.
module _ {W E C : Type 0} (kube : Kube W E C) (Seen : W → Type 0) (Asked : Request → Type 0) where
  -- The client was built for a request to the cluster that was made in the run.
  pub record IsBuiltForCluster (cluster_name namespace : String) (c : C) : Type 0 where
    pub request : Request
    pub asked : Asked request
    pub same_name : request.cluster_name ≡ cluster_name
    pub same_namespace : request.namespace ≡ namespace
    pub is_built : IsBuiltFor kube Seen request c

  -- A client in the cache was built for a request with its key.
  pub record IsCachedFor (key : String) (c : C) : Type 0 where
    pub request : Request
    pub asked : Asked request
    pub no_slash : NoSlash request.namespace
    pub same_key : key_of request ≡ key
    pub is_built : IsBuiltFor kube Seen request c

  -- A request that was made.
  abbrev pub IsMade : Request → Type 0
  IsMade r = NoSlash r.namespace × Asked r

  abbrev pub IsFine : Pc E C → Type 0
  IsFine idle = Unit {0}
  IsFine (calling r) = IsMade r
  IsFine (looking r) = IsMade r
  IsFine (fetching r) = IsMade r
  IsFine (connecting r config) = IsMade r × IsFetchedFor kube Seen r.cluster_name r.namespace config
  IsFine (waiting r c) = IsMade r × IsBuiltFor kube Seen r c
  IsFine (storing r c) = IsMade r × IsBuiltFor kube Seen r c
  IsFine (returned r o) = (c : C) → o ≡ ok c → IsBuiltForCluster r.cluster_name r.namespace c
  IsFine (asking cluster_name namespace) = Unit {0}
  IsFine (removing cluster_name namespace) = Unit {0}

  abbrev pub IsFineCache : Sys W C → Type 0
  IsFineCache s = (key : String) (c : C) → lookup key s.clients ≡ some c → IsCachedFor key c

  served :
      (r : Request) (c : C)
      → IsMade r
      → IsCachedFor (key_of r) c
      → IsBuiltForCluster r.cluster_name r.namespace c
  served r c h cached =
      let q = cached.request in
      let (same_name, same_namespace) =
        cache_key-injective q.cluster_name q.namespace r.cluster_name r.namespace cached.no_slash
          h.0 cached.same_key in
      record {
        request = q;
        asked = cached.asked;
        same_name = same_name;
        same_namespace = same_namespace;
        is_built = cached.is_built;
      }

  after_lookup-IsFine :
      (r : Request) (o : Option C)
      → IsMade r
      → ((c : C) → o ≡ some c → IsCachedFor (key_of r) c)
      → IsFine (after_lookup r o)
  after_lookup-IsFine r none h k = h
  after_lookup-IsFine r (some c) h k = λ d e.
      subst (IsBuiltForCluster r.cluster_name r.namespace) (ok-injective e)
        (served r c h (k c refl))

  after_fetch-IsFine :
      (r : Request) (o : Outcome (Failure E) RestConfig)
      → IsMade r
      → ((config : RestConfig)
          → o ≡ ok config
          → IsFetchedFor kube Seen r.cluster_name r.namespace config)
      → IsFine (after_fetch r o)
  after_fetch-IsFine r (ok config) h k = (h, k config refl)
  after_fetch-IsFine r (err e) h k = λ c e. absurd (cc)
  after_fetch-IsFine r panic h k = λ c e. absurd (cc)
  after_fetch-IsFine r out_of_fuel h k = λ c e. absurd (cc)

  after_connect-IsFine :
      (r : Request) (o : Outcome (Failure E) C)
      → IsMade r
      → ((c : C) → o ≡ ok c → IsBuiltFor kube Seen r c)
      → IsFine (after_connect r o)
  after_connect-IsFine r (ok c) h k = (h, k c refl)
  after_connect-IsFine r (err e) h k = λ c e. absurd (cc)
  after_connect-IsFine r panic h k = λ c e. absurd (cc)
  after_connect-IsFine r out_of_fuel h k = λ c e. absurd (cc)

  remember-IsFineCache :
      (r : Request) (c : C) (s : Sys W C)
      → IsMade r
      → IsBuiltFor kube Seen r c
      → IsFineCache s
      → IsFineCache (remember {E = E} (key_of r) c s).1
  unfolding remember
  remember-IsFineCache r c s (no_slash, asked) built fine key d h =
      elim (lookup-insert-some (key_of r) key c s.clients h) [
        | inl (same_key, same) ↦ record {
          request = r;
          asked = asked;
          no_slash = no_slash;
          same_key = same_key;
          is_built = subst (IsBuiltFor kube Seen r) same built;
        }
        | inr before ↦ fine key d before
      ]

  lock-IsFine :
      (i : ℕ) (held : Option ℕ) (p q : Pc E C) (s : Shared W C)
      → IsFine p
      → IsFine q
      → IsFineCache s.sys
      → IsFine (lock i held p q s).0 × IsFineCache (lock i held p q s).1.sys
  unfolding lock
  lock-IsFine i none p q s h h' k = (h', k)
  lock-IsFine i (some j) p q s h h' k = (h, k)

  pub advance-IsFine :
      (i : ℕ) (p : Pc E C) (s : Shared W C)
      → Seen s.sys.world
      → IsFine p
      → IsFineCache s.sys
      → IsFine (advance kube i p s).0 × IsFineCache (advance kube i p s).1.sys
  unfolding advance unlock remove_client
  advance-IsFine i idle s seen h k = (tt, k)
  advance-IsFine i (calling r) s seen h k = lock-IsFine i s.mutex (calling r) (looking r) s h h k
  advance-IsFine i (looking r) s seen h k = (
    after_lookup-IsFine r (lookup (key_of r) s.sys.clients) h (λ c found. k (key_of r) c found),
    k,
  )
  advance-IsFine i (fetching r) s seen h k = (
    after_fetch-IsFine r (fetch_config kube r.cluster_name r.namespace s.sys).0 h (λ config.
        fetch_config-ok kube Seen r.cluster_name r.namespace s.sys {config = config} seen),
    λ key c found. k key c (
        ap (lookup key) (sym (fetch_config-clients kube r.cluster_name r.namespace s.sys)) ∙ found),
  )
  advance-IsFine i (connecting r config) s seen (h, fetched) k = (
    after_connect-IsFine r (connect kube r.endpoint config s.sys).0 h
        (λ c. connect-ok kube Seen r config s.sys {c = c} fetched seen),
    λ key c found. k key c (ap (lookup key) (sym (connect-clients kube r config s.sys)) ∙ found),
  )
  advance-IsFine i (waiting r c) s seen h k =
      lock-IsFine i s.mutex (waiting r c) (storing r c) s h h k
  advance-IsFine i (storing r c) s seen (h, built) k = (
    λ d e. record {
      request = r;
      asked = h.1;
      same_name = refl;
      same_namespace = refl;
      is_built = subst (IsBuiltFor kube Seen r) (ok-injective e) built;
    },
    remember-IsFineCache r c s.sys h built k,
  )
  advance-IsFine i (returned r o) s seen h k = (h, k)
  advance-IsFine i (asking cluster_name namespace) s seen h k =
      lock-IsFine i s.mutex (asking cluster_name namespace) (removing cluster_name namespace) s tt
        tt k
  advance-IsFine i (removing cluster_name namespace) s seen h k =
      (tt, λ key c found. k key c (lookup-erase-some _ key s.sys.clients found))
