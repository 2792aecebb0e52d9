-- ===== src/WorkloadClient/Cache.antt =====
-- What the cache of internal/controller/infrastructure/workload_client.go promises.
use cluster_api_provider_kwo.Prelude.{
  String, ◌≡◌, true, none, some, arith, ap, ◌∙◌, ◌&&◌, ◌⊎◌, if◌then◌else◌, eq_iff, str_eq,
}
use cluster_api_provider_kwo.Prelude.Dict.{lookup, lookup-insert_self, lookup-erase}
use cluster_api_provider_kwo.Exec.{ok, is_ok, returns}
use cluster_api_provider_kwo.Api.Meta.{ApiEndpoint}
use cluster_api_provider_kwo.Kube.{Kube}
use cluster_api_provider_kwo.Kube.Session.{Sys}
use cluster_api_provider_kwo.WorkloadClient.{cache_key, build_client, get_client, remove_client}
use cluster_api_provider_kwo.WorkloadClient.Key.{NoSlash, cache_key-injective}

module _ {W E C : Type 0} (kube : Kube W E C) where
  -- A client that was built stands in the cache.
  build_client-remembers :
      (n ns : String) (p : ApiEndpoint) (s : Sys W C) {c : C}
      → (build_client kube n ns p s).0 ≡ ok c
      → lookup (cache_key n ns) (build_client kube n ns p s).1.clients ≡ some c
  unfolding build_client
  build_client-remembers n ns p s {c} h =
      ground (arith, lookup-insert_self (cache_key n ns) c s.clients)

  -- A cached client is returned with no call and no change of state.
  pub get_client-cached :
      (n ns : String) (p : ApiEndpoint) (s : Sys W C) {c : C}
      → lookup (cache_key n ns) s.clients ≡ some c
      → get_client kube n ns p s ≡ (ok c, s)
  unfolding get_client
  get_client-cached n ns p s h = ground arith

  pub get_client-missed :
      (n ns : String) (p : ApiEndpoint) (s : Sys W C)
      → lookup (cache_key n ns) s.clients ≡ none
      → get_client kube n ns p s ≡ build_client kube n ns p s
  unfolding get_client
  get_client-missed n ns p s h = ground arith

  pub get_client-remembers :
      (n ns : String) (p : ApiEndpoint) (s : Sys W C) {c : C}
      → (get_client kube n ns p s).0 ≡ ok c
      → lookup (cache_key n ns) (get_client kube n ns p s).1.clients ≡ some c
  unfolding get_client
  get_client-remembers n ns p s {c} h = ground (arith, build_client-remembers n ns p s {c = c})

  -- Once `GetClient` has returned a client for a cluster, it returns that same client for the
  -- cluster whatever endpoint is asked for, and neither calls anything nor changes any state.
  pub get_client_twice :
      (n ns : String) (p q : ApiEndpoint) (s : Sys W C) {c : C}
      → (get_client kube n ns p s).0 ≡ ok c
      → get_client kube n ns q (get_client kube n ns p s).1 ≡ (ok c, (get_client kube n ns p s).1)
  get_client_twice n ns p q s h =
      get_client-cached n ns q (get_client kube n ns p s).1 (get_client-remembers n ns p s h)

  pub get_client-returns :
      (n ns : String) (p : ApiEndpoint) (s : Sys W C) → returns (get_client kube n ns p s).0 ≡ true
  unfolding get_client build_client
  get_client-returns n ns p s = ground arith

  -- `GetClient` sends no write, and a call that does not return a client leaves the cache as it
  -- was: no failure is cached.
  get_client_frame :
      (n ns : String) (p : ApiEndpoint) (s : Sys W C)
      → let (o, t) = get_client kube n ns p s in
        (t.trace ≡ s.trace) × ((is_ok o ≡ true) ⊎ (t.clients ≡ s.clients))
  unfolding get_client build_client
  get_client_frame n ns p s = ground arith

module _ {W C : Type 0} where
  -- After `RemoveClient` of one cluster `GetClient` finds no client of that cluster in the cache, and
  -- for every other cluster what it found before, if no namespace has a slash.
  pub remove_client_exact :
      (n ns m ms : String) (s : Sys W C)
      → NoSlash ns
      → NoSlash ms
      → lookup (cache_key m ms) (remove_client n ns s).clients
        ≡ (if str_eq n m && str_eq ns ms then none else lookup (cache_key m ms) s.clients)
  unfolding remove_client
  remove_client_exact n ns m ms s h k =
      lookup-erase (cache_key n ns) (cache_key m ms) s.clients
      ∙ ap (λ b. if b then none else lookup (cache_key m ms) s.clients) same_key
    where
      same_key : str_eq (cache_key n ns) (cache_key m ms) ≡ (str_eq n m && str_eq ns ms)
      same_key = ground (
        arith,
        eq_iff (cache_key n ns) (cache_key m ms),
        eq_iff n m,
        eq_iff ns ms,
        cache_key-injective n ns m ms h k,
        same_args,
      )
        where
          same_args : n ≡ m → ns ≡ ms → str_eq (cache_key n ns) (cache_key m ms) ≡ true
          same_args e e' = (eq_iff (cache_key n ns) (cache_key m ms)).1 (cc)
