-- ===== src/WorkloadClient.antt =====
-- internal/controller/infrastructure/workload_client.go: the factory that builds the clients of the
-- workload clusters and caches them for every later call. A call of `GetClient` is one step here, and
-- several in `Threads`.
pub mod Key
pub mod Cache
pub mod Threads
use Prim.Native.String.{◌++◌}
use cluster_api_provider_kwo.Prelude.{
  ℕ, String, Bool, not, ◌&&◌, Option, none, some, List, [], str_eq, ltb, if◌then◌else◌,
}
use cluster_api_provider_kwo.Prelude.Dict.{lookup, insert, erase}
use cluster_api_provider_kwo.Prelude.Text.{decimal, join_host_port}
use cluster_api_provider_kwo.Exec.{
  Result, value, error, Exec, pure, raise, of_result, map_err, ◌>>=◌, ◌>>◌,
}
use cluster_api_provider_kwo.Api.Meta.{ApiEndpoint, NamespacedName}
use cluster_api_provider_kwo.Api.Core.{Secret}
use cluster_api_provider_kwo.Kube.{
  Kube, RestConfig, Failure, message, wrap, Context, getting_kubeconfig_secret, missing_value_key,
  building_rest_config, creating_workload_client,
}
use cluster_api_provider_kwo.Kube.Session.{Sys, raw_outcome, query}

unfoldable pub cache_key : String → String → String
cache_key cluster_name namespace = namespace ++ "/" ++ cluster_name

unfoldable pub kubeconfig_secret_name : String → String
kubeconfig_secret_name cluster_name = cluster_name ++ "-kubeconfig"

-- `endpoint.Host != "" && endpoint.Port > 0`
unfoldable pub has_endpoint : ApiEndpoint → Bool
has_endpoint endpoint = not (str_eq endpoint.host "") && ltb 0 endpoint.port

unfoldable pub override_host : ApiEndpoint → RestConfig → RestConfig
unfolding has_endpoint
override_host endpoint config =
    if has_endpoint endpoint
    then record config { host = "https://" ++ join_host_port endpoint.host (decimal endpoint.port) }
    else config

-- `kubeconfigData, ok := secret.Data["value"]; if !ok { … }`
present : {E : Type 0} → Option String → Context → Result (Failure E) String
present none missing = error (message missing)
present (some kubeconfig) missing = value kubeconfig

module _ {W E C : Type 0} where
  unfoldable pub remember : String → C → Exec (Sys W C) (Failure E) C
  remember key c s = pure c (record s { clients = insert key c s.clients })

module _ {W E C : Type 0} (kube : Kube W E C) where
  -- From the secret to the configuration of a client.
  unfoldable pub fetch_config : String → String → Exec (Sys W C) (Failure E) RestConfig
  unfolding present
  fetch_config cluster_name namespace = do
    let secret_name = kubeconfig_secret_name cluster_name
    secret ←
        map_err (wrap (getting_kubeconfig_secret namespace secret_name))
          (query (kube.secrets.get (record { namespace = namespace; name = secret_name })))
    kubeconfig ←
        of_result
          (present (lookup "value" secret.contents) (missing_value_key namespace secret_name))
    map_err (wrap building_rest_config)
        (λ s. (raw_outcome (kube.rest_config_of_kubeconfig kubeconfig), s))

  unfoldable pub connect : ApiEndpoint → RestConfig → Exec (Sys W C) (Failure E) C
  connect endpoint config =
      map_err (wrap creating_workload_client)
        (query (kube.new_client (override_host endpoint config)))

  -- `GetClient` behind the look into the cache.
  unfoldable pub build_client : String → String → ApiEndpoint → Exec (Sys W C) (Failure E) C
  unfolding fetch_config connect remember
  build_client cluster_name namespace endpoint = do
    config ← fetch_config cluster_name namespace
    c ← connect endpoint config
    remember (cache_key cluster_name namespace) c

  unfoldable pub get_client : String → String → ApiEndpoint → Exec (Sys W C) (Failure E) C
  get_client cluster_name namespace endpoint s =
      elim (lookup (cache_key cluster_name namespace) s.clients) [
        | some c ↦ pure c s
        | none ↦ build_client cluster_name namespace endpoint s
      ]

module _ {W C : Type 0} where
  -- `NewWorkloadClusterClientFactory`, in a process that has sent nothing.
  unfoldable pub new_factory : W → Sys W C
  new_factory w = record { world = w; trace = []; clients = [] }

  unfoldable pub remove_client : String → String → Sys W C → Sys W C
  remove_client cluster_name namespace s = record s {
    clients = erase (cache_key cluster_name namespace) s.clients;
  }
