-- ===== src/Service/Kubeconfig.antt =====
-- Kubeconfigs in pkg/services/kwok/cluster/create.go: the address of kind's container, and the
-- rewriting of servers.
use Prim.Native.String.{◌++◌}
use cluster_api_provider_kwo.Prelude.{
  String, Bool, ◌||◌, none, some, List, [], ◌∷◌, map, str_eq, if◌then◌else◌,
}
use cluster_api_provider_kwo.Prelude.Text.{join_host_port}
use cluster_api_provider_kwo.Prelude.Numbers.{atoi_or_zero, trim_space}
use cluster_api_provider_kwo.Exec.{Result, Exec, pure, raise, map_err, ◌>>=◌}
use cluster_api_provider_kwo.Api.Meta.{ApiEndpoint}
use cluster_api_provider_kwo.Api.Kwok.{KwokControlPlane}
use cluster_api_provider_kwo.Kube.{
  Failure, message, wrap, docker_inspect, no_ip_address, loading_kubeconfig, serializing,
  write_file,
}
use cluster_api_provider_kwo.Kube.Session.{Sys, raw_outcome, query, request}
use cluster_api_provider_kwo.Service.Host.{Host, KubeCluster, KubeConfig, Url}

-- `s.scope.ControlPlane.Spec.ControlPlaneEndpoint = …`
unfoldable pub with_endpoint : ApiEndpoint → KwokControlPlane → KwokControlPlane
with_endpoint endpoint control_plane = record control_plane {
  spec = record control_plane.spec { control_plane_endpoint = endpoint };
}

-- `for _, c := range kwokCfg.Clusters { serverURL = c.Server; break }`
unfoldable pub first_server : List (String × KubeCluster) → String
first_server [] = ""
first_server (entry ∷ entries) = entry.1.server

module _ {W C E A : Type 0} where
  -- A call that reads and changes nothing outside.
  abbrev pub given : Result E A → Exec (Sys W C) (Failure E) A
  given r s = (raw_outcome r, s)

module _ {W E : Type 0} (host : Host W E) where
  -- `parsed.Hostname() == "127.0.0.1" || parsed.Hostname() == "localhost"`
  unfoldable pub is_loopback : Url → Bool
  is_loopback url = str_eq (host.hostname url) "127.0.0.1" || str_eq (host.hostname url) "localhost"

  -- The body of the loops over `cfg.Clusters`, which takes the URLs that pass the test.
  unfoldable pub rewrite_server : (Url → Bool) → String → KubeCluster → KubeCluster
  rewrite_server wanted ip cluster = elim (host.parse_url cluster.server) [
    | none ↦ cluster
    | some url ↦
        if wanted url
        then record cluster {
          server = host.print_url (record url { host = join_host_port ip "6443" });
        }
        else cluster
  ]

  unfoldable pub rewrite_servers : (Url → Bool) → String → KubeConfig → KubeConfig
  unfolding rewrite_server
  rewrite_servers wanted ip config = record config {
    clusters = map (λ entry. (entry.0, rewrite_server wanted ip entry.1)) config.clusters;
  }

  -- The server that other pods reach: the pod's address in place of the loopback address.
  unfoldable pub advertised : String → String → String
  unfolding is_loopback
  advertised pod_ip server = if str_eq pod_ip "" then server else elim (host.parse_url server) [
    | none ↦ server
    | some url ↦
        if is_loopback url
        then host.print_url (record url { host = join_host_port pod_ip (host.port url) })
        else server
  ]

  -- `if parsed, parseErr := url.Parse(serverURL); parseErr == nil { … }`
  unfoldable pub with_endpoint_of : String → KwokControlPlane → KwokControlPlane
  with_endpoint_of server control_plane = elim (host.parse_url server) [
    | none ↦ control_plane
    | some url ↦
        with_endpoint (record { host = host.hostname url; port = atoi_or_zero (host.port url) })
          control_plane
  ]

module _ {W E C : Type 0} (host : Host W E) where
  unfoldable pub get_kind_container_ip : String → Exec (Sys W C) (Failure E) String
  get_kind_container_ip cluster_name = do
    let container_name = cluster_name ++ "-control-plane"
    out ←
        map_err (wrap (docker_inspect container_name)) (query (host.docker_inspect container_name))
    let ip = trim_space out
    if str_eq ip "" then raise (message (no_ip_address container_name)) else pure ip

  unfoldable pub rewrite_on_disk_kubeconfig :
      String → String → Exec (Sys W C) (Failure E) (Unit {0})
  rewrite_on_disk_kubeconfig work_dir cluster_name = do
    let path = host.join_path work_dir host.in_host_kubeconfig_name
    config ← map_err (wrap loading_kubeconfig) (query (host.load_config_file path))
    ip ← get_kind_container_ip cluster_name
    text ←
        map_err (wrap serializing)
          (given (host.write_config (rewrite_servers host (is_loopback host) ip config)))
    request (write_file path text) (host.write_file path text)
