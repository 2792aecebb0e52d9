-- ===== src/Service/Secrets.antt =====
-- The kubeconfig secrets of pkg/services/kwok/cluster/create.go. The service holds the control plane
-- in memory and changes its endpoint on the way.
pub mod Keeps
pub mod Published
use Prim.Native.String.{◌++◌}
use cluster_api_provider_kwo.Prelude.{String, Bool, true, List, [], ◌∷◌, str_eq, if◌then◌else◌}
use cluster_api_provider_kwo.Exec.{Result, value, error, Exec, pure, raise, map_err, ◌>>=◌, ◌>>◌}
use cluster_api_provider_kwo.Api.Meta.{NamespacedName}
use cluster_api_provider_kwo.Api.Core.{Secret}
use cluster_api_provider_kwo.Api.Kwok.{KwokControlPlane}
use cluster_api_provider_kwo.Kube.{
  Kube, Failure, raw, message, wrap, create_secret, write_file, kind_get_kubeconfig,
  getting_container_ip, getting_container_ip_for, parsing_kubeconfig, serializing, serializing_yaml,
  creating_secret, getting_secret, creating_kind_kubeconfig_secret, creating_kubeconfig_secret,
  loading_kwok_kubeconfig, no_cluster_entry, rewriting_on_disk,
}
use cluster_api_provider_kwo.Kube.Session.{
  Sys, Held, query, request, try_query, on_sys, modify, the_object,
}
use cluster_api_provider_kwo.ControlPlaneScope.{Scope, runtime, name, work_dir}
use cluster_api_provider_kwo.Service.Host.{Host, KubeConfig}
use cluster_api_provider_kwo.Service.Kubeconfig.{
  with_endpoint, with_endpoint_of, first_server, given, rewrite_servers, advertised,
  get_kind_container_ip, rewrite_on_disk_kubeconfig,
}

-- What is left out of a kubeconfig if its file cannot be read.
unfoldable pub text_or_empty : {E : Type 0} → Result E String → String
text_or_empty (value text) = text
text_or_empty (error e) = ""

-- The `api.Config` that `createKubeconfigSecret` builds.
unfoldable pub admin_config : String → String → String → String → String → KubeConfig
admin_config cluster_name server ca_cert client_cert client_key =
    let user_name = cluster_name ++ "-capf-admin" in
    let context_name = user_name ++ "@" ++ cluster_name in
    record {
      clusters = (cluster_name, record { server = server; certificate_authority = ca_cert }) ∷ [];
      contexts = (context_name, record { cluster = cluster_name; auth_info = user_name }) ∷ [];
      auth_infos =
          (user_name, record { client_certificate = client_cert; client_key = client_key }) ∷ [];
      current_context = context_name;
    }

module _ {W E C : Type 0} (kube : Kube W E C) (host : Host W E) (scope : Scope W E) where
  unfoldable pub cluster_ref : NamespacedName
  cluster_ref = record {
    namespace = scope.cluster.metadata.namespace;
    name = scope.cluster.metadata.name;
  }

  unfoldable pub kubeconfig_path : String
  kubeconfig_path = host.join_path (work_dir scope) host.in_host_kubeconfig_name

  unfoldable pub is_kind : Bool
  is_kind = str_eq (runtime scope) "kind"

  -- `kubeconfig.GenerateSecretWithOwner` and `Create`, with the owner as it was at the start.
  unfoldable pub create_owned : KwokControlPlane → String → Exec (Sys W C) (Failure E) Secret
  create_owned control_plane text =
      let owner = host.new_controller_ref control_plane.metadata in
      let secret = host.generate_secret cluster_ref text owner in
      map_err (wrap creating_secret) (request (create_secret secret) (kube.secrets.create secret))

  -- The kubeconfig that kind gives, rewritten, with the endpoint set on the way.
  unfoldable pub prepare_kind_kubeconfig : Exec (Held W C KwokControlPlane) (Failure E) String
  prepare_kind_kubeconfig = do
    text ← on_sys (
        map_err (wrap (kind_get_kubeconfig (name scope)))
          (query (host.kind_get_kubeconfig (name scope))))
    ip ← on_sys (map_err (wrap getting_container_ip) (get_kind_container_ip host (name scope)))
    modify (with_endpoint (record { host = ip; port = 6443 }))
    config ← on_sys (map_err (wrap parsing_kubeconfig) (given (host.load_config text)))
    on_sys (
        map_err (wrap serializing)
          (given (host.write_config (rewrite_servers host (λ url. true) ip config))))

  unfoldable pub create_kind_kubeconfig_secret :
      Exec (Held W C KwokControlPlane) (Failure E) (Unit {0})
  create_kind_kubeconfig_secret = do
    control_plane ← the_object
    rewritten ← prepare_kind_kubeconfig
    on_sys (create_owned control_plane rewritten)
    on_sys
        (request (write_file kubeconfig_path rewritten) (host.write_file kubeconfig_path rewritten))

  after_kind_secret : Result E Secret → Exec (Held W C KwokControlPlane) (Failure E) (Unit {0})
  after_kind_secret (value secret) = pure tt
  after_kind_secret (error e) =
      if kube.is_not_found e
      then map_err (wrap creating_kind_kubeconfig_secret) create_kind_kubeconfig_secret
      else raise (wrap getting_secret (raw e))

  unfoldable pub reconcile_kind_kubeconfig : Exec (Held W C KwokControlPlane) (Failure E) (Unit {0})
  unfolding after_kind_secret
  reconcile_kind_kubeconfig =
      on_sys (try_query (host.kubeconfig_secret_of cluster_ref)) >>= after_kind_secret

  -- The endpoint at the two kinds of runtimes, and the server that the secret is to have.
  endpoint_at_kind : String → Exec (Held W C KwokControlPlane) (Failure E) String
  endpoint_at_kind server = do
    ip ← on_sys (
        map_err (wrap (getting_container_ip_for (name scope)))
          (get_kind_container_ip host (name scope)))
    modify (with_endpoint (record { host = ip; port = 6443 }))
    pure server

  endpoint_at_others : String → Exec (Held W C KwokControlPlane) (Failure E) String
  endpoint_at_others server h =
      let reachable = advertised host (host.pod_ip h.sys.world) server in
      pure reachable (record h { object = with_endpoint_of host reachable h.object })

  -- The files below the directory of the PKI: an error of one is ignored.
  read_pki : String → Exec (Sys W C) (Failure E) (Result E String)
  read_pki file =
      try_query
        (host.read_file (host.join_path (host.join_path (work_dir scope) host.pki_name) file))

  -- The kubeconfig that is made for the server, with the endpoint set on the way.
  unfoldable pub prepare_kubeconfig : String → Exec (Held W C KwokControlPlane) (Failure E) String
  unfolding endpoint_at_kind endpoint_at_others read_pki
  prepare_kubeconfig server = do
    reachable ← if is_kind then endpoint_at_kind server else endpoint_at_others server
    ca_cert ← on_sys (read_pki "ca.crt")
    client_cert ← on_sys (read_pki "admin.crt")
    client_key ← on_sys (read_pki "admin.key")
    let config =
        admin_config (name scope) reachable (text_or_empty ca_cert) (text_or_empty client_cert)
          (text_or_empty client_key)
    on_sys (map_err (wrap serializing_yaml) (given (host.write_config config)))

  -- For kind the kubeconfig on disk is rewritten at the end.
  unfoldable pub rewrite_if_kind : Exec (Held W C KwokControlPlane) (Failure E) (Unit {0})
  rewrite_if_kind =
      if is_kind
      then map_err (wrap rewriting_on_disk)
          (on_sys (rewrite_on_disk_kubeconfig host (work_dir scope) (name scope)))
      else pure tt

  -- Behind the check for a server.
  unfoldable pub create_with_server :
      KwokControlPlane → String → Exec (Held W C KwokControlPlane) (Failure E) (Unit {0})
  create_with_server control_plane server = do
    out ← prepare_kubeconfig server
    on_sys (create_owned control_plane out)
    rewrite_if_kind

  unfoldable pub create_kubeconfig_secret : Exec (Held W C KwokControlPlane) (Failure E) (Unit {0})
  create_kubeconfig_secret = do
    control_plane ← the_object
    config ← on_sys (
        map_err (wrap (loading_kwok_kubeconfig kubeconfig_path))
          (query (host.load_config_file kubeconfig_path)))
    let server = first_server config.clusters
    if str_eq server ""
        then raise (message no_cluster_entry)
        else create_with_server control_plane server

  after_secret : Result E Secret → Exec (Held W C KwokControlPlane) (Failure E) (Unit {0})
  after_secret (value secret) = pure tt
  after_secret (error e) =
      if kube.is_not_found e
      then map_err (wrap creating_kubeconfig_secret) create_kubeconfig_secret
      else raise (wrap getting_secret (raw e))

  unfoldable pub reconcile_kubeconfig : Exec (Held W C KwokControlPlane) (Failure E) (Unit {0})
  unfolding after_secret
  reconcile_kubeconfig = on_sys (try_query (host.kubeconfig_secret_of cluster_ref)) >>= after_secret
