-- ===== src/Tests/FakeHost.antt =====
-- A host for the tests: a container with an address, a kubeconfig on disk, and no PKI.
use Prim.Native.String.{◌++◌}
use cluster_api_provider_kwo.Prelude.{none, some, [], ◌∷◌}
use cluster_api_provider_kwo.Exec.{value, error}
use cluster_api_provider_kwo.Service.Host.{Host, KubeConfig}
use cluster_api_provider_kwo.ControlPlaneScope.{Scope}
use cluster_api_provider_kwo.Tests.Fake.{
  World, Status, not_found, unavailable, fake_kube, the_secret, the_cluster, the_kwok_cluster,
}

abbrev loopback_config : KubeConfig
loopback_config = record {
  clusters =
      ("demo", record { server = "https://127.0.0.1:32766"; certificate_authority = "" }) ∷ [];
  contexts = [];
  auth_infos = [];
  current_context = "";
}

abbrev pub fake_host : Host World Status
fake_host = record {
  kind_get_kubeconfig = λ name w. (error unavailable, w);
  docker_inspect = λ container w. (value "172.18.0.3\n", w);
  load_config = λ text. value loopback_config;
  load_config_file = λ path w. (value loopback_config, w);
  write_config = λ config. value "kubeconfig";
  rest_config_of_file =
      λ path w. (value (record { host = "https://127.0.0.1:32766"; credentials = "" }), w);
  http_client_for = λ config. value (λ url w. (value 200, w));
  read_file = λ path w. (error not_found, w);
  write_file = λ path text w. (value tt, w);
  pod_ip = λ w. "10.1.2.3";
  parse_url = λ text. some (record { scheme = "https"; host = text; path = "" });
  hostname = λ url. "127.0.0.1";
  port = λ url. "32766";
  print_url = λ url. url.scheme ++ "://" ++ url.host;
  join_path = λ dir file. dir ++ "/" ++ file;
  in_host_kubeconfig_name = "kubeconfig.yaml";
  pki_name = "pki";
  kubeconfig_secret_of = λ ref.
      fake_kube.secrets.get
        (record { namespace = ref.namespace; name = ref.name ++ "-kubeconfig" });
  generate_secret = λ ref text owner. the_secret;
  new_controller_ref =
      λ m. record { api_version = ""; kind = "KwokControlPlane"; name = m.name; uid = m.uid };
}

abbrev pub the_scope : Scope World Status
the_scope = record {
  cluster = the_cluster;
  kwok_cluster = the_kwok_cluster none;
  patch = λ o w. (value tt, w);
}
