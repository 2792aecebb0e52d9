-- ===== src/Service/Host.antt =====
-- What pkg/services/kwok/cluster/create.go calls on the host and in libraries: `kind`, `docker`,
-- files, clientcmd, HTTP, and the syntax of URLs and paths.
use cluster_api_provider_kwo.Prelude.{ℕ, String, List, Option}
use cluster_api_provider_kwo.Exec.{Result}
use cluster_api_provider_kwo.Api.Meta.{NamespacedName, ObjectMeta, OwnerReference}
use cluster_api_provider_kwo.Api.Core.{Secret}
use cluster_api_provider_kwo.Kube.{Op, RestConfig}

-- `clientcmd/api.Config`. Its maps are lists here, in the order in which `range` visits them.
pub record KubeCluster : Type 0 where
  pub server : String
  pub certificate_authority : String

pub record KubeUser : Type 0 where
  pub client_certificate : String
  pub client_key : String

pub record KubeContext : Type 0 where
  pub cluster : String
  pub auth_info : String

pub record KubeConfig : Type 0 where
  pub clusters : List (String × KubeCluster)
  pub contexts : List (String × KubeContext)
  pub auth_infos : List (String × KubeUser)
  pub current_context : String

-- `url.URL`: `host` may have a port.
pub record Url : Type 0 where
  pub scheme : String
  pub host : String
  pub path : String

pub record Host (W E : Type 0) : Type 0 where
  pub kind_get_kubeconfig : String → Op W E String  -- of the cluster with this name
  pub docker_inspect : String → Op W E String  -- the IP addresses of this container
  pub load_config : String → Result E KubeConfig
  pub load_config_file : String → Op W E KubeConfig
  pub write_config : KubeConfig → Result E String
  pub rest_config_of_file : String → Op W E RestConfig
  pub http_client_for : RestConfig → Result E (String → Op W E ℕ)  -- `Get`, for the status code
  pub read_file : String → Op W E String
  pub write_file : String → String → Op W E (Unit {0})
  pub pod_ip : W → String  -- `os.Getenv("POD_IP")`
  pub parse_url : String → Option Url
  pub hostname : Url → String
  pub port : Url → String
  pub print_url : Url → String
  pub join_path : String → String → String
  -- sigs.k8s.io/kwok/pkg/kwokctl/runtime
  pub in_host_kubeconfig_name : String
  pub pki_name : String
  -- sigs.k8s.io/cluster-api/util/secret and util/kubeconfig, and metav1.NewControllerRef
  pub kubeconfig_secret_of : NamespacedName → Op W E Secret
  pub generate_secret : NamespacedName → String → OwnerReference → Secret
  pub new_controller_ref : ObjectMeta → OwnerReference
