-- ===== src/Kube/Clients.antt =====
-- The clients of controller-runtime and the helpers of Cluster API, as records of functions over a
-- type `W` of states of the world outside, with errors `E`. A call returns a value or an error, and
-- the world after it. `C` is the type of a client of a workload cluster.
use cluster_api_provider_kwo.Prelude.{ℕ, String, Bool, List, Option}
use cluster_api_provider_kwo.Exec.{Result}
use cluster_api_provider_kwo.Api.Meta.{NamespacedName, ObjectMeta, ApiEndpoint}
use cluster_api_provider_kwo.Api.Core.{ContractRef, Cluster, Machine, MachinePool, Secret}
use cluster_api_provider_kwo.Api.Workload.{Node, Lease}
use cluster_api_provider_kwo.Api.Kwok.{
  KwokMachine, KwokMachinePool, KwokCluster, KwokControlPlane, KwokConfig,
}

abbrev pub Op : Type 0 → Type 0 → Type 0 → Type 0
Op W E A = W → Result E A × W

-- controller-runtime's `client.Client` at one kind, and Cluster API's `patch.NewHelper`: the
-- helper is the function that patches, and it keeps the object as it was.
pub record Client (W E O : Type 0) : Type 0 where
  pub get : NamespacedName → Op W E O
  pub list : String → List (String × String) → Op W E (List O)
  pub create : O → Op W E O  -- on success the object as the server returns it
  pub update : O → Op W E (Unit {0})
  pub update_status : O → Op W E (Unit {0})
  pub delete : O → Op W E (Unit {0})
  pub new_helper : O → Op W E (O → Op W E (Unit {0}))

-- `rest.Config`: the host, which the source overrides, and the rest, which it passes on.
pub record RestConfig : Type 0 where
  pub host : String
  pub credentials : String

pub record Kube (W E C : Type 0) : Type 0 where
  pub is_not_found : E → Bool
  pub is_already_exists : E → Bool
  pub machines : Client W E KwokMachine
  pub pools : Client W E KwokMachinePool
  pub kwok_clusters : Client W E KwokCluster
  pub control_planes : Client W E KwokControlPlane
  pub configs : Client W E KwokConfig
  pub clusters : Client W E Cluster
  pub secrets : Client W E Secret
  pub nodes : C → Client W E Node
  pub leases : C → Client W E Lease
  -- sigs.k8s.io/cluster-api/util and exp/util
  pub owner_machine : ObjectMeta → Op W E (Option Machine)
  pub owner_machine_pool : ObjectMeta → Op W E (Option MachinePool)
  pub owner_cluster : ObjectMeta → Op W E (Option Cluster)
  pub cluster_of_metadata : ObjectMeta → Op W E Cluster
  -- the label keys of sigs.k8s.io/cluster-api/api/core/v1beta2
  pub cluster_name_label : String
  pub machine_pool_name_label : String
  pub is_paused : Cluster → ObjectMeta → Bool
  -- `APIEndpoint.IsZero` and `ContractVersionedObjectReference.IsDefined`
  pub is_zero_endpoint : ApiEndpoint → Bool
  pub is_defined_ref : ContractRef → Bool
  -- sigs.k8s.io/controller-runtime/pkg/controller/controllerutil, on the finalizers of an object
  pub add_finalizer : String → List String → List String × Bool
  pub remove_finalizer : String → List String → List String
  pub set_owner_reference : ObjectMeta → Secret → Result E Secret
  -- `clusterv1.ClusterSecretType`
  pub cluster_secret_type : String
  -- k8s.io/client-go/tools/clientcmd and client.New
  pub rest_config_of_kubeconfig : String → Result E RestConfig
  pub new_client : RestConfig → Op W E C
  -- metav1.Now
  pub now : W → ℕ × W
