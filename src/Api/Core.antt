-- ===== src/Api/Core.antt =====
-- Objects of Cluster API and of Kubernetes in the management cluster: the fields that the source
-- reads or writes. Their types are declared outside the repository.
use cluster_api_provider_kwo.Prelude.{String, List, Option}
use cluster_api_provider_kwo.Prelude.Int.{ℤ}
use cluster_api_provider_kwo.Api.Meta.{ObjectMeta, ApiEndpoint}

-- A reference to an object of another API group.
pub record ContractRef : Type 0 where
  pub api_group : String
  pub kind : String
  pub name : String

pub record ClusterSpec : Type 0 where
  pub control_plane_endpoint : ApiEndpoint
  pub control_plane_ref : ContractRef
  pub infrastructure_ref : ContractRef

pub record Cluster : Type 0 where
  pub metadata : ObjectMeta
  pub spec : ClusterSpec

-- `Bootstrap` of a Machine's spec.
pub record BootstrapSource : Type 0 where
  pub config_ref : ContractRef
  pub data_secret_name : Option String

pub record MachineSpec : Type 0 where
  pub cluster_name : String
  pub bootstrap : BootstrapSource
  pub version : String

pub record Machine : Type 0 where
  pub metadata : ObjectMeta
  pub spec : MachineSpec

pub record MachinePoolSpec : Type 0 where
  pub cluster_name : String
  pub replicas : Option ℤ  -- `*int32`
  pub template : MachineSpec

pub record MachinePool : Type 0 where
  pub metadata : ObjectMeta
  pub spec : MachinePoolSpec

pub record Secret : Type 0 where
  pub metadata : ObjectMeta
  pub contents : List (String × String)
  pub type_name : String

pub data AddressType : Type 0 where
  internal_dns : AddressType

pub record MachineAddress : Type 0 where
  pub address_type : AddressType
  pub address : String
