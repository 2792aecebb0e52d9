-- ===== src/Api/Kwok.antt =====
-- The custom resources of this repository: api/infrastructure/v1alpha1, api/controlplane/v1alpha1
-- and api/bootstrap/v1alpha1. Condition lists, which no controller here reads or sets, are lists of
-- texts; a pointer to a Boolean is an `Option Bool`.
use cluster_api_provider_kwo.Prelude.{ℕ, String, List, Option, Bool}
use cluster_api_provider_kwo.Api.Meta.{ObjectMeta, ApiEndpoint, SimulationConfig}
use cluster_api_provider_kwo.Api.Core.{MachineAddress}

pub record KwokMachineSpec : Type 0 where
  pub provider_id : String
  pub simulation_config : Option SimulationConfig

pub record KwokMachineStatus : Type 0 where
  pub provisioned : Option Bool  -- initialization.provisioned
  pub addresses : List MachineAddress
  pub conditions : List String
  pub ready : Bool

pub record KwokMachine : Type 0 where
  pub metadata : ObjectMeta
  pub spec : KwokMachineSpec
  pub status : KwokMachineStatus

-- `GetConditions` and `SetConditions` of a KwokMachine
abbrev pub machine_conditions : KwokMachine → List String
machine_conditions m = m.status.conditions

abbrev pub set_machine_conditions : List String → KwokMachine → KwokMachine
set_machine_conditions conditions m = record m {
  status = record m.status { conditions = conditions };
}

pub record KwokMachineTemplate : Type 0 where
  pub metadata : ObjectMeta
  pub template_spec : KwokMachineSpec  -- spec.template.spec

pub record KwokMachinePoolSpec : Type 0 where
  pub provider_id : String
  pub provider_id_list : List String
  pub template_spec : KwokMachineSpec  -- template.spec
  pub simulation_config : Option SimulationConfig

pub record KwokMachinePoolStatus : Type 0 where
  pub ready : Bool
  pub replicas : ℕ
  pub infrastructure_machine_kind : String
  pub conditions : List String

pub record KwokMachinePool : Type 0 where
  pub metadata : ObjectMeta
  pub spec : KwokMachinePoolSpec
  pub status : KwokMachinePoolStatus

-- `GetConditions` and `SetConditions` of a KwokMachinePool
abbrev pub pool_conditions : KwokMachinePool → List String
pool_conditions p = p.status.conditions

abbrev pub set_pool_conditions : List String → KwokMachinePool → KwokMachinePool
set_pool_conditions conditions p = record p { status = record p.status { conditions = conditions } }

pub record KwokClusterSpec : Type 0 where
  pub bind_address : String
  pub runtime : String
  pub working_dir : String
  pub control_plane_endpoint : ApiEndpoint
  pub simulation_config : Option SimulationConfig

pub record KwokClusterStatus : Type 0 where
  pub ready : Bool
  pub provisioned : Option Bool  -- initialization.provisioned
  pub conditions : List String
  pub failure_domains : List String
  pub last_reconcile_duration : ℕ

pub record KwokCluster : Type 0 where
  pub metadata : ObjectMeta
  pub spec : KwokClusterSpec
  pub status : KwokClusterStatus

pub record KwokControlPlaneSpec : Type 0 where
  pub control_plane_endpoint : ApiEndpoint
  pub simulation_config : Option SimulationConfig

pub record KwokControlPlaneStatus : Type 0 where
  pub last_reconcile_duration : ℕ
  pub initialized : Bool
  pub ready : Bool
  pub control_plane_initialized : Option Bool  -- initialization.controlPlaneInitialized

pub record KwokControlPlane : Type 0 where
  pub metadata : ObjectMeta
  pub spec : KwokControlPlaneSpec
  pub status : KwokControlPlaneStatus

pub record KwokConfigSpec : Type 0 where
  pub simulation_config : Option SimulationConfig

pub record KwokConfigStatus : Type 0 where
  pub last_reconcile_duration : ℕ
  pub ready : Bool
  pub data_secret_name : Option String
  pub data_secret_created : Option Bool  -- initialization.dataSecretCreated

pub record KwokConfig : Type 0 where
  pub metadata : ObjectMeta
  pub spec : KwokConfigSpec
  pub status : KwokConfigStatus

-- The finalizers of the API packages.
abbrev pub kwok_machine_finalizer : String
kwok_machine_finalizer = "kwokmachine.infrastructure.cluster.x-k8s.io"

abbrev pub kwok_machine_pool_finalizer : String
kwok_machine_pool_finalizer = "kwokmachinepool.infrastructure.cluster.x-k8s.io"

abbrev pub kwok_cluster_finalizer : String
kwok_cluster_finalizer = "kwokcluster.infrastructure.cluster.x-k8s.io"

abbrev pub kwok_control_plane_finalizer : String
kwok_control_plane_finalizer = "kwok.controleplane.cluster.x-k8s.io"
