-- ===== src/Api/Workload.antt =====
-- Objects of the simulated workload cluster: nodes and node leases, with the fields that the
-- source writes. Their types are declared outside the repository.
use cluster_api_provider_kwo.Prelude.{ℕ, String, List, Option, Bool}
use cluster_api_provider_kwo.Api.Meta.{ObjectMeta}

pub data ConditionType : Type 0 where
  node_ready memory_pressure disk_pressure pid_pressure network_unavailable : ConditionType

pub record NodeCondition : Type 0 where
  pub condition_type : ConditionType
  pub status : Bool
  pub last_heartbeat_time : ℕ
  pub last_transition_time : ℕ
  pub reason : String
  pub message : String

-- `corev1.ResourceList` at the three resources that the source sets.
pub record ResourceList : Type 0 where
  pub cpu : String
  pub memory : String
  pub pods : String

pub record NodeSystemInfo : Type 0 where
  pub kubelet_version : String
  pub operating_system : String
  pub architecture : String
  pub container_runtime_version : String
  pub kernel_version : String
  pub os_image : String

pub record NodeStatus : Type 0 where
  pub conditions : List NodeCondition
  pub capacity : ResourceList
  pub allocatable : ResourceList
  pub node_info : NodeSystemInfo

pub record Node : Type 0 where
  pub metadata : ObjectMeta
  pub provider_id : String
  pub status : NodeStatus

pub record Lease : Type 0 where
  pub metadata : ObjectMeta
  pub holder_identity : Option String
  pub lease_duration_seconds : Option ℕ
  pub renew_time : Option ℕ
