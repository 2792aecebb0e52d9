-- ===== src/Machine/Node.antt =====
-- The Node that the reconciler of a KwokMachine creates, and the status that it gives it
-- (reconcileNormal, from `node := &corev1.Node` to `node.Status = …`).
use cluster_api_provider_kwo.Prelude.{
  ℕ, String, Bool, true, false, List, [], ◌∷◌, map, str_eq, if◌then◌else◌,
}
use cluster_api_provider_kwo.Api.Meta.{named}
use cluster_api_provider_kwo.Api.Core.{Machine}
use cluster_api_provider_kwo.Api.Workload.{
  ConditionType, node_ready, memory_pressure, disk_pressure, pid_pressure, network_unavailable,
  NodeCondition, ResourceList, NodeStatus, Node,
}

-- The version of the Machine, or the default.
unfoldable pub kubelet_version : Machine → String
kubelet_version machine = if str_eq machine.spec.version "" then "v1.31.0" else machine.spec.version

unfoldable pub no_resources : ResourceList
no_resources = record { cpu = ""; memory = ""; pods = "" }

-- A status that a struct literal leaves at Go's zero values.
unfoldable pub zero_status : NodeStatus
unfolding no_resources
zero_status = record {
  conditions = [];
  capacity = no_resources;
  allocatable = no_resources;
  node_info = record {
    kubelet_version = "";
    operating_system = "";
    architecture = "";
    container_runtime_version = "";
    kernel_version = "";
    os_image = "";
  };
}

unfoldable pub new_node : String → String → Node
new_node node_name provider_id = record {
  metadata = record (named "" node_name) {
    annotations = ("kwok.x-k8s.io/node", "fake") ∷ [];
    labels = ("type", "kwok") ∷ [];
  };
  provider_id = provider_id;
  status = zero_status;
}

unfoldable pub condition : ConditionType → Bool → ℕ → String → String → NodeCondition
condition t status now reason message = record {
  condition_type = t;
  status = status;
  last_heartbeat_time = now;
  last_transition_time = now;
  reason = reason;
  message = message;
}

unfoldable pub ready_conditions : ℕ → List NodeCondition
unfolding condition
ready_conditions now =
    condition node_ready true now "KwokNodeReady" "kwok node is ready"
    ∷ condition memory_pressure false now "KwokNodeHasNoMemoryPressure"
        "kwok node has no memory pressure"
    ∷ condition disk_pressure false now "KwokNodeHasNoDiskPressure" "kwok node has no disk pressure"
    ∷ condition pid_pressure false now "KwokNodeHasNoPIDPressure" "kwok node has no PID pressure"
    ∷ condition network_unavailable false now "KwokNodeNetworkAvailable"
        "kwok node network is available"
    ∷ []

unfoldable pub node_resources : ResourceList
node_resources = record { cpu = "8"; memory = "32Gi"; pods = "110" }

unfoldable pub ready_status : String → ℕ → NodeStatus
unfolding ready_conditions node_resources
ready_status version now = record {
  conditions = ready_conditions now;
  capacity = node_resources;
  allocatable = node_resources;
  node_info = record {
    kubelet_version = version;
    operating_system = "linux";
    architecture = "arm64";
    container_runtime_version = "kwok://fake";
    kernel_version = "5.15.0-fake";
    os_image = "Fake KWOK OS";
  };
}

-- `for i := range node.Status.Conditions { …LastHeartbeatTime = now }`
unfoldable pub beat : ℕ → Node → Node
beat now node = record node {
  status = record node.status {
    conditions =
        map (λ (c : NodeCondition). record c { last_heartbeat_time = now }) node.status.conditions;
  };
}
