-- ===== src/Manager.antt =====
-- main.go and pkg/consts/consts.go: the process that runs the controllers, its flags, and what it asks
-- of controller-runtime.
pub mod Registration
pub mod Setup
pub mod Main
pub mod Follows
pub mod Plan
pub mod Ignored
use cluster_api_provider_kwo.Prelude.{ℕ, ◌*◌, String, Bool, false, List, [], ◌∷◌}
use cluster_api_provider_kwo.Prelude.Int.{ℤ, pos}

-- `time.Second` and `time.Minute`: a `time.Duration` counts nanoseconds.
abbrev second : ℕ
second = 1000000000

abbrev minute : ℕ
minute = 60 * second

abbrev pub default_leader_elect_lease_duration : ℤ
default_leader_elect_lease_duration = pos (15 * second)

abbrev pub default_leader_elect_renew_deadline : ℤ
default_leader_elect_renew_deadline = pos (10 * second)

abbrev pub default_leader_elect_retry_period : ℤ
default_leader_elect_retry_period = pos (2 * second)

abbrev pub default_sync_period : ℤ
default_sync_period = pos (10 * minute)

pub record Flags : Type 0 where
  pub metrics_bind_addr : String
  pub enable_leader_election : Bool
  pub leader_election_lease_duration : ℤ
  pub leader_election_renew_deadline : ℤ
  pub leader_election_retry_period : ℤ
  pub watch_filter_value : String
  pub profiler_address : String
  pub sync_period : ℤ
  pub health_addr : String
  pub control_plane_concurrency : ℤ
  pub cluster_concurrency : ℤ
  pub machine_concurrency : ℤ
  pub machine_pool_concurrency : ℤ

-- `initFlags`: the values of the flags that the command line does not name.
abbrev pub init_flags : Flags
init_flags = record {
  metrics_bind_addr = ":8080";
  enable_leader_election = false;
  leader_election_lease_duration = default_leader_elect_lease_duration;
  leader_election_renew_deadline = default_leader_elect_renew_deadline;
  leader_election_retry_period = default_leader_elect_retry_period;
  watch_filter_value = "";
  profiler_address = "";
  sync_period = default_sync_period;
  health_addr = ":9440";
  control_plane_concurrency = pos 1;
  cluster_concurrency = pos 1;
  machine_concurrency = pos 1;
  machine_pool_concurrency = pos 1;
}

-- The packages whose types a scheme knows.
pub data Scheme : Type 0 where
  client_go infrastructure_v1alpha1 controlplane_v1alpha1 bootstrap_v1alpha1 cluster_v1beta2 :
      Scheme

-- `init`
abbrev pub scheme : List Scheme
scheme =
    Scheme.client_go ∷ Scheme.infrastructure_v1alpha1 ∷ Scheme.controlplane_v1alpha1
    ∷ Scheme.bootstrap_v1alpha1 ∷ Scheme.cluster_v1beta2 ∷ []

-- `ctrl.Options`, with the fields that main sets.
pub record ManagerOptions : Type 0 where
  pub schemes : List Scheme
  pub metrics_bind_address : String
  pub leader_election : Bool
  pub leader_election_id : String
  pub lease_duration : ℤ
  pub renew_deadline : ℤ
  pub retry_period : ℤ
  pub cache_sync_period : ℤ
  pub cache_disabled_for : List String
  pub health_probe_bind_address : String

unfoldable pub manager_options : Flags → ManagerOptions
manager_options flags = record {
  schemes = scheme;
  metrics_bind_address = flags.metrics_bind_addr;
  leader_election = flags.enable_leader_election;
  leader_election_id = "kwok-provider.cluster.x-k8s.io";
  lease_duration = flags.leader_election_lease_duration;
  renew_deadline = flags.leader_election_renew_deadline;
  retry_period = flags.leader_election_retry_period;
  cache_sync_period = flags.sync_period;
  cache_disabled_for = "Secret" ∷ "ConfigMap" ∷ [];
  health_probe_bind_address = flags.health_addr;
}
