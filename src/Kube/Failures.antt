-- ===== src/Kube/Failures.antt =====
-- Errors. `raw` is an error of a call outside the repository; a constructor of `Context` stands for
-- each message that the source builds, with the values that it prints.
use cluster_api_provider_kwo.Prelude.{String}

pub data Context : Type 0 where
  init_patch_helper : Context
  -- internal/controller/infrastructure/workload_client.go
  getting_kubeconfig_secret missing_value_key : String → String → Context
  building_rest_config creating_workload_client : Context
  -- internal/controller/infrastructure/kwokmachine_controller.go
  getting_workload_client : Context
  creating_node getting_existing_node updating_node_status ensuring_node_lease : String → Context
  getting_node updating_node_heartbeat updating_node_lease : String → Context
  creating_lease getting_lease updating_lease deleting_node_of_machine : String → Context
  -- internal/controller/infrastructure/kwokmachinepool_controller.go
  listing_children checking_existing relisting_children listing_for_deletion : Context
  creating_child deleting_excess deleting_child : String → Context
  -- internal/controller/infrastructure/kwokcluster_controller.go
  getting_control_plane_ref patching_kwok_cluster : Context
  runtime_not_found : String → Context
  -- internal/controller/controlplane and pkg/scope
  getting_kwok_cluster_ref creating_scope nil_cluster nil_control_plane nil_logger : Context
  -- pkg/services/kwok/cluster
  runtime_not_available starting_cluster : String → Context
  reconciling_kubeconfig reconciling_kind_kubeconfig getting_secret : Context
  creating_kubeconfig_secret creating_kind_kubeconfig_secret creating_secret : Context
  getting_container_ip parsing_kubeconfig serializing serializing_yaml : Context
  loading_kubeconfig creating_http_client no_cluster_entry rewriting_on_disk : Context
  kind_get_kubeconfig loading_kubeconfig_from loading_kwok_kubeconfig : String → Context
  getting_container_ip_for docker_inspect no_ip_address : String → Context
  -- internal/controller/bootstrap/kwokconfig_controller.go
  setting_owner_reference creating_bootstrap_secret patching_kwok_config : Context
  -- version/version.go
  getting_version checking_version : Context
  unsupported_version : String → String → Context

pub data Failure (E : Type 0) : Type 0 where
  raw : E → Failure E
  message : Context → Failure E
  wrap : Context → Failure E → Failure E
