-- ===== src/Kube/Writes.antt =====
-- The requests by which the program changes something outside its memory. A trace of them, newest
-- first, records each one when it is sent, whether or not it is then refused.
use cluster_api_provider_kwo.Prelude.{String}
use cluster_api_provider_kwo.Prelude.Int.{ℤ}
use cluster_api_provider_kwo.Api.Core.{Secret}
use cluster_api_provider_kwo.Api.Workload.{Node, Lease}
use cluster_api_provider_kwo.Api.Kwok.{
  KwokMachine, KwokMachinePool, KwokCluster, KwokControlPlane, KwokConfig,
}

pub data Write : Type 0 where
  -- in the management cluster
  create_machine delete_machine patch_machine : KwokMachine → Write
  patch_pool : KwokMachinePool → Write
  patch_cluster : KwokCluster → Write
  patch_control_plane : KwokControlPlane → Write
  patch_config : KwokConfig → Write
  create_secret : Secret → Write
  -- in the workload cluster
  create_node update_node_status : Node → Write
  delete_node : String → Write
  create_lease update_lease : Lease → Write
  -- on the host of the controller: the KWOK runtime of a cluster, files, and a timer
  set_config save install up down uninstall : String → Write
  write_file : String → String → Write
  start_timer wait_timer : ℤ → Write
