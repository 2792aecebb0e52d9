-- ===== src/Machine/Heartbeat.antt =====
-- `renewHeartbeat` of kwokmachine_controller.go: renews the heartbeat of the node that a provider ID
-- names.
pub mod Returns
pub mod Panic
use cluster_api_provider_kwo.Prelude.{ℕ, String, Option, none, some, str_eq, if◌then◌else◌}
use cluster_api_provider_kwo.Exec.{
  Result, value, error, Exec, pure, raise, panics, map_err, ◌>>=◌, ◌>>◌,
}
use cluster_api_provider_kwo.Api.Meta.{NamespacedName}
use cluster_api_provider_kwo.Api.Core.{Cluster}
use cluster_api_provider_kwo.Api.Workload.{Node}
use cluster_api_provider_kwo.Api.Kwok.{KwokMachine}
use cluster_api_provider_kwo.Kube.{
  Kube, Failure, raw, wrap, update_node_status, getting_workload_client, getting_node,
  updating_node_heartbeat, updating_node_lease,
}
use cluster_api_provider_kwo.Kube.Session.{Sys, request, try_query}
use cluster_api_provider_kwo.WorkloadClient.{get_client}
use cluster_api_provider_kwo.Machine.ProviderId.{node_name_of}
use cluster_api_provider_kwo.Machine.Node.{beat}
use cluster_api_provider_kwo.Machine.Lease.{read_clock, ensure_node_lease}

-- The key of an object that has no namespace.
abbrev pub cluster_scoped : String → NamespacedName
cluster_scoped name = record { namespace = ""; name = name }

module _ {W E C : Type 0} (kube : Kube W E C) where
  -- `r.WorkloadClients.GetClient` at the cluster's name, namespace and endpoint.
  unfoldable pub workload_client : Cluster → Exec (Sys W C) (Failure E) C
  workload_client cluster = map_err (wrap getting_workload_client) (
      get_client kube cluster.metadata.name cluster.metadata.namespace
        cluster.spec.control_plane_endpoint)

  module _ (fuel : ℕ) where
    -- What follows the `Get` of the node: a node that somebody deleted is no error.
    beat_node : C → String → ℕ → Result E Node → Exec (Sys W C) (Failure E) (Unit {0})
    beat_node client node_name now (error e) =
        if kube.is_not_found e then pure tt else raise (wrap (getting_node node_name) (raw e))
    beat_node client node_name now (value node) = do
      map_err (wrap (updating_node_heartbeat node_name)) (
          request (update_node_status (beat now node))
            ((kube.nodes client).update_status (beat now node)))
      map_err (wrap (updating_node_lease node_name)) (ensure_node_lease kube client node_name fuel)

    beat_on : String → C → Exec (Sys W C) (Failure E) (Unit {0})
    unfolding beat_node read_clock
    beat_on node_name client = do
      now ← read_clock kube
      found ← try_query ((kube.nodes client).get (cluster_scoped node_name))
      beat_node client node_name now found

    beat_named : Cluster → Option String → Exec (Sys W C) (Failure E) (Unit {0})
    unfolding beat_on
    beat_named cluster none = panics
    beat_named cluster (some node_name) = workload_client cluster >>= beat_on node_name

    unfoldable pub renew_heartbeat : Cluster → KwokMachine → Exec (Sys W C) (Failure E) (Unit {0})
    unfolding beat_named
    renew_heartbeat cluster kwok_machine =
        if str_eq kwok_machine.spec.provider_id ""
        then pure tt
        else beat_named cluster (node_name_of kwok_machine.spec.provider_id)
