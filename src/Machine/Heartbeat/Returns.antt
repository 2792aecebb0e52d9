-- ===== src/Machine/Heartbeat/Returns.antt =====
-- `renewHeartbeat` of kwokmachine_controller.go returns, and so a provisioned machine stays alive.
use cluster_api_provider_kwo.Prelude.{ℕ, suc, String, ◌≡◌, ◌≢◌, true, some, arith, eq_iff}
use cluster_api_provider_kwo.Exec.{Result, value, error, ok, returns, Exec, map_err}
use cluster_api_provider_kwo.Exec.Returns.{returns->>=, returns-map_err}
use cluster_api_provider_kwo.Api.Core.{Cluster, Machine}
use cluster_api_provider_kwo.Api.Workload.{Node}
use cluster_api_provider_kwo.Api.Kwok.{KwokMachine}
use cluster_api_provider_kwo.Kube.{
  Kube, Failure, wrap, update_node_status, updating_node_heartbeat, updating_node_lease,
}
use cluster_api_provider_kwo.Kube.Session.{Sys, Held, request}
use cluster_api_provider_kwo.WorkloadClient.Cache.{get_client-returns}
use cluster_api_provider_kwo.Machine.Node.{beat}
use cluster_api_provider_kwo.Machine.ProviderId.{node_name_of}
use cluster_api_provider_kwo.Machine.Lease.{ensure_node_lease}
use cluster_api_provider_kwo.Machine.Lease.Ends.{IsConsistent, ensure_node_lease-returns}
use cluster_api_provider_kwo.Machine.Heartbeat.{
  workload_client, beat_node, beat_on, beat_named, renew_heartbeat,
}
use cluster_api_provider_kwo.Machine.Provision.{mark_provisioned, with_finalizer, reconcile_normal}
use cluster_api_provider_kwo.Api.Meta.{requeue_after_seconds}

module _ {W E C : Type 0} (kube : Kube W E C) where
  workload_client-returns :
      (cluster : Cluster) (s : Sys W C) → returns (workload_client kube cluster s).0 ≡ true
  unfolding workload_client
  workload_client-returns cluster s = returns-map_err _ _ (
      get_client-returns kube cluster.metadata.name cluster.metadata.namespace
        cluster.spec.control_plane_endpoint s)

  module _ (fuel : ℕ) (node_name : String)
      (consistent : (client : C) → IsConsistent kube client node_name) where
    beat_node-returns :
        (client : C) (now : ℕ) (r : Result E Node) (s : Sys W C)
        → returns (beat_node kube (suc (suc fuel)) client node_name now r s).0 ≡ true
    unfolding beat_node
    beat_node-returns client now (error e) s = ground arith
    beat_node-returns client now (value node) s =
        let send : Exec (Sys W C) (Failure E) (Unit {0}) =
          map_err (wrap (updating_node_heartbeat node_name)) (
            request (update_node_status (beat now node))
              ((kube.nodes client).update_status (beat now node))) in
        let renew : Exec (Sys W C) (Failure E) (Unit {0}) =
          map_err (wrap (updating_node_lease node_name))
            (ensure_node_lease kube client node_name (suc (suc fuel))) in
        returns->>= send (λ _. renew) s (ground arith)
          (λ _.
            returns-map_err _ _
              (ensure_node_lease-returns kube client node_name fuel _ (consistent client)))

    beat_named-returns :
        (cluster : Cluster) (s : Sys W C)
        → returns (beat_named kube (suc (suc fuel)) cluster (some node_name) s).0 ≡ true
    unfolding beat_named
    beat_named-returns cluster s =
        returns->>= (workload_client kube cluster) (beat_on kube (suc (suc fuel)) node_name) s
          (workload_client-returns cluster s) (λ client. beat_node-returns client _ _ _)

    pub renew_heartbeat-returns :
        (cluster : Cluster) (m : KwokMachine) (s : Sys W C)
        → node_name_of m.spec.provider_id ≡ some node_name
        → returns (renew_heartbeat kube (suc (suc fuel)) cluster m s).0 ≡ true
    unfolding renew_heartbeat
    renew_heartbeat-returns cluster m s named =
        rw named (ground (arith, beat_named-returns cluster s))

    -- A machine whose provider ID names a node is kept alive whatever the workload cluster does: with
    -- a consistent API server for leases and fuel for two starts, the call returns no error, asks to be
    -- called again after 30 seconds, and leaves the object with the finalizer, marked as ready and
    -- provisioned, and otherwise as it was.
    pub reconcile_normal-keeps_alive :
        (cluster : Cluster) (machine : Machine) (h : Held W C KwokMachine)
        → h.object.spec.provider_id ≢ ""
        → node_name_of h.object.spec.provider_id ≡ some node_name
        → let (o, h') = reconcile_normal kube (suc (suc fuel)) cluster machine h in
          (o ≡ ok (requeue_after_seconds 30))
          × (h'.object ≡ mark_provisioned (with_finalizer kube h.object))
    unfolding reconcile_normal
    reconcile_normal-keeps_alive cluster machine h given named =
        let m = mark_provisioned (with_finalizer kube h.object) in
        ground (
          arith,
          eq_iff h.object.spec.provider_id "",
          renew_heartbeat-returns cluster m h.sys named,
        )
