-- ===== src/Machine/Delete.antt =====
-- `reconcileDelete` of the machine controller: deletes the node of a machine that is being deleted,
-- as far as the workload cluster can be reached, and lets the machine go.
pub mod Ends
use cluster_api_provider_kwo.Prelude.{String, Option, none, some, str_eq, if◌then◌else◌}
use cluster_api_provider_kwo.Exec.{
  Result, value, error, Exec, pure, raise, panics, attempt, ◌>>=◌, ◌>>◌,
}
use cluster_api_provider_kwo.Api.Meta.{CtrlResult, done, named}
use cluster_api_provider_kwo.Api.Core.{Cluster}
use cluster_api_provider_kwo.Api.Workload.{Node}
use cluster_api_provider_kwo.Api.Kwok.{KwokMachine, kwok_machine_finalizer}
use cluster_api_provider_kwo.Kube.{Kube, Failure, raw, wrap, delete_node, deleting_node_of_machine}
use cluster_api_provider_kwo.Kube.Session.{Sys, Held, try_request, on_sys, modify, the_object}
use cluster_api_provider_kwo.WorkloadClient.{get_client}
use cluster_api_provider_kwo.Machine.ProviderId.{node_name_of}
use cluster_api_provider_kwo.Machine.Node.{zero_status}

-- `controllerutil.RemoveFinalizer` on the object in memory.
unfoldable pub without_finalizer : {W E C : Type 0} → Kube W E C → KwokMachine → KwokMachine
without_finalizer kube m = record m {
  metadata = record m.metadata {
    finalizers = kube.remove_finalizer kwok_machine_finalizer m.metadata.finalizers;
  };
}

-- `&corev1.Node{ObjectMeta: metav1.ObjectMeta{Name: nodeName}}`
abbrev pub node_named : String → Node
unfolding zero_status
node_named node_name = record {
  metadata = named "" node_name;
  provider_id = "";
  status = zero_status;
}

module _ {W E C : Type 0} (kube : Kube W E C) where
  after_delete : String → Result E (Unit {0}) → Exec (Sys W C) (Failure E) (Unit {0})
  after_delete node_name (value _) = pure tt
  after_delete node_name (error e) =
      if kube.is_not_found e
      then pure tt
      else raise (wrap (deleting_node_of_machine node_name) (raw e))

  unfoldable pub delete_named : C → String → Exec (Sys W C) (Failure E) (Unit {0})
  unfolding after_delete
  delete_named client node_name =
      try_request (delete_node node_name) ((kube.nodes client).delete (node_named node_name))
      >>= after_delete node_name

  -- The node name that the provider ID gives: the slice may panic, and the name may be empty.
  delete_of_name : C → Option String → Exec (Sys W C) (Failure E) (Unit {0})
  delete_of_name client none = panics
  delete_of_name client (some node_name) =
      if str_eq node_name "" then pure tt else delete_named client node_name

  delete_node_at : C → String → Exec (Sys W C) (Failure E) (Unit {0})
  unfolding delete_of_name
  delete_node_at client provider_id =
      if str_eq provider_id "" then pure tt else delete_of_name client (node_name_of provider_id)

  -- An error of `GetClient` is logged, and the node is left to the cluster's own end.
  delete_node_of : KwokMachine → Result (Failure E) C → Exec (Sys W C) (Failure E) (Unit {0})
  unfolding delete_node_at
  delete_node_of kwok_machine (error _) = pure tt
  delete_node_of kwok_machine (value client) = delete_node_at client kwok_machine.spec.provider_id

  -- Behind the call of `GetClient`.
  unfoldable pub delete_with :
      Result (Failure E) C → Exec (Held W C KwokMachine) (Failure E) CtrlResult
  unfolding delete_node_of without_finalizer
  delete_with client = do
    kwok_machine ← the_object
    on_sys (delete_node_of kwok_machine client)
    modify (without_finalizer kube)
    pure done

  unfoldable pub reconcile_delete : Cluster → Exec (Held W C KwokMachine) (Failure E) CtrlResult
  reconcile_delete cluster =
      attempt (
        on_sys (
          get_client kube cluster.metadata.name cluster.metadata.namespace
            cluster.spec.control_plane_endpoint))
      >>= delete_with
