-- ===== src/Machine/Provision.antt =====
-- `reconcileNormal` of kwokmachine_controller.go: provisions a KwokMachine, or keeps a provisioned
-- one alive.
pub mod Atomic
pub mod Sent
use cluster_api_provider_kwo.Prelude.{
  ℕ, String, true, Option, none, some, [], ◌∷◌, str_eq, if◌then◌else◌,
}
use cluster_api_provider_kwo.Exec.{
  Result, value, error, Exec, pure, raise, attempt, map_err, ◌>>=◌, ◌>>◌,
}
use cluster_api_provider_kwo.Api.Meta.{CtrlResult, done, requeue_after_seconds}
use cluster_api_provider_kwo.Api.Core.{Cluster, Machine, internal_dns}
use cluster_api_provider_kwo.Api.Workload.{Node}
use cluster_api_provider_kwo.Api.Kwok.{KwokMachine, kwok_machine_finalizer}
use cluster_api_provider_kwo.Kube.{
  Kube, Failure, raw, wrap, create_node, update_node_status, creating_node, getting_existing_node,
  updating_node_status, ensuring_node_lease,
}
use cluster_api_provider_kwo.Kube.Session.{
  Sys, Held, query, request, try_request, on_sys, modify, the_object,
}
use cluster_api_provider_kwo.Machine.ProviderId.{provider_id_of}
use cluster_api_provider_kwo.Machine.Node.{kubelet_version, new_node, ready_status}
use cluster_api_provider_kwo.Machine.Lease.{read_clock, ensure_node_lease}
use cluster_api_provider_kwo.Machine.Heartbeat.{cluster_scoped, workload_client, renew_heartbeat}

-- `controllerutil.AddFinalizer` on the object in memory.
unfoldable pub with_finalizer : {W E C : Type 0} → Kube W E C → KwokMachine → KwokMachine
with_finalizer kube m = record m {
  metadata = record m.metadata {
    finalizers = (kube.add_finalizer kwok_machine_finalizer m.metadata.finalizers).0;
  };
}

-- `Status.Initialization.Provisioned = ptr.To(true); Status.Ready = true`
unfoldable pub mark_provisioned : KwokMachine → KwokMachine
mark_provisioned m = record m { status = record m.status { provisioned = some true; ready = true } }

-- What the last lines of a successful provisioning write into the object.
unfoldable pub provisioned : String → KwokMachine → KwokMachine
provisioned node_name m = record m {
  spec = record m.spec { provider_id = provider_id_of node_name };
  status = record m.status {
    provisioned = some true;
    ready = true;
    addresses = record { address_type = internal_dns; address = node_name } ∷ [];
  };
}

module _ {W E C : Type 0} (kube : Kube W E C) where
  -- The node after `Create`: an existing one is fetched.
  after_create_node : C → String → Result E Node → Exec (Sys W C) (Failure E) Node
  after_create_node client node_name (value node) = pure node
  after_create_node client node_name (error e) =
      if kube.is_already_exists e
      then map_err (wrap (getting_existing_node node_name))
          (query ((kube.nodes client).get (cluster_scoped node_name)))
      else raise (wrap (creating_node node_name) (raw e))

  module _ (fuel : ℕ) where
    -- The status of the node, and its lease.
    unfoldable pub report_node : C → Machine → ℕ → Node → Exec (Sys W C) (Failure E) (Unit {0})
    report_node client machine now node = do
      let node_name = machine.metadata.name
      let ready = record node { status = ready_status (kubelet_version machine) now }
      map_err (wrap (updating_node_status node_name))
          (request (update_node_status ready) ((kube.nodes client).update_status ready))
      map_err (wrap (ensuring_node_lease node_name)) (ensure_node_lease kube client node_name fuel)

    unfoldable pub provision_on : C → Machine → Exec (Sys W C) (Failure E) (Unit {0})
    unfolding after_create_node read_clock
    provision_on client machine = do
      let node_name = machine.metadata.name
      now ← read_clock kube
      let wanted = new_node node_name (provider_id_of node_name)
      created ← try_request (create_node wanted) ((kube.nodes client).create wanted)
      node ← after_create_node client node_name created
      report_node client machine now node

    -- All that is done in the workload cluster.
    unfoldable pub provision_node : Cluster → Machine → Exec (Sys W C) (Failure E) (Unit {0})
    provision_node cluster machine =
        workload_client kube cluster >>= λ client. provision_on client machine

    -- The machine waits for the name of the secret with its bootstrap data.
    provision_given :
        Cluster → Machine → Option String → Exec (Held W C KwokMachine) (Failure E) CtrlResult
    provision_given cluster machine none = pure done
    provision_given cluster machine (some _) = do
      on_sys (provision_node cluster machine)
      modify (provisioned machine.metadata.name)
      pure (requeue_after_seconds 30)

    -- The machine has no provider ID yet.
    unfoldable pub provision :
        Cluster → Machine → Exec (Held W C KwokMachine) (Failure E) CtrlResult
    unfolding provision_given
    provision cluster machine =
        provision_given cluster machine machine.spec.bootstrap.data_secret_name

    -- The machine has one: an error of the heartbeat is logged, and no more.
    unfoldable pub keep_alive : Cluster → Exec (Held W C KwokMachine) (Failure E) CtrlResult
    unfolding mark_provisioned
    keep_alive cluster = do
      modify mark_provisioned
      kwok_machine ← the_object
      attempt (on_sys (renew_heartbeat kube fuel cluster kwok_machine))
      pure (requeue_after_seconds 30)

    unfoldable pub reconcile_normal :
        Cluster → Machine → Exec (Held W C KwokMachine) (Failure E) CtrlResult
    unfolding with_finalizer provision keep_alive
    reconcile_normal cluster machine = do
      modify (with_finalizer kube)
      kwok_machine ← the_object
      if str_eq kwok_machine.spec.provider_id ""
          then provision cluster machine
          else keep_alive cluster
