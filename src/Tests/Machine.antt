-- ===== src/Tests/Machine.antt =====
-- Runs of kwokmachine_controller.go.
use cluster_api_provider_kwo.Prelude.{
  ◌≡◌, ◌≢◌, ◌⊎◌, refl, true, false, some, arith, [], ◌∷◌, eq_iff, String,
}
use cluster_api_provider_kwo.Prelude.Dict.{lookup}
use cluster_api_provider_kwo.Exec.{ok, panic, is_ok, returns}
use cluster_api_provider_kwo.Api.Meta.{NamespacedName, done, requeue_after_seconds}
use cluster_api_provider_kwo.Api.Kwok.{KwokMachine}
use cluster_api_provider_kwo.Kube.Session.{Sys, Held}
use cluster_api_provider_kwo.WorkloadClient.{
  cache_key, build_client, get_client, kubeconfig_secret_name,
}
use cluster_api_provider_kwo.Machine.ProviderId.{
  provider_id_of, node_name_of, node_name_of-provider_id_of,
}
use cluster_api_provider_kwo.Machine.Lease.{ensure_node_lease, new_lease}
use cluster_api_provider_kwo.Machine.Lease.Ends.{
  IsConsistent, IsRenewed, ensure_node_lease-returns, ensure_node_lease-IsRenewed,
}
use cluster_api_provider_kwo.Machine.Provision.{
  with_finalizer, mark_provisioned, provisioned, reconcile_normal, provision_node, provision_on,
  report_node,
}
use cluster_api_provider_kwo.Machine.Provision.Atomic.{provision_atomic}
use cluster_api_provider_kwo.Machine.Provision.Sent.{
  IsProvisionedBy, reconcile_normal-IsProvisionedBy,
}
use cluster_api_provider_kwo.Machine.Heartbeat.Returns.{reconcile_normal-keeps_alive}
use cluster_api_provider_kwo.Machine.Heartbeat.Panic.{short_provider_id_panics}
use cluster_api_provider_kwo.Machine.Delete.{without_finalizer, reconcile_delete}
use cluster_api_provider_kwo.Machine.Delete.Ends.{reconcile_delete-finalizer}
use cluster_api_provider_kwo.Machine.Reconcile.{patched, reconcile, dispatch}
use cluster_api_provider_kwo.Machine.Reconcile.Guards.{IsActive, reconcile-IsActive}
use cluster_api_provider_kwo.Machine.Reconcile.Persisted.{IsPatchedUp, patched-IsPatchedUp}
use cluster_api_provider_kwo.Tests.Fake.{
  World, Target, reachable, gone, fake_kube, start, cached, the_cluster, the_machine, fresh_machine,
  machine_with_id,
}
use cluster_api_provider_kwo.Prelude.Text.{slice_from}
use cluster_api_provider_kwo.Machine.Heartbeat.{workload_client}
use cluster_api_provider_kwo.Machine.Node.{new_node}

node_name_of-provider_id_of_example : node_name_of (provider_id_of "worker") ≡ some "worker"
node_name_of-provider_id_of_example = node_name_of-provider_id_of "worker"

consistent : (client : Target) → IsConsistent fake_kube client "worker"
unfolding new_lease
consistent reachable now w = ground arith
consistent gone now w = λ impossible. refl

ensure_node_lease-returns_example :
    returns (ensure_node_lease fake_kube reachable "worker" 2 start).0 ≡ true
ensure_node_lease-returns_example =
    ensure_node_lease-returns fake_kube reachable "worker" 0 start (consistent reachable)

lease_ok : (ensure_node_lease fake_kube reachable "worker" 2 start).0 ≡ ok tt
unfolding ensure_node_lease
lease_ok = refl

ensure_node_lease-IsRenewed_example :
    IsRenewed fake_kube reachable "worker"
      (ensure_node_lease fake_kube reachable "worker" 2 start).1.trace
ensure_node_lease-IsRenewed_example =
    ensure_node_lease-IsRenewed fake_kube reachable "worker" 2 start lease_ok

abbrev holding_machine : KwokMachine → Held World Target KwokMachine
holding_machine m = record { sys = start; object = m }

named_worker : node_name_of "kwok:////worker" ≡ some "worker"
unfolding node_name_of slice_from
named_worker = refl

given : ◌≢◌ {A = String} "kwok:////worker" ""
given e = absurd (ground (arith, eq_iff "kwok:////worker" ""))

reconcile_normal-keeps_alive_example :
    let h = holding_machine (machine_with_id "kwok:////worker") in
    let (o, h') = reconcile_normal fake_kube 2 the_cluster the_machine h in
    (o ≡ ok (requeue_after_seconds 30))
    × (h'.object ≡ mark_provisioned (with_finalizer fake_kube h.object))
reconcile_normal-keeps_alive_example =
    reconcile_normal-keeps_alive fake_kube 0 "worker" consistent the_cluster the_machine
      (holding_machine (machine_with_id "kwok:////worker")) given named_worker

abbrev broken : Held World Target KwokMachine
broken = record { sys = cached reachable; object = machine_with_id "kwok:" }

given_short : ◌≢◌ {A = String} "kwok:" ""
given_short e = absurd (ground (arith, eq_iff "kwok:" ""))

short_provider_id_panics_example :
    let (o, h') = reconcile_normal fake_kube 2 the_cluster the_machine broken in
    let (o', h'') = reconcile_delete fake_kube the_cluster broken in
    (o ≡ panic)
    × (h'.object ≡ mark_provisioned (with_finalizer fake_kube broken.object))
    × (o' ≡ panic)
    × (h''.object ≡ broken.object)
unfolding lookup cache_key
short_provider_id_panics_example =
    short_provider_id_panics fake_kube 2 the_cluster the_machine broken reachable given_short
      (omega arith) refl

provision_atomic_example :
    let h = holding_machine fresh_machine in
    let (o, h') = reconcile_normal fake_kube 2 the_cluster the_machine h in
    let m = with_finalizer fake_kube h.object in
    ((o ≡ ok (requeue_after_seconds 30)) × (h'.object ≡ provisioned "worker" m))
    ⊎ ((o ≢ ok (requeue_after_seconds 30)) × (h'.object ≡ m))
provision_atomic_example =
    provision_atomic fake_kube 2 the_cluster the_machine (holding_machine fresh_machine) refl

provisions :
    (reconcile_normal fake_kube 2 the_cluster the_machine (holding_machine fresh_machine)).0
    ≡ ok (requeue_after_seconds 30)
unfolding reconcile_normal provision_node workload_client get_client lookup build_client
    kubeconfig_secret_name provision_on report_node new_node ensure_node_lease
provisions = refl

reconcile_normal-IsProvisionedBy_example :
    IsProvisionedBy fake_kube 2 the_cluster the_machine
      (reconcile_normal fake_kube 2 the_cluster the_machine
        (holding_machine fresh_machine)).1.sys.trace
reconcile_normal-IsProvisionedBy_example =
    reconcile_normal-IsProvisionedBy fake_kube 2 the_cluster the_machine
      (holding_machine fresh_machine) refl provisions

abbrev leaving : Target → Held World Target KwokMachine
leaving target = record { sys = cached target; object = machine_with_id "kwok:////worker" }

reconcile_delete-finalizer_example :
    let (o, h') = reconcile_delete fake_kube the_cluster (leaving reachable) in
    ((o ≡ ok done) × (h'.object ≡ without_finalizer fake_kube (leaving reachable).object))
    ⊎ ((is_ok o ≡ false) × (h'.object ≡ (leaving reachable).object))
reconcile_delete-finalizer_example =
    reconcile_delete-finalizer fake_kube the_cluster (leaving reachable)

abbrev stored : Sys World Target
stored = record start { world = record start.world { kwok_machines = fresh_machine ∷ [] } }

reconcile-IsActive_example :
    let req : NamespacedName = record { namespace = "default"; name = "kwok-worker" } in
    let t = (reconcile fake_kube 2 req stored).1 in
    IsActive fake_kube 2 req stored ⊎ ((t.trace ≡ stored.trace) × (t.clients ≡ stored.clients))
reconcile-IsActive_example =
    reconcile-IsActive fake_kube 2 (record { namespace = "default"; name = "kwok-worker" }) stored

persists :
    (patched fake_kube 2 fresh_machine the_cluster the_machine stored).0
    ≡ ok (requeue_after_seconds 30)
unfolding patched dispatch reconcile_normal provision_node workload_client get_client lookup
    build_client kubeconfig_secret_name provision_on report_node new_node ensure_node_lease
    provisioned
persists = refl

patched-IsPatchedUp_example :
    IsPatchedUp fake_kube 2 the_cluster the_machine
      (fake_kube.machines.new_helper fresh_machine stored.world).0
      (patched fake_kube 2 fresh_machine the_cluster the_machine stored).1.trace
patched-IsPatchedUp_example =
    patched-IsPatchedUp fake_kube 2 the_cluster the_machine fresh_machine stored persists
