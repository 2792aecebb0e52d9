-- ===== src/MachinePool/Status.antt =====
-- What reconcileNormal in kwokmachinepool_controller.go writes into the pool from the list of its
-- children.
pub mod Collect
use Prim.Native.String.{◌++◌}
use mathlib.Core.List.{◌++◌ as append}
use cluster_api_provider_kwo.Prelude.{
  String, Bool, true, false, ◌&&◌, List, [], ◌∷◌, length, str_eq, if◌then◌else◌,
}
use cluster_api_provider_kwo.Prelude.Int.{ℤ, eqb_int}
use cluster_api_provider_kwo.Api.Core.{Cluster}
use cluster_api_provider_kwo.Api.Kwok.{KwokMachine, KwokMachinePool, kwok_machine_pool_finalizer}
use cluster_api_provider_kwo.Kube.{Kube}

unfoldable pub with_finalizer : {W E C : Type 0} → Kube W E C → KwokMachinePool → KwokMachinePool
with_finalizer kube p = record p {
  metadata = record p.metadata {
    finalizers = (kube.add_finalizer kwok_machine_pool_finalizer p.metadata.finalizers).0;
  };
}

unfoldable pub without_finalizer : {W E C : Type 0} → Kube W E C → KwokMachinePool → KwokMachinePool
without_finalizer kube p = record p {
  metadata = record p.metadata {
    finalizers = kube.remove_finalizer kwok_machine_pool_finalizer p.metadata.finalizers;
  };
}

-- `Status.InfrastructureMachineKind = "KwokMachine"`
unfoldable pub with_machine_kind : KwokMachinePool → KwokMachinePool
with_machine_kind p = record p {
  status = record p.status { infrastructure_machine_kind = "KwokMachine" };
}

-- The loop that builds `providerIDList` and `allProvisioned`.
unfoldable pub collect : List String → Bool → List KwokMachine → List String × Bool
collect ids all [] = (ids, all)
collect ids all (child ∷ children) =
    let unset = str_eq child.spec.provider_id "" in
    collect (if unset then ids else append ids (child.spec.provider_id ∷ []))
      (if unset then false else all) children

-- `fmt.Sprintf("kwok:////%s-pool-%s", cluster.Name, kwokMachinePool.Name)`, unless it is set.
unfoldable pub pool_provider_id : Cluster → KwokMachinePool → String
pool_provider_id cluster p =
    if str_eq p.spec.provider_id ""
    then "kwok:////" ++ cluster.metadata.name ++ "-pool-" ++ p.metadata.name
    else p.spec.provider_id

-- From `kwokMachinePool.Spec.ProviderIDList = …` to `Status.Ready = …`.
unfoldable pub with_children : Cluster → ℤ → List KwokMachine → KwokMachinePool → KwokMachinePool
with_children cluster desired children p =
    let (ids, all_provisioned) = collect [] true children in
    record p {
      spec = record p.spec { provider_id_list = ids; provider_id = pool_provider_id cluster p };
      status = record p.status {
        replicas = length children;
        ready = all_provisioned && eqb_int (length children) desired;
      };
    }
