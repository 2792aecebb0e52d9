-- ===== src/MachinePool/Child.antt =====
-- The child KwokMachines of a pool: their names, labels and objects.
pub mod Names
use Prim.Native.String.{◌++◌}
use cluster_api_provider_kwo.Prelude.{ℕ, String, false, none, some, List, [], ◌∷◌}
use cluster_api_provider_kwo.Prelude.Text.{decimal}
use cluster_api_provider_kwo.Prelude.Int.{ℤ, pos}
use cluster_api_provider_kwo.Api.Meta.{named, OwnerReference, NamespacedName}
use cluster_api_provider_kwo.Api.Core.{Cluster, MachinePool}
use cluster_api_provider_kwo.Api.Kwok.{KwokMachine, KwokMachinePool}
use cluster_api_provider_kwo.Kube.{Kube}

-- `infrav1.GroupVersion.String()`
abbrev pub group_version : String
group_version = "infrastructure.cluster.x-k8s.io/v1alpha1"

-- `fmt.Sprintf("%s-%d", kwokMachinePool.Name, i)`
unfoldable pub machine_name : KwokMachinePool → ℕ → String
machine_name pool i = pool.metadata.name ++ "-" ++ decimal i

unfoldable pub child_key : KwokMachinePool → ℕ → NamespacedName
child_key pool i = record { namespace = pool.metadata.namespace; name = machine_name pool i }

-- `desiredReplicas`: one if the MachinePool says nothing.
unfoldable pub desired_replicas : MachinePool → ℤ
desired_replicas machine_pool = elim machine_pool.spec.replicas [ none ↦ pos 1 | some n ↦ n ]

unfoldable pub owner_of_child : KwokMachinePool → OwnerReference
owner_of_child pool = record {
  api_version = group_version;
  kind = "KwokMachinePool";
  name = pool.metadata.name;
  uid = pool.metadata.uid;
}

module _ {W E C : Type 0} (kube : Kube W E C) where
  -- `client.MatchingLabels{…}` of the two lists in reconcileNormal, and the labels of a child.
  unfoldable pub child_labels : Cluster → MachinePool → List (String × String)
  child_labels cluster machine_pool =
      (kube.cluster_name_label, cluster.metadata.name)
      ∷ (kube.machine_pool_name_label, machine_pool.metadata.name)
      ∷ []

  -- The KwokMachine that reconcileNormal creates under the name with number `i`.
  unfoldable pub new_child : Cluster → MachinePool → KwokMachinePool → ℕ → KwokMachine
  unfolding child_labels owner_of_child
  new_child cluster machine_pool pool i = record {
    metadata = record (named pool.metadata.namespace (machine_name pool i)) {
      labels = child_labels cluster machine_pool;
      owner_references = owner_of_child pool ∷ [];
    };
    spec = pool.spec.template_spec;
    status = record { provisioned = none; addresses = []; conditions = []; ready = false };
  }
