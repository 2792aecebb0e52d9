-- ===== src/KwokConfigs/Mapping.antt =====
-- `machineToBootstrapConfig` and `machinePoolToBootstrapConfig` in kwokconfig_controller.go: which
-- KwokConfig a changed Machine or MachinePool is to be reconciled for.
use cluster_api_provider_kwo.Prelude.{
  String, ◌≡◌, ◌↔◌, true, Option, none, some, List, [], ◌∷◌, ◌&&◌, IsElem, arith, str_eq, eq_iff,
  if◌then◌else◌,
}
use cluster_api_provider_kwo.Api.Meta.{NamespacedName}
use cluster_api_provider_kwo.Api.Core.{ContractRef, Machine, MachinePool}
use cluster_api_provider_kwo.Kube.{Kube}

-- `bootstrapv1alpha1.GroupVersion.Group`
abbrev pub bootstrap_group : String
bootstrap_group = "bootstrap.cluster.x-k8s.io"

module _ {W E C : Type 0} (kube : Kube W E C) where
  -- The checks of the reference, and the request, which the two functions share.
  requests_of_ref : String → ContractRef → List NamespacedName
  requests_of_ref namespace ref =
      if kube.is_defined_ref ref && str_eq ref.api_group bootstrap_group
      then record { namespace = namespace; name = ref.name } ∷ []
      else []

  -- `none` is an object of another type.
  unfoldable pub requests_of_machine : Option Machine → List NamespacedName
  unfolding requests_of_ref
  requests_of_machine none = []
  requests_of_machine (some machine) =
      requests_of_ref machine.metadata.namespace machine.spec.bootstrap.config_ref

  unfoldable pub requests_of_machine_pool : Option MachinePool → List NamespacedName
  unfolding requests_of_ref
  requests_of_machine_pool none = []
  requests_of_machine_pool (some machine_pool) =
      requests_of_ref machine_pool.metadata.namespace
        machine_pool.spec.template.bootstrap.config_ref

  -- The reference is to a KwokConfig of this name, in this namespace.
  abbrev pub RefersToConfig : String → ContractRef → NamespacedName → Type 0
  RefersToConfig namespace ref key =
      (kube.is_defined_ref ref ≡ true)
      × (ref.api_group ≡ bootstrap_group)
      × (key.namespace ≡ namespace)
      × (key.name ≡ ref.name)

  -- A changed Machine, or MachinePool, is mapped to a KwokConfig exactly if its bootstrap reference is
  -- defined, has this provider's group, and is to that object in its own namespace.
  requests-RefersToConfig :
      (machine : Machine) (machine_pool : MachinePool) (key : NamespacedName)
      → (IsElem key (requests_of_machine (some machine))
          ↔ RefersToConfig machine.metadata.namespace machine.spec.bootstrap.config_ref key)
        × (IsElem key (requests_of_machine_pool (some machine_pool))
            ↔ RefersToConfig machine_pool.metadata.namespace
                machine_pool.spec.template.bootstrap.config_ref key)
  unfolding requests_of_machine requests_of_machine_pool
  requests-RefersToConfig machine machine_pool key =
      let machine_group = eq_iff machine.spec.bootstrap.config_ref.api_group bootstrap_group in
      let pool_group =
        eq_iff machine_pool.spec.template.bootstrap.config_ref.api_group bootstrap_group in
      (
        (λ among. ground (arith, machine_group), λ refers. ground (arith, machine_group)),
        (λ among. ground (arith, pool_group), λ refers. ground (arith, pool_group)),
      )
