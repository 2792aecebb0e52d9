-- ===== src/MachinePool/Reconcile/Guards.antt =====
-- The guards of `Reconcile` in kwokmachinepool_controller.go: when it sends nothing.
use cluster_api_provider_kwo.Prelude.{◌≡◌, ◌⊎◌, false, some, arith}
use cluster_api_provider_kwo.Exec.{value}
use cluster_api_provider_kwo.Api.Meta.{NamespacedName}
use cluster_api_provider_kwo.Api.Core.{Cluster, MachinePool}
use cluster_api_provider_kwo.Api.Kwok.{KwokMachinePool}
use cluster_api_provider_kwo.Kube.{Kube}
use cluster_api_provider_kwo.Kube.Session.{Sys}
use cluster_api_provider_kwo.MachinePool.Reconcile.{after_owner, after_fetch, reconcile}

module _ {W E C : Type 0} (kube : Kube W E C) where
  -- The pool, its owner and its cluster as the calls of `Reconcile` find them, one after another.
  pub record IsActivePool (req : NamespacedName) (s : Sys W C) : Type 0 where
    pub kwok_pool : KwokMachinePool
    pub machine_pool : MachinePool
    pub cluster : Cluster
    pub fetched : (kube.pools.get req s.world).0 ≡ value kwok_pool
    pub owned :
        (kube.owner_machine_pool kwok_pool.metadata (kube.pools.get req s.world).1).0
        ≡ value (some machine_pool)
    pub in_cluster :
        (kube.cluster_of_metadata machine_pool.metadata
          (kube.owner_machine_pool kwok_pool.metadata (kube.pools.get req s.world).1).1).0
        ≡ value cluster
    pub not_paused : kube.is_paused cluster kwok_pool.metadata ≡ false

  -- `Reconcile` of a pool sends a write only for a pool that exists, has an owner MachinePool with a
  -- cluster, and is not paused; in every other case, errors of the calls included, it sends none.
  pub reconcile-IsActivePool :
      (req : NamespacedName) (s : Sys W C)
      → IsActivePool req s ⊎ ((reconcile kube req s).1.trace ≡ s.trace)
  unfolding reconcile after_fetch after_owner
  reconcile-IsActivePool req s = ground arith
