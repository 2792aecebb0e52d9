-- ===== src/Machine/Reconcile/Guards.antt =====
-- The guards of `Reconcile` in kwokmachine_controller.go: when it sends nothing.
use cluster_api_provider_kwo.Prelude.{ℕ, ◌≡◌, ◌⊎◌, false, some, arith}
use cluster_api_provider_kwo.Exec.{value}
use cluster_api_provider_kwo.Api.Meta.{NamespacedName}
use cluster_api_provider_kwo.Api.Core.{Cluster, Machine}
use cluster_api_provider_kwo.Api.Kwok.{KwokMachine}
use cluster_api_provider_kwo.Kube.{Kube}
use cluster_api_provider_kwo.Kube.Session.{Sys}
use cluster_api_provider_kwo.Machine.Reconcile.{reconcile}

module _ {W E C : Type 0} (kube : Kube W E C) (fuel : ℕ) where
  -- The object, its owner and its cluster as the calls of `Reconcile` find them, one after another.
  pub record IsActive (req : NamespacedName) (s : Sys W C) : Type 0 where
    pub kwok_machine : KwokMachine
    pub machine : Machine
    pub cluster : Cluster
    pub fetched : (kube.machines.get req s.world).0 ≡ value kwok_machine
    pub owned :
        (kube.owner_machine kwok_machine.metadata (kube.machines.get req s.world).1).0
        ≡ value (some machine)
    pub in_cluster :
        (kube.cluster_of_metadata machine.metadata
          (kube.owner_machine kwok_machine.metadata (kube.machines.get req s.world).1).1).0
        ≡ value cluster
    pub not_paused : kube.is_paused cluster kwok_machine.metadata ≡ false

  -- `Reconcile` sends a write only for an object that exists, has an owner Machine with a cluster, and
  -- is not paused; in every other case, errors of the calls included, it sends none and leaves the
  -- cached clients as they were.
  pub reconcile-IsActive :
      (req : NamespacedName) (s : Sys W C)
      → let t = (reconcile kube fuel req s).1 in
        IsActive req s ⊎ ((t.trace ≡ s.trace) × (t.clients ≡ s.clients))
  unfolding reconcile
  reconcile-IsActive req s = ground arith
