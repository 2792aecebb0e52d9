-- ===== src/MachinePool/Converge.antt =====
-- What an API server is taken to do with the children of one pool of kwokmachinepool_controller.go,
-- where it answers every call.
mod Numbers
mod Up
mod Down
mod Scaling
pub mod Faults
pub mod Gapless
pub mod Whole
pub mod Retries
use cluster_api_provider_kwo.Prelude.{
  ℕ, suc, ◌≤◌, ◌<◌, String, ◌≡◌, true, List, ◌∷◌, length, IsElem,
}
use cluster_api_provider_kwo.Exec.{value, error}
use cluster_api_provider_kwo.Api.Core.{Cluster, MachinePool}
use cluster_api_provider_kwo.Api.Kwok.{KwokMachine, KwokMachinePool}
use cluster_api_provider_kwo.Kube.{Kube}
use cluster_api_provider_kwo.MachinePool.Delete.Waits.{IsDeletedOrGone}
use cluster_api_provider_kwo.MachinePool.Child.{child_labels, child_key, machine_name, new_child}

abbrev pub HasName : KwokMachinePool → ℕ → List KwokMachine → Type 0
HasName pool i children =
    (child : KwokMachine) × IsElem child children × (child.metadata.name ≡ machine_name pool i)

-- Every child has a number below `n`.
abbrev pub IsNumberedBelow : KwokMachinePool → ℕ → List KwokMachine → Type 0
IsNumberedBelow pool n children =
    (child : KwokMachine)
    → IsElem child children
    → (i : ℕ) × (i < n) × (child.metadata.name ≡ machine_name pool i)

-- `Holds children w`: in the world `w` the API server has these children of the pool and no others.
-- It lists them in any order; it knows no object under a name that none of them has, and creates one
-- there. A deletion is accepted, or the object is gone already; after it the child may be gone, or, since
-- it has finalizers, be marked and there still, so that there are as many children or one less.
pub record IsConsistent {W E C : Type 0} (kube : Kube W E C) (cluster : Cluster)
    (machine_pool : MachinePool) (pool : KwokMachinePool) (Holds : List KwokMachine → W → Type 0)
    : Type 0 where
  pub lists :
      (children : List KwokMachine) (w : W)
      → Holds children w
      → (items : List KwokMachine) × (w' : W) × (kube.machines.list pool.metadata.namespace
            (child_labels kube cluster machine_pool)
            w
          ≡ (value items, w'))
        × Holds items w'
        × (length items ≡ length children)
        × ((child : KwokMachine) → IsElem child items → IsElem child children)
  pub misses :
      (children : List KwokMachine) (i : ℕ) (w : W)
      → Holds children w
      → ¬ HasName pool i children
      → (e : E) × (w' : W) × (kube.machines.get (child_key pool i) w ≡ (error e, w'))
        × (kube.is_not_found e ≡ true)
        × Holds children w'
  pub creates :
      (children : List KwokMachine) (i : ℕ) (w : W)
      → Holds children w
      → ¬ HasName pool i children
      → (child : KwokMachine) × (w' : W) × (kube.machines.create
            (new_child kube cluster machine_pool pool i)
            w
          ≡ (value child, w'))
        × (child.metadata.name ≡ machine_name pool i)
        × Holds (child ∷ children) w'
  pub deletes :
      (children : List KwokMachine) (child : KwokMachine) (w : W)
      → Holds children w
      → let (r, w') = kube.machines.delete child w in
        IsDeletedOrGone kube r
        × ((rest : List KwokMachine) × Holds rest w'
            × (length rest ≤ length children)
            × (length children ≤ suc (length rest)))
