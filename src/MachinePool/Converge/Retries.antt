-- ===== src/MachinePool/Converge/Retries.antt =====
-- A pool of kwokmachinepool_controller.go that is reconciled again and again, while calls fail and
-- after they do no longer.
use cluster_api_provider_kwo.Prelude.{
  ℕ, String, ◌+◌, ◌-◌, ◌≤◌, ◌<◌, ◌^◌, ◌≡◌, refl, sym, subst, ◌∙◌, List, length, IsElem, arith,
}
use cluster_api_provider_kwo.Prelude.Int.{pos}
use cluster_api_provider_kwo.Exec.{ok}
use cluster_api_provider_kwo.Api.Core.{Cluster, MachinePool}
use cluster_api_provider_kwo.Api.Kwok.{KwokMachine, KwokMachinePool}
use cluster_api_provider_kwo.Api.Meta.{CtrlResult}
use cluster_api_provider_kwo.Kube.{Kube}
use cluster_api_provider_kwo.Kube.Session.{Held}
use cluster_api_provider_kwo.MachinePool.Child.{machine_name, desired_replicas}
use cluster_api_provider_kwo.MachinePool.Status.{with_finalizer, with_machine_kind}
use cluster_api_provider_kwo.MachinePool.Normal.{reconcile_normal}
use cluster_api_provider_kwo.MachinePool.Normal.Reports.{started}
use cluster_api_provider_kwo.MachinePool.Converge.{IsNumberedBelow, IsConsistent}
use cluster_api_provider_kwo.MachinePool.Converge.Faults.{IsFaithful, IsGapless, IsGapless-widen}
use cluster_api_provider_kwo.MachinePool.Converge.Gapless.{reconcile_normal-IsGapless}
use cluster_api_provider_kwo.MachinePool.Converge.Whole.{HasReplicas, reconcile_normal-HasReplicas}

-- As many machines, with names of the others: what else they say may be different.
abbrev pub HaveNamesOf : List KwokMachine → List KwokMachine → Type 0
HaveNamesOf children others =
    (length others ≡ length children)
    × ((other : KwokMachine)
        → IsElem other others
        → (child : KwokMachine) × IsElem child children
          × (other.metadata.name ≡ child.metadata.name))

-- The names of the children depend on nothing of the pool but its name.
rename_pool :
    (p q : KwokMachinePool) (n : ℕ) (children : List KwokMachine)
    → p.metadata.name ≡ q.metadata.name
    → IsNumberedBelow p n children
    → IsNumberedBelow q n children
unfolding machine_name
rename_pool p q n children same below child has =
    let (i, less, name) = below child has in (i, less, cc (name, same))

rename-IsGapless :
    {W : Type 0} {Holds : List KwokMachine → W → Type 0} {n m : ℕ} {w : W} (p q : KwokMachinePool)
    → p.metadata.name ≡ q.metadata.name
    → IsGapless p Holds n m w
    → IsGapless q Holds n m w
rename-IsGapless p q same gapless = record {
  children = gapless.children;
  held = gapless.held;
  numbered = rename_pool p q (length gapless.children) gapless.children same gapless.numbered;
  at_least = gapless.at_least;
  at_most = gapless.at_most;
}

module _ {W E C : Type 0} (kube : Kube W E C) (cluster : Cluster) (machine_pool : MachinePool)
    (Holds : List KwokMachine → W → Type 0) where
  -- Any number of calls for the pool of this name, each with the object as the call was given it,
  -- and between them whatever rewrites the pool's children, without making or removing one.
  pub data Retried (name : String) (w : W) : W → Type 0 where
    no_call : Retried name w w
    call :
        (h : Held W C KwokMachinePool)
        → Retried name w h.sys.world
        → h.object.metadata.name ≡ name
        → IsFaithful kube cluster machine_pool (started kube cluster machine_pool h.object) Holds
        → Retried name w (reconcile_normal kube cluster machine_pool h).1.sys.world
    meanwhile :
        {v u : W}
        → Retried name w v
        → ((children : List KwokMachine)
            → Holds children v
            → (others : List KwokMachine) × Holds others u × HaveNamesOf children others)
        → Retried name w u

  Retried-IsGapless :
      {w : W} {n d : ℕ} (pool : KwokMachinePool) {v : W}
      → desired_replicas machine_pool ≡ pos d
      → IsGapless pool Holds n d w
      → Retried pool.metadata.name w v
      → IsGapless pool Holds n d v
  unfolding with_finalizer with_machine_kind
  Retried-IsGapless pool wanted gapless no_call = gapless
  Retried-IsGapless {n} {d} pool wanted gapless (call h before same server) =
      let g = Retried-IsGapless pool wanted gapless before in
      let begun = started kube cluster machine_pool h.object in
      IsGapless-widen pool g.at_least (omega arith) (
        rename-IsGapless begun pool same (
          reconcile_normal-IsGapless kube cluster machine_pool h d g.children server wanted
            g.at_most g.held
            (rename_pool pool begun (length g.children) g.children (sym same) g.numbered)))
  Retried-IsGapless pool wanted gapless (meanwhile before keeps) =
      let g = Retried-IsGapless pool wanted gapless before in
      let (others, holds, (many, named)) = keeps g.children g.held in
      record {
        children = others;
        held = holds;
        numbered = λ other has.
            let (child, has', same) = named other has in
            let (i, less, name) = g.numbered child has' in
            (i, omega (arith, many, less), same ∙ name);
        at_least = omega (arith, many, g.at_least);
        at_most = omega (arith, many, g.at_most);
      }

module _ {W E C : Type 0} (flaky kube : Kube W E C) (cluster : Cluster)
    (machine_pool : MachinePool) where
  -- Failures only delay the scaling up of a pool: where the MachinePool wants `d` children, fewer than
  -- `2 ^ 31`, and the pool has at most as many, numbered without a gap, any number of calls may be
  -- made while the API server fails, ending in errors or not, as long as it answers nothing that is
  -- wrong, and between the calls the children may be rewritten, as their own controller does, as long
  -- as nothing else makes, removes or renames one; the next call at an API server that answers
  -- returns no error and leaves exactly `d` children, which the status says.
  pub next_call-HasReplicas :
      {Holds : List KwokMachine → W → Type 0} (h : Held W C KwokMachinePool) (d : ℕ)
      (children : List KwokMachine) (w : W)
      → desired_replicas machine_pool ≡ pos d
      → d < 2 ^ 31
      → length children ≤ d
      → Holds children w
      → IsNumberedBelow h.object (length children) children
      → Retried flaky cluster machine_pool Holds h.object.metadata.name w h.sys.world
      → IsConsistent kube cluster machine_pool (started kube cluster machine_pool h.object) Holds
      → let (o, h') = reconcile_normal kube cluster machine_pool h in
        (r : CtrlResult) × (o ≡ ok r) × HasReplicas Holds d d h' r
  unfolding with_finalizer with_machine_kind
  next_call-HasReplicas {Holds} h d children w wanted small few holds below retried server =
      let begun = started kube cluster machine_pool h.object in
      let g =
        Retried-IsGapless flaky cluster machine_pool Holds {n = length children} h.object wanted
          (record {
            children = children;
            held = holds;
            numbered = below;
            at_least = omega arith;
            at_most = few;
          })
          retried in
      let none_missing : length g.children + (d - length g.children) ≡ d =
        omega (arith, g.at_most) in
      let (r, good, replicas, _) =
        reconcile_normal-HasReplicas kube cluster machine_pool h d g.children server wanted
          (omega (arith, g.at_most, small)) g.held
          (rename_pool h.object begun (length g.children) g.children refl g.numbered) in
      let h' = (reconcile_normal kube cluster machine_pool h).1 in
      (r, good, subst (λ m. HasReplicas Holds d m h' r) none_missing replicas)
