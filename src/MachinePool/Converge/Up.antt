-- ===== src/MachinePool/Converge/Up.antt =====
-- Scaling up a pool whose children are numbered without a gap.
use cluster_api_provider_kwo.Prelude.{
  ℕ, zero, suc, ◌+◌, ◌≡◌, refl, subst, ◌∙◌, List, ◌∷◌, length, arith,
}
use cluster_api_provider_kwo.Exec.{ok}
use cluster_api_provider_kwo.Exec.Inversion.{>>=-of_ok}
use cluster_api_provider_kwo.Api.Core.{Cluster, MachinePool}
use cluster_api_provider_kwo.Api.Kwok.{KwokMachine, KwokMachinePool}
use cluster_api_provider_kwo.Kube.{Kube, create_machine}
use cluster_api_provider_kwo.Kube.Session.{Sys}
use cluster_api_provider_kwo.MachinePool.Child.{machine_name, new_child}
use cluster_api_provider_kwo.MachinePool.Scale.{
  after_create, create_child, after_check, ensure_child, scale_up,
}
use cluster_api_provider_kwo.MachinePool.Converge.Numbers.{number_is_free, cons-IsNumberedBelow}
use cluster_api_provider_kwo.MachinePool.Converge.{IsNumberedBelow, IsConsistent}

module _ {W E C : Type 0} (kube : Kube W E C) (cluster : Cluster) (machine_pool : MachinePool)
    (pool : KwokMachinePool) {Holds : List KwokMachine → W → Type 0}
    (server : IsConsistent kube cluster machine_pool pool Holds) where
  ensure_child-creates :
      (n : ℕ) (children : List KwokMachine) (s : Sys W C)
      → Holds children s.world
      → IsNumberedBelow pool n children
      → (child : KwokMachine) × (t : Sys W C) × (ensure_child kube cluster machine_pool pool n s
          ≡ (ok tt, t))
        × (child.metadata.name ≡ machine_name pool n)
        × Holds (child ∷ children) t.world
        × (length t.trace ≡ suc (length s.trace))
  unfolding ensure_child create_child after_check after_create
  ensure_child-creates n children s holds below =
      let no_name = number_is_free pool n children below in
      let (e, w, missed, missing, holds') = server.misses children n s.world holds no_name in
      let (child, w', created, name, holds'') = server.creates children n w holds' no_name in
      let t = record s {
        world = w';
        trace = create_machine (new_child kube cluster machine_pool pool n) ∷ s.trace;
      } in
      (child, t, ground arith, name, holds'', refl)

  -- The loop fills the numbers from the first free one on.
  pub scale_up-fills :
      (rounds n : ℕ) (children : List KwokMachine) (s : Sys W C)
      → Holds children s.world
      → length children ≡ n
      → IsNumberedBelow pool n children
      → (filled : List KwokMachine) × (t : Sys W C) × (scale_up kube cluster machine_pool pool
            rounds n s
          ≡ (ok tt, t))
        × Holds filled t.world
        × (length filled ≡ n + rounds)
        × IsNumberedBelow pool (n + rounds) filled
        × (length t.trace ≡ length s.trace + rounds)
  unfolding scale_up
  scale_up-fills zero n children s holds many below = (
    children,
    s,
    refl,
    holds,
    omega (arith, many),
    subst (λ k. IsNumberedBelow pool k children) (omega arith) below,
    omega arith,
  )
  scale_up-fills (suc rounds) n children s holds many below =
      let (child, t, made, name, holds', sent) = ensure_child-creates n children s holds below in
      let (filled, u, rest, holds'', many', below', sent') =
        scale_up-fills rounds (n + 1) (child ∷ children) t holds' (omega (arith, many)) (
          subst (λ k. IsNumberedBelow pool k (child ∷ children)) (omega arith)
            (cons-IsNumberedBelow pool n child children name below)) in
      (
        filled,
        u,
        >>=-of_ok (ensure_child kube cluster machine_pool pool n)
              (λ _. scale_up kube cluster machine_pool pool rounds (n + 1)) s made
            ∙ rest,
        holds'',
        omega (arith, many'),
        subst (λ k. IsNumberedBelow pool k filled) (omega arith) below',
        omega (arith, sent, sent'),
      )
