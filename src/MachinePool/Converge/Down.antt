-- ===== src/MachinePool/Converge/Down.antt =====
-- Scaling down a pool.
use cluster_api_provider_kwo.Prelude.{
  ℕ, zero, suc, ◌+◌, ◌≤◌, ◌≡◌, refl, ap, ◌∙◌, List, [], ◌∷◌, length, take, reverse, arith,
}
use cluster_api_provider_kwo.Exec.{Result, value, error, ok}
use cluster_api_provider_kwo.Exec.Inversion.{>>=-of_ok}
use cluster_api_provider_kwo.Api.Core.{Cluster, MachinePool}
use cluster_api_provider_kwo.Api.Kwok.{KwokMachine, KwokMachinePool}
use cluster_api_provider_kwo.Kube.{Kube, Context, delete_machine, deleting_excess}
use cluster_api_provider_kwo.Kube.Session.{Sys}
use cluster_api_provider_kwo.MachinePool.Scale.{after_delete, delete_child, scale_down}
use cluster_api_provider_kwo.MachinePool.Scale.Down.{delete_each, scale_down_last, length-reverse}
use cluster_api_provider_kwo.MachinePool.Delete.Waits.{IsDeletedOrGone}
use cluster_api_provider_kwo.MachinePool.Converge.{IsConsistent}

module _ {W E C : Type 0} (kube : Kube W E C) (cluster : Cluster) (machine_pool : MachinePool)
    (pool : KwokMachinePool) {Holds : List KwokMachine → W → Type 0}
    (server : IsConsistent kube cluster machine_pool pool Holds) where
  after_delete-returns :
      (context : Context) (r : Result E (Unit {0})) (s : Sys W C)
      → IsDeletedOrGone kube r
      → after_delete kube context r s ≡ (ok tt, s)
  unfolding after_delete
  after_delete-returns context (value a) s good = refl
  after_delete-returns context (error e) s good = rw good refl

  delete_child-deletes :
      (child : KwokMachine) (children : List KwokMachine) (s : Sys W C)
      → Holds children s.world
      → (rest : List KwokMachine) × (t : Sys W C) × (delete_child kube deleting_excess child s
          ≡ (ok tt, t))
        × Holds rest t.world
        × (length rest ≤ length children)
        × (length children ≤ suc (length rest))
        × (length t.trace ≡ suc (length s.trace))
  unfolding delete_child
  delete_child-deletes child children s holds =
      let (good, (rest, holds', fewer, most)) = server.deletes children child s.world holds in
      let (r, w) = kube.machines.delete child s.world in
      let t = record s { world = w; trace = delete_machine child ∷ s.trace } in
      (
        rest,
        t,
        after_delete-returns (deleting_excess child.metadata.name) r t good,
        holds',
        fewer,
        most,
        refl,
      )

  -- Each deletion leaves as many children, or one less.
  delete_each-leaves :
      (items children : List KwokMachine) (s : Sys W C)
      → Holds children s.world
      → (left : List KwokMachine) × (t : Sys W C) × (delete_each kube items s ≡ (ok tt, t))
        × Holds left t.world
        × (length left ≤ length children)
        × (length children ≤ length left + length items)
        × (length t.trace ≡ length s.trace + length items)
  delete_each-leaves [] children s holds =
      (children, s, refl, holds, omega arith, omega arith, omega arith)
  delete_each-leaves (item ∷ items) children s holds =
      let (rest, t, deleted, holds', fewer, most, sent) =
        delete_child-deletes item children s holds in
      let (left, u, ended, holds'', fewer', most', sent') =
        delete_each-leaves items rest t holds' in
      (
        left,
        u,
        >>=-of_ok (delete_child kube deleting_excess item) (λ _. delete_each kube items) s deleted
            ∙ ended,
        holds'',
        omega (arith, fewer, fewer'),
        omega (arith, most, most'),
        omega (arith, sent, sent'),
      )

  length-take : (n : ℕ) (items : List KwokMachine) → n ≤ length items → length (take n items) ≡ n
  length-take zero items h = refl
  length-take (suc n) [] h = absurd (omega arith)
  length-take (suc n) (x ∷ items) h = ap suc (length-take n items (omega arith))

  pub scale_down-leaves :
      (rounds : ℕ) (items : List KwokMachine) (s : Sys W C)
      → Holds items s.world
      → rounds ≤ length items
      → (left : List KwokMachine) × (t : Sys W C) × (scale_down kube items rounds 0 s ≡ (ok tt, t))
        × Holds left t.world
        × (length left ≤ length items)
        × (length items ≤ length left + rounds)
        × (length t.trace ≡ length s.trace + rounds)
  scale_down-leaves rounds items s holds h =
      let (left, t, done, holds', fewer, most, sent) =
        delete_each-leaves (take rounds (reverse items)) items s holds in
      let many = length-take rounds (reverse items) (omega (arith, length-reverse items)) in
      (
        left,
        t,
        scale_down_last kube items rounds s h ∙ done,
        holds',
        fewer,
        omega (arith, most, many),
        omega (arith, sent, many),
      )
