-- ===== src/MachinePool/Converge/Scaling.antt =====
-- The list, the scaling and the second list in reconcileNormal of kwokmachinepool_controller.go.
use native.Mathlib.Decide.{dec_lt}
use cluster_api_provider_kwo.Prelude.{
  ℕ, ◌+◌, ◌-◌, ◌≤◌, ◌<◌, ◌^◌, ◌≡◌, refl, true, false, List, length, IsElem, ltb, arith, ap, subst,
  sym, ◌∙◌,
}
use cluster_api_provider_kwo.Prelude.Int.{pos}
use cluster_api_provider_kwo.Exec.{ok, pure, ◌>>=◌}
use cluster_api_provider_kwo.Exec.Inversion.{>>=-of_ok}
use cluster_api_provider_kwo.Api.Core.{Cluster, MachinePool}
use cluster_api_provider_kwo.Api.Kwok.{KwokMachine, KwokMachinePool}
use cluster_api_provider_kwo.Kube.{Kube, Context, listing_children, relisting_children}
use cluster_api_provider_kwo.Kube.Session.{Sys}
use cluster_api_provider_kwo.MachinePool.Child.{desired_replicas}
use cluster_api_provider_kwo.MachinePool.Normal.{list_children, scale_children}
use cluster_api_provider_kwo.MachinePool.Scale.{scale, scale_up, scale_down, rounds_down}
use cluster_api_provider_kwo.MachinePool.Scale.Bounds.{rounds_down-excess}
use cluster_api_provider_kwo.MachinePool.Converge.{IsNumberedBelow, IsConsistent}
use cluster_api_provider_kwo.MachinePool.Converge.Up.{scale_up-fills}
use cluster_api_provider_kwo.MachinePool.Converge.Down.{scale_down-leaves}

module _ {W E C : Type 0} (kube : Kube W E C) (cluster : Cluster) (machine_pool : MachinePool)
    (pool : KwokMachinePool) {Holds : List KwokMachine → W → Type 0}
    (server : IsConsistent kube cluster machine_pool pool Holds) where
  scale_converges :
      (d : ℕ) (items : List KwokMachine) (s : Sys W C)
      → length items < 2 ^ 31
      → Holds items s.world
      → IsNumberedBelow pool (length items) items
      → (final : List KwokMachine) × (t : Sys W C) × (scale kube cluster machine_pool pool
            (pos d)
            items
            s
          ≡ (ok tt, t))
        × Holds final t.world
        × (d ≤ length final)
        × (length final ≤ length items + (d - length items))
        × (length t.trace ≡ length s.trace + ((length items - d) + (d - length items)))
  unfolding scale
  scale_converges d items s small holds below = elim (dec_lt (length items) d) [
    | yes fewer ↦
        let n = length items in
        let (filled, t, ended, holds', many, _, sent) =
          scale_up-fills kube cluster machine_pool pool server (d - n) n items s holds refl below in
        let is_below : ltb n d ≡ true = ground arith in
        let not_above : ltb d (n + 0) ≡ false = ground arith in
        (
          filled,
          t,
          rw (is_below, not_above)
              (>>=-of_ok (scale_up kube cluster machine_pool pool (d - n) n) (λ _. pure tt) s
                ended),
          holds',
          omega (arith, many, fewer),
          omega (arith, many, fewer),
          omega (arith, sent, fewer),
        )
    | no enough ↦ elim (dec_lt d (length items)) [
      | yes more ↦
          let n = length items in
          let (left, t, ended, holds', few, most, sent) =
            scale_down-leaves kube cluster machine_pool pool server (n - d) items s holds
              (omega arith) in
          let not_below : ltb n d ≡ false = ground arith in
          let is_above : ltb d (n + 0) ≡ true = ground arith in
          let rounds : rounds_down kube n (pos d) ≡ n - d =
            rounds_down-excess kube n (pos d) (omega arith) small (omega arith) ∙ ground arith in
          (
            left,
            t,
            rw (not_below, is_above) (ap (λ k. scale_down kube items k 0 s) rounds ∙ ended),
            holds',
            omega (arith, most, more),
            omega (arith, few),
            omega (arith, sent, more),
          )
      | no same ↦
          let n = length items in
          let not_below : ltb n d ≡ false = ground arith in
          let not_above : ltb d (n + 0) ≡ false = ground arith in
          (
            items,
            s,
            rw (not_below, not_above) refl,
            holds,
            omega (arith, enough, same),
            omega arith,
            omega (arith, enough, same),
          )
    ]
  ]

  list_children-Holds :
      (context : Context) (children : List KwokMachine) (s : Sys W C)
      → Holds children s.world
      → (items : List KwokMachine) × (t : Sys W C) × (list_children kube cluster machine_pool
            context pool s
          ≡ (ok items, t))
        × Holds items t.world
        × (length items ≡ length children)
        × ((child : KwokMachine) → IsElem child items → IsElem child children)
        × (length t.trace ≡ length s.trace)
  unfolding list_children
  list_children-Holds context children s holds =
      let (items, w, listed, holds', many, among) = server.lists children s.world holds in
      (items, record s { world = w }, ground arith, holds', many, among, refl)

  pub scale_children-converges :
      (d : ℕ) (children : List KwokMachine) (s : Sys W C)
      → desired_replicas machine_pool ≡ pos d
      → length children < 2 ^ 31
      → Holds children s.world
      → IsNumberedBelow pool (length children) children
      → (final : List KwokMachine) × (t : Sys W C) × (scale_children kube cluster machine_pool pool
            s
          ≡ (ok final, t))
        × Holds final t.world
        × (d ≤ length final)
        × (length final ≤ length children + (d - length children))
        × (length t.trace ≡ length s.trace + ((length children - d) + (d - length children)))
  unfolding scale_children
  scale_children-converges d children s wanted small holds below =
      let list = list_children kube cluster machine_pool listing_children pool in
      let again = list_children kube cluster machine_pool relisting_children pool in
      let scaled = λ (items : List KwokMachine).
        scale kube cluster machine_pool pool (desired_replicas machine_pool) items in
      let (items, t, listed, holds', many, among, quiet) =
        list_children-Holds listing_children children s holds in
      let below' =
        λ (child : KwokMachine) (has : IsElem child items). below child (among child has) in
      let (middle, u, ended, holds'', low, high, sent) =
        scale_converges d items t (omega (arith, many, small)) holds'
          (subst (λ n. IsNumberedBelow pool n items) (sym many) below') in
      let ended' = ap (λ z. scale kube cluster machine_pool pool z items t) wanted ∙ ended in
      let (final, v, relisted, kept, many'', _, quiet') =
        list_children-Holds relisting_children middle u holds'' in
      (
        final,
        v,
        >>=-of_ok list (λ items. scaled items >>= λ _. again) s listed
            ∙ >>=-of_ok (scaled items) (λ _. again) t ended'
            ∙ relisted,
        kept,
        omega (arith, many'', low),
        omega (arith, many'', many, high),
        omega (arith, quiet, quiet', sent, many),
      )
