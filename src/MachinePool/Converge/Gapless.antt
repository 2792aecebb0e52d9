-- ===== src/MachinePool/Converge/Gapless.antt =====
-- No failure of a call makes reconcileNormal in kwokmachinepool_controller.go leave a gap in the
-- numbers of a pool's children while it scales up.
use native.Mathlib.Decide.{dec_lt}
use cluster_api_provider_kwo.Prelude.{
  ℕ, ◌+◌, ◌-◌, ◌≤◌, ◌≡◌, subst, sym, true, false, List, length, ltb, arith,
}
use cluster_api_provider_kwo.Prelude.Int.{pos}
use cluster_api_provider_kwo.Exec.{Exec, pure, ◌>>=◌}
use cluster_api_provider_kwo.Exec.Inversion.{continue-keeps, map_err_outcome-eq_ok}
use cluster_api_provider_kwo.Api.Core.{Cluster, MachinePool}
use cluster_api_provider_kwo.Api.Kwok.{KwokMachine, KwokMachinePool}
use cluster_api_provider_kwo.Kube.{Kube, Failure, listing_children, relisting_children}
use cluster_api_provider_kwo.Kube.Session.{Sys, Held, on_sys, raw_outcome-eq_ok}
use cluster_api_provider_kwo.MachinePool.Child.{desired_replicas, child_labels}
use cluster_api_provider_kwo.MachinePool.Scale.{scale, scale_up}
use cluster_api_provider_kwo.MachinePool.Normal.{
  list_children, scale_children, finish, reconcile_normal,
}
use cluster_api_provider_kwo.MachinePool.Normal.Reports.{started}
use cluster_api_provider_kwo.MachinePool.Converge.{IsNumberedBelow}
use cluster_api_provider_kwo.MachinePool.Converge.Faults.{
  IsFaithful, IsGapless, IsGapless-widen, scale_up-IsGapless,
}

module _ {W E C : Type 0} (kube : Kube W E C) (cluster : Cluster) (machine_pool : MachinePool)
    (pool : KwokMachinePool) {Holds : List KwokMachine → W → Type 0}
    (server : IsFaithful kube cluster machine_pool pool Holds) where
  lists-IsGapless :
      {n m : ℕ} (w : W)
      → IsGapless pool Holds n m w
      → IsGapless pool Holds n m
          (kube.machines.list pool.metadata.namespace (child_labels kube cluster machine_pool) w).1
  lists-IsGapless w gapless = record {
    children = gapless.children;
    held = (server.lists gapless.children w gapless.held).0;
    numbered = gapless.numbered;
    at_least = gapless.at_least;
    at_most = gapless.at_most;
  }

  scale-IsGapless :
      (n d : ℕ) (items : List KwokMachine) (s : Sys W C)
      → length items ≡ n
      → n ≤ d
      → IsGapless pool Holds n n s.world
      → IsGapless pool Holds n d (scale kube cluster machine_pool pool (pos d) items s).1.world
  unfolding scale
  scale-IsGapless n d items s many few gapless =
      let not_above : ltb d (length items + 0) ≡ false = ground arith in
      elim (dec_lt (length items) d) [
        | yes fewer ↦
            let is_below : ltb (length items) d ≡ true = ground arith in
            let up = scale_up kube cluster machine_pool pool (d - length items) (length items) in
            let (o, t) = up s in
            let start = subst (λ k. IsGapless pool Holds k k s.world) (sym many) gapless in
            let reached : IsGapless pool Holds n d t.world =
              IsGapless-widen pool (omega (arith, many)) (omega (arith, fewer)) (
                scale_up-IsGapless kube cluster machine_pool pool server (d - length items)
                  (length items) s start) in
            rw (is_below, not_above)
              (continue-keeps (λ u. IsGapless pool Holds n d u.world) o (λ _. pure tt) t reached
                (λ _ _. reached))
        | no enough ↦
            let not_below : ltb (length items) d ≡ false = ground arith in
            rw (not_below, not_above) (IsGapless-widen pool (omega arith) few gapless)
      ]

  scale_children-IsGapless :
      (n d : ℕ) (s : Sys W C)
      → desired_replicas machine_pool ≡ pos d
      → n ≤ d
      → IsGapless pool Holds n n s.world
      → IsGapless pool Holds n d (scale_children kube cluster machine_pool pool s).1.world
  unfolding scale_children list_children
  scale_children-IsGapless n d s wanted few gapless =
      let again = list_children kube cluster machine_pool relisting_children pool in
      let scaled = λ (items : List KwokMachine).
        scale kube cluster machine_pool pool (desired_replicas machine_pool) items in
      let (o, t) = list_children kube cluster machine_pool listing_children pool s in
      let listed = lists-IsGapless s.world gapless in
      let after_scale = λ (items : List KwokMachine) (many : length items ≡ n).
        let (o', u) = scaled items t in
        let reached : IsGapless pool Holds n d u.world =
          subst
            (λ z. IsGapless pool Holds n d (scale kube cluster machine_pool pool z items t).1.world)
            (sym wanted) (scale-IsGapless n d items t many few listed) in
        continue-keeps (λ v. IsGapless pool Holds n d v.world) o' (λ _. again) u reached
          (λ _ _. lists-IsGapless u.world reached) in
      continue-keeps (λ v. IsGapless pool Holds n d v.world) o
        (λ items. scaled items >>= λ _. again) t (IsGapless-widen pool (omega arith) few listed)
        (λ items good.
          let many =
            (server.lists gapless.children s.world gapless.held).1 items
              (raw_outcome-eq_ok _ (map_err_outcome-eq_ok _ _ good)) in
          after_scale items (omega (arith, many, gapless.at_least, gapless.at_most)))

module _ {W E C : Type 0} (kube : Kube W E C) (cluster : Cluster) (machine_pool : MachinePool) where
  -- No failure leaves a gap in the numbers of the children while a pool scales up: where the API
  -- server may answer any call with an error, and may even have made a child whose creation it
  -- reports as failed, but answers nothing that is wrong, and the MachinePool wants at least as many
  -- children as there are, numbered without a gap, then however the normal call ends the children are
  -- numbered without a gap, no fewer than before and no more than are wanted.
  pub reconcile_normal-IsGapless :
      {Holds : List KwokMachine → W → Type 0} (h : Held W C KwokMachinePool) (d : ℕ)
      (children : List KwokMachine)
      → IsFaithful kube cluster machine_pool (started kube cluster machine_pool h.object) Holds
      → desired_replicas machine_pool ≡ pos d
      → length children ≤ d
      → Holds children h.sys.world
      → IsNumberedBelow (started kube cluster machine_pool h.object) (length children) children
      → IsGapless
          (started kube cluster machine_pool h.object)
          Holds
          (length children)
          d
          (reconcile_normal kube cluster machine_pool h).1.sys.world
  unfolding reconcile_normal finish
  reconcile_normal-IsGapless {Holds} h d children server wanted few holds below =
      let pool = started kube cluster machine_pool h.object in
      let start : Held W C KwokMachinePool = record h { object = pool } in
      let scaled : Exec (Held W C KwokMachinePool) (Failure E) (List KwokMachine) =
        on_sys (scale_children kube cluster machine_pool pool) in
      let (o, t) = scaled start in
      let reached =
        scale_children-IsGapless kube cluster machine_pool pool server (length children) d h.sys
          wanted few
          (record {
            children = children;
            held = holds;
            numbered = below;
            at_least = omega arith;
            at_most = omega arith;
          }) in
      continue-keeps
        (λ (u : Held W C KwokMachinePool). IsGapless pool Holds (length children) d u.sys.world) o
        (finish kube cluster machine_pool) t reached (λ _ _. reached)
