-- ===== src/MachinePool/Converge/Whole.antt =====
-- How many children a pool has after reconcileNormal in kwokmachinepool_controller.go.
use cluster_api_provider_kwo.Prelude.{
  ℕ, ◌+◌, ◌-◌, ◌≤◌, ◌<◌, ◌^◌, ◌≡◌, refl, Bool, true, ◌&&◌, if◌then◌else◌, String, List, [], length,
  ap, subst, ◌∙◌, sym,
}
use cluster_api_provider_kwo.Prelude.Int.{pos, eqb_int}
use cluster_api_provider_kwo.Exec.{Exec, Outcome, ok}
use cluster_api_provider_kwo.Exec.Inversion.{>>=-of_ok}
use cluster_api_provider_kwo.Api.Core.{Cluster, MachinePool}
use cluster_api_provider_kwo.Api.Kwok.{KwokMachine, KwokMachinePool}
use cluster_api_provider_kwo.Api.Meta.{CtrlResult, done, requeue_after_seconds}
use cluster_api_provider_kwo.Kube.{Kube, Failure}
use cluster_api_provider_kwo.Kube.Session.{Sys, Held, on_sys}
use cluster_api_provider_kwo.MachinePool.Child.{desired_replicas}
use cluster_api_provider_kwo.MachinePool.Status.{collect, with_children}
use cluster_api_provider_kwo.MachinePool.Status.Collect.{all_set, collect_lem}
use cluster_api_provider_kwo.MachinePool.Normal.{scale_children, finish, reconcile_normal}
use cluster_api_provider_kwo.MachinePool.Normal.Reports.{started}
use cluster_api_provider_kwo.MachinePool.Converge.Scaling.{scale_children-converges}
use cluster_api_provider_kwo.MachinePool.Converge.{IsNumberedBelow, IsConsistent}

-- The world has at least `d` and at most `m` children of the pool, and the pool reports their number;
-- it is ready, and the result does not ask for another call, exactly if there are `d` and all of them
-- have a provider ID.
pub record HasReplicas {W C : Type 0} (Holds : List KwokMachine → W → Type 0) (d m : ℕ)
    (h : Held W C KwokMachinePool) (r : CtrlResult) : Type 0 where
  pub children : List KwokMachine
  pub held : Holds children h.sys.world
  pub at_least : d ≤ length children
  pub at_most : length children ≤ m
  pub reported : h.object.status.replicas ≡ length children
  pub reported_ready :
      h.object.status.ready ≡ (all_set children && eqb_int (length children) (pos d))
  pub asks : r ≡ (
      if all_set children && eqb_int (length children) (pos d)
      then done
      else requeue_after_seconds 5)

module _ {W E C : Type 0} (kube : Kube W E C) (cluster : Cluster) (machine_pool : MachinePool) where
  -- What `finish` makes of the children that the second list has.
  finish-HasReplicas :
      {Holds : List KwokMachine → W → Type 0} (d m : ℕ) (children : List KwokMachine)
      (h : Held W C KwokMachinePool)
      → desired_replicas machine_pool ≡ pos d
      → Holds children h.sys.world
      → d ≤ length children
      → length children ≤ m
      → let (o, h') = finish kube cluster machine_pool children h in
        (r : CtrlResult) × (o ≡ ok r) × HasReplicas Holds d m h' r × (h'.sys ≡ h.sys)
  unfolding finish with_children
  finish-HasReplicas d m children h wanted holds low high =
      let all : (collect [] true children).1 ≡ all_set children =
        ap (λ (x : List String × Bool). x.1) (collect_lem [] true children) in
      let ready : ((collect [] true children).1
            && eqb_int (length children) (desired_replicas machine_pool))
          ≡ (all_set children && eqb_int (length children) (pos d)) =
        rw (wanted, all) refl in
      (
        if (collect [] true children).1 && eqb_int (length children) (desired_replicas machine_pool)
            then done
            else requeue_after_seconds 5,
        refl,
        record {
          children = children;
          held = holds;
          at_least = low;
          at_most = high;
          reported = refl;
          reported_ready = ready;
          asks = ap (λ b. if b then done else requeue_after_seconds 5) ready;
        },
        refl,
      )

  -- The normal call scales a pool: where the API server answers, the children are fewer than
  -- `2 ^ 31` and numbered without a gap, and the MachinePool wants `d` of them, the call returns no
  -- error and has sent as many writes as there were too few or too many. From `d` children or fewer the
  -- API server then has exactly `d`; from more it has at least `d` and no more than before, since a
  -- deletion may only mark a child. The status says how many there
  -- are, and the pool is ready, and the call does not ask to be repeated, exactly if there are `d` and
  -- all of them have a provider ID.
  pub reconcile_normal-HasReplicas :
      {Holds : List KwokMachine → W → Type 0} (h : Held W C KwokMachinePool) (d : ℕ)
      (children : List KwokMachine)
      → IsConsistent kube cluster machine_pool (started kube cluster machine_pool h.object) Holds
      → desired_replicas machine_pool ≡ pos d
      → length children < 2 ^ 31
      → Holds children h.sys.world
      → IsNumberedBelow (started kube cluster machine_pool h.object) (length children) children
      → let (o, h') = reconcile_normal kube cluster machine_pool h in
        (r : CtrlResult) × (o ≡ ok r)
        × HasReplicas Holds d (length children + (d - length children)) h' r
        × (length h'.sys.trace
            ≡ length h.sys.trace + ((length children - d) + (d - length children)))
  unfolding reconcile_normal
  reconcile_normal-HasReplicas {Holds} h d children server wanted small holds below =
      let pool = started kube cluster machine_pool h.object in
      let (final, t, ended, holds', low, high, sent) =
        scale_children-converges kube cluster machine_pool pool server d children h.sys wanted small
          holds below in
      let start : Held W C KwokMachinePool = record h { object = pool } in
      let scaled : Exec (Held W C KwokMachinePool) (Failure E) (List KwokMachine) =
        on_sys (scale_children kube cluster machine_pool pool) in
      let step : scaled start ≡ (ok final, record start { sys = t }) =
        ap
          (λ (r : Outcome (Failure E) (List KwokMachine) × Sys W C).
            (r.0, record start { sys = r.1 }))
          ended in
      let (r, good, replicas, quiet) =
        finish-HasReplicas d (length children + (d - length children)) final
          (record start { sys = t }) wanted holds' low high in
      subst
        (λ (x : Outcome (Failure E) CtrlResult × Held W C KwokMachinePool).
          (r : CtrlResult) × (x.0 ≡ ok r)
          × HasReplicas Holds d (length children + (d - length children)) x.1 r
          × (length x.1.sys.trace
              ≡ length h.sys.trace + ((length children - d) + (d - length children))))
        (sym (>>=-of_ok scaled (finish kube cluster machine_pool) start step))
        (r, good, replicas, ap (λ (u : Sys W C). length u.trace) quiet ∙ sent)
