-- ===== src/MachinePool/Normal/Gap.antt =====
-- A pool of kwokmachinepool_controller.go whose children have a gap in their numbers.
use cluster_api_provider_kwo.Prelude.{
  ℕ, zero, suc, ◌+◌, ◌-◌, ◌≤◌, ◌<◌, ◌≡◌, refl, sym, ap, subst, ◌∙◌, List, true, false, arith,
  length, String,
}
use cluster_api_provider_kwo.Prelude.Int.{pos, ltb_int, int_ltb}
use cluster_api_provider_kwo.Exec.{value, Result, Exec, Outcome, ok, map_err_outcome, pure, ◌>>=◌}
use cluster_api_provider_kwo.Exec.Inversion.{>>=-of_ok}
use cluster_api_provider_kwo.Api.Meta.{CtrlResult, requeue_after_seconds, NamespacedName}
use cluster_api_provider_kwo.Api.Core.{Cluster, MachinePool}
use cluster_api_provider_kwo.Api.Kwok.{KwokMachine, KwokMachinePool}
use cluster_api_provider_kwo.Kube.{
  Kube, Failure, Context, wrap, listing_children, relisting_children,
}
use cluster_api_provider_kwo.Kube.Session.{Sys, Held, raw_outcome, on_sys}
use cluster_api_provider_kwo.MachinePool.Child.{child_key, child_labels, desired_replicas}
use cluster_api_provider_kwo.MachinePool.Scale.{after_check, ensure_child, scale_up, scale}
use cluster_api_provider_kwo.MachinePool.Status.{with_children}
use cluster_api_provider_kwo.MachinePool.Normal.{
  list_children, scale_children, finish, reconcile_normal,
}
use cluster_api_provider_kwo.MachinePool.Normal.Reports.{started}

module _ {W E C : Type 0} (kube : Kube W E C) (cluster : Cluster) (machine_pool : MachinePool) where
  -- In the worlds of `P`, which reading does not leave, the pool has `n` children and wants `d`, which
  -- are more; but each of the names with the numbers from `n` on is taken already.
  pub record IsGap (P : W → Type 0) (pool : KwokMachinePool) (n d : ℕ) : Type 0 where
    pub kept_by_get : (key : NamespacedName) (w : W) → P w → P (kube.machines.get key w).1
    pub kept_by_list :
        (namespace : String) (labels : List (String × String)) (w : W)
        → P w
        → P (kube.machines.list namespace labels w).1
    pub listed :
        (w : W)
        → P w
        → (items : List KwokMachine) × ((kube.machines.list pool.metadata.namespace
              (child_labels kube cluster machine_pool)
              w).0
            ≡ value items)
          × (length items ≡ n)
    pub taken :
        (j : ℕ) (w : W)
        → P w
        → n ≤ j
        → j < d
        → (m : KwokMachine) × ((kube.machines.get (child_key pool j) w).0 ≡ value m)
    pub wanted : desired_replicas machine_pool ≡ pos d
    pub fewer : n < d

  module _ {P : W → Type 0} (pool : KwokMachinePool) {n d : ℕ} (gap : IsGap P pool n d) where
    scale_up-taken :
        (rounds i : ℕ) (s : Sys W C)
        → P s.world
        → n ≤ i
        → i + rounds ≤ d
        → (w : W) × P w
          × (scale_up kube cluster machine_pool pool rounds i s ≡ (ok tt, record s { world = w }))
    unfolding scale_up ensure_child after_check
    scale_up-taken zero i s p h k = (s.world, p, refl)
    scale_up-taken (suc rounds) i s p h k =
        let (m, found) = gap.taken i s.world p h (omega arith) in
        let t = record s { world = (kube.machines.get (child_key pool i) s.world).1 } in
        let (w, q, e) =
          scale_up-taken rounds (i + 1) t (gap.kept_by_get (child_key pool i) s.world p)
            (omega arith) (omega arith) in
        let step : ensure_child kube cluster machine_pool pool i s ≡ (ok tt, t) =
          ap (λ r. after_check kube cluster machine_pool pool i r t) found in
        (
          w,
          q,
          >>=-of_ok (ensure_child kube cluster machine_pool pool i)
                (λ _. scale_up kube cluster machine_pool pool rounds (i + 1)) s step
              ∙ e,
        )

    scale-taken :
        (items : List KwokMachine) (s : Sys W C)
        → length items ≡ n
        → P s.world
        → (w : W) × P w
          × (scale kube cluster machine_pool pool (pos d) items s ≡ (ok tt, record s { world = w }))
    unfolding scale
    scale-taken items s h p =
        let rounds = d - length items in
        let fewer = gap.fewer in
        let below : ltb_int (length items) (pos d) ≡ true = ground arith in
        let not_above : int_ltb (pos d) (length items) ≡ false = ground arith in
        let (w, q, e) = scale_up-taken rounds (length items) s p (omega arith) (omega arith) in
        (
          w,
          q,
          rw (below, not_above)
              (>>=-of_ok (scale_up kube cluster machine_pool pool rounds (length items))
                (λ _. pure tt) s e),
        )

    list_children-listed :
        (context : Context) (s : Sys W C)
        → P s.world
        → (items : List KwokMachine) × (w : W) × P w
          × (length items ≡ n)
          × (list_children kube cluster machine_pool context pool s
              ≡ (ok items, record s { world = w }))
    unfolding list_children
    list_children-listed context s p =
        let (items, e, many) = gap.listed s.world p in
        let labels = child_labels kube cluster machine_pool in
        let (_, w) = kube.machines.list pool.metadata.namespace labels s.world in
        (
          items,
          w,
          gap.kept_by_list pool.metadata.namespace labels s.world p,
          many,
          ap
              (λ (r : Result E (List KwokMachine)).
                (map_err_outcome (wrap context) (raw_outcome r), record s { world = w }))
              e,
        )

    scale_children-taken :
        (s : Sys W C)
        → P s.world
        → (items : List KwokMachine) × (w : W) × P w
          × (length items ≡ n)
          × (scale_children kube cluster machine_pool pool s ≡ (ok items, record s { world = w }))
    unfolding scale_children
    scale_children-taken s p =
        let desired = desired_replicas machine_pool in
        let list = list_children kube cluster machine_pool listing_children pool in
        let again = list_children kube cluster machine_pool relisting_children pool in
        let scaled =
          λ (items : List KwokMachine). scale kube cluster machine_pool pool desired items in
        let (items, w, q, many, listed) = list_children-listed listing_children s p in
        let t = record s { world = w } in
        let (w', q', e) = scale-taken items t many q in
        let e' = ap (λ z. scale kube cluster machine_pool pool z items t) gap.wanted ∙ e in
        let (items', w'', q'', many', relisted) =
          list_children-listed relisting_children (record s { world = w' }) q' in
        (
          items',
          w'',
          q'',
          many',
          >>=-of_ok list (λ items. scaled items >>= λ _. again) s listed
              ∙ >>=-of_ok (scaled items) (λ _. again) t e'
              ∙ relisted,
        )

    finish-short :
        (items : List KwokMachine) (h : Held W C KwokMachinePool)
        → length items ≡ n
        → (finish kube cluster machine_pool items h).0 ≡ ok (requeue_after_seconds 5)
    unfolding finish with_children
    finish-short items h many = let fewer = gap.fewer in rw gap.wanted (ground arith)

  -- A gap in the numbers of a pool's children is never filled: where a pool has fewer children than it
  -- wants, and each name that the loop tries is taken by one of them, the call creates and deletes
  -- nothing and asks to be called again after 5 seconds; and since it does not leave the worlds where
  -- this is so, every later call does the same.
  pub gap_never_filled :
      {P : W → Type 0} (n d : ℕ) (h : Held W C KwokMachinePool)
      → IsGap P (started kube cluster machine_pool h.object) n d
      → P h.sys.world
      → let (o, h') = reconcile_normal kube cluster machine_pool h in
        (o ≡ ok (requeue_after_seconds 5)) × (h'.sys.trace ≡ h.sys.trace) × P h'.sys.world
  unfolding reconcile_normal finish
  gap_never_filled {P} n d h gap p =
      let pool = started kube cluster machine_pool h.object in
      let (items, w, q, many, e) = scale_children-taken pool gap h.sys p in
      let start : Held W C KwokMachinePool = record h { object = pool } in
      let t = record start { sys = record h.sys { world = w } } in
      let scaled : Exec (Held W C KwokMachinePool) (Failure E) (List KwokMachine) =
        on_sys (scale_children kube cluster machine_pool pool) in
      let step : scaled start ≡ (ok items, t) =
        ap
          (λ (r : Outcome (Failure E) (List KwokMachine) × Sys W C).
            (r.0, record start { sys = r.1 }))
          e in
      subst
        (λ (r : Outcome (Failure E) CtrlResult × Held W C KwokMachinePool).
          (r.0 ≡ ok (requeue_after_seconds 5)) × (r.1.sys.trace ≡ h.sys.trace) × P r.1.sys.world)
        (sym (>>=-of_ok scaled (finish kube cluster machine_pool) start step))
        (finish-short pool gap items t many, refl, q)
