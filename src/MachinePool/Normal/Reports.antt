-- ===== src/MachinePool/Normal/Reports.antt =====
-- What a successful reconcileNormal in kwokmachinepool_controller.go reports.
use cluster_api_provider_kwo.Prelude.{
  ◌≡◌, sym, subst, ◌&&◌, List, [], true, arith, length, if◌then◌else◌,
}
use cluster_api_provider_kwo.Prelude.Int.{eqb_int}
use cluster_api_provider_kwo.Exec.{value, Exec, Outcome, ok, ◌>>=◌}
use cluster_api_provider_kwo.Exec.Inversion.{>>=-eq_ok, map_err_outcome-eq_ok, ok-injective}
use cluster_api_provider_kwo.Api.Meta.{CtrlResult, done, requeue_after_seconds}
use cluster_api_provider_kwo.Api.Core.{Cluster, MachinePool}
use cluster_api_provider_kwo.Api.Kwok.{KwokMachine, KwokMachinePool}
use cluster_api_provider_kwo.Kube.{Kube, Failure, listing_children, relisting_children}
use cluster_api_provider_kwo.Kube.Session.{Sys, Held, raw_outcome-eq_ok, on_sys}
use cluster_api_provider_kwo.MachinePool.Child.{child_labels, desired_replicas}
use cluster_api_provider_kwo.MachinePool.Scale.{scale}
use cluster_api_provider_kwo.MachinePool.Status.{with_finalizer, with_machine_kind, with_children}
use cluster_api_provider_kwo.MachinePool.Status.Collect.{provider_ids, all_set, collect_lem}
use cluster_api_provider_kwo.MachinePool.Normal.{
  list_children, scale_children, finish, reconcile_normal,
}

module _ {W E C : Type 0} (kube : Kube W E C) (cluster : Cluster) (machine_pool : MachinePool) where
  -- The API server answered a list of the pool's children with these.
  abbrev pub IsListed : KwokMachinePool → List KwokMachine → Type 0
  IsListed pool children =
      (w : W) × ((kube.machines.list pool.metadata.namespace
          (child_labels kube cluster machine_pool) w).0
        ≡ value children)

  list_children-IsListed :
      (pool : KwokMachinePool) (s : Sys W C) {children : List KwokMachine}
      → (list_children kube cluster machine_pool relisting_children pool s).0 ≡ ok children
      → IsListed pool children
  unfolding list_children
  list_children-IsListed pool s h = (s.world, raw_outcome-eq_ok _ (map_err_outcome-eq_ok _ _ h))

  scale_children-IsListed :
      (pool : KwokMachinePool) (s : Sys W C) {children : List KwokMachine}
      → (scale_children kube cluster machine_pool pool s).0 ≡ ok children
      → IsListed pool children
  unfolding scale_children
  scale_children-IsListed pool s h =
      let list = list_children kube cluster machine_pool listing_children pool in
      let again = list_children kube cluster machine_pool relisting_children pool in
      let scaled = λ (items : List KwokMachine).
        scale kube cluster machine_pool pool (desired_replicas machine_pool) items in
      let (items, _, _, h') = >>=-eq_ok list (λ items. scaled items >>= λ _. again) s h in
      let (_, _, _, h'') = >>=-eq_ok (scaled items) (λ _. again) (list s).1 h' in
      list_children-IsListed pool (scaled items (list s).1).1 h''

  -- The pool that the call found, with the finalizer and the machine kind.
  abbrev pub started : KwokMachinePool → KwokMachinePool
  started pool = with_machine_kind (with_finalizer kube pool)

  -- What the status says of the children.
  pub record IsReported (children : List KwokMachine) (p : KwokMachinePool) (r : CtrlResult)
      : Type 0 where
    pub ids : p.spec.provider_id_list ≡ provider_ids children
    pub replicas : p.status.replicas ≡ length children
    pub ready :
        p.status.ready
        ≡ (all_set children && eqb_int (length children) (desired_replicas machine_pool))
    pub requeue : r ≡ (if p.status.ready then done else requeue_after_seconds 5)

  with_children-IsReported :
      (children : List KwokMachine) (p : KwokMachinePool)
      → let p' = with_children cluster (desired_replicas machine_pool) children p in
        IsReported children p' (if p'.status.ready then done else requeue_after_seconds 5)
  unfolding with_children
  with_children-IsReported children p = ground (arith, collect_lem [] true children)

  finish-IsReported :
      (children : List KwokMachine) (h : Held W C KwokMachinePool) (r : CtrlResult)
      → (finish kube cluster machine_pool children h).0 ≡ ok r
      → IsReported children (finish kube cluster machine_pool children h).1.object r
  unfolding finish
  finish-IsReported children h r e =
      subst
        (λ (r : CtrlResult).
          IsReported children (finish kube cluster machine_pool children h).1.object r)
        (ok-injective e) (with_children-IsReported children h.object)

  -- If the normal call on a pool returns no error, then the API server listed children of the pool,
  -- and the pool reports them: the provider IDs that are set, in order; their number; ready exactly if
  -- every one has a provider ID and they are as many as desired. The call asks to be called again
  -- after 5 seconds exactly if the pool is not ready.
  pub reconcile_normal-IsReported :
      (h : Held W C KwokMachinePool) {r : CtrlResult}
      → (reconcile_normal kube cluster machine_pool h).0 ≡ ok r
      → (children : List KwokMachine) × IsListed (started h.object) children
        × IsReported children (reconcile_normal kube cluster machine_pool h).1.object r
  unfolding reconcile_normal
  reconcile_normal-IsReported h {r} e =
      let h' : Held W C KwokMachinePool = record h { object = started h.object } in
      let scaled : Exec (Held W C KwokMachinePool) (Failure E) (List KwokMachine) =
        on_sys (scale_children kube cluster machine_pool (started h.object)) in
      let (children, listed, same, e') = >>=-eq_ok scaled (finish kube cluster machine_pool) h' e in
      (
        children,
        scale_children-IsListed (started h.object) h.sys listed,
        subst
            (λ (x : Outcome (Failure E) CtrlResult × Held W C KwokMachinePool).
              IsReported children x.1.object r)
            (sym same) (finish-IsReported children (scaled h').1 r e'),
      )
