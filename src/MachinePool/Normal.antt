-- ===== src/MachinePool/Normal.antt =====
-- reconcileNormal in kwokmachinepool_controller.go.
pub mod Reports
pub mod Gap
use cluster_api_provider_kwo.Prelude.{List, if◌then◌else◌}
use cluster_api_provider_kwo.Exec.{Exec, pure, map_err, ◌>>=◌, ◌>>◌}
use cluster_api_provider_kwo.Api.Meta.{CtrlResult, done, requeue_after_seconds}
use cluster_api_provider_kwo.Api.Core.{Cluster, MachinePool}
use cluster_api_provider_kwo.Api.Kwok.{KwokMachine, KwokMachinePool}
use cluster_api_provider_kwo.Kube.{
  Kube, Failure, Context, wrap, listing_children, relisting_children,
}
use cluster_api_provider_kwo.Kube.Session.{Sys, Held, query, on_sys, modify, the_object}
use cluster_api_provider_kwo.MachinePool.Child.{child_labels, desired_replicas}
use cluster_api_provider_kwo.MachinePool.Scale.{scale}
use cluster_api_provider_kwo.MachinePool.Status.{with_finalizer, with_machine_kind, with_children}

module _ {W E C : Type 0} (kube : Kube W E C) (cluster : Cluster) (machine_pool : MachinePool) where
  -- `r.List(ctx, childKwokMachines, …)`
  unfoldable pub list_children :
      Context → KwokMachinePool → Exec (Sys W C) (Failure E) (List KwokMachine)
  list_children context pool =
      map_err (wrap context) (
        query (kube.machines.list pool.metadata.namespace (child_labels kube cluster machine_pool)))

  -- The list, the scaling, and the list that the status is made from.
  unfoldable pub scale_children : KwokMachinePool → Exec (Sys W C) (Failure E) (List KwokMachine)
  unfolding list_children
  scale_children pool = do
    children ← list_children listing_children pool
    scale kube cluster machine_pool pool (desired_replicas machine_pool) children
    list_children relisting_children pool

  -- Behind the second list: the status, and whether to be called again.
  unfoldable pub finish : List KwokMachine → Exec (Held W C KwokMachinePool) (Failure E) CtrlResult
  finish children = do
    modify (with_children cluster (desired_replicas machine_pool) children)
    updated ← the_object
    pure (if updated.status.ready then done else requeue_after_seconds 5)

  unfoldable pub reconcile_normal : Exec (Held W C KwokMachinePool) (Failure E) CtrlResult
  unfolding with_finalizer with_machine_kind
  reconcile_normal = do
    modify (with_finalizer kube)
    modify with_machine_kind
    pool ← the_object
    children ← on_sys (scale_children pool)
    finish children
