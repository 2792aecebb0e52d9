-- ===== src/MachinePool/Reconcile.antt =====
-- `Reconcile` in kwokmachinepool_controller.go: the guards, and the patch that is deferred.
pub mod Guards
pub mod Persisted
use cluster_api_provider_kwo.Prelude.{Option, none, some, is_some, if◌then◌else◌}
use cluster_api_provider_kwo.Exec.{
  Result, value, error, Exec, pure, raise, deferring, keep_first, ◌>>=◌,
}
use cluster_api_provider_kwo.Api.Meta.{CtrlResult, done, NamespacedName}
use cluster_api_provider_kwo.Api.Core.{Cluster, MachinePool}
use cluster_api_provider_kwo.Api.Kwok.{KwokMachinePool}
use cluster_api_provider_kwo.Kube.{Kube, Op, Failure, raw, wrap, patch_pool, init_patch_helper}
use cluster_api_provider_kwo.Kube.Session.{
  Sys, Held, query, request, try_query, on_sys, the_object, holding,
}
use cluster_api_provider_kwo.MachinePool.Normal.{reconcile_normal}
use cluster_api_provider_kwo.MachinePool.Delete.{reconcile_delete}

module _ {W E C : Type 0} (kube : Kube W E C) where
  -- The last two returns of `Reconcile`.
  unfoldable pub dispatch :
      Cluster → MachinePool → Exec (Held W C KwokMachinePool) (Failure E) CtrlResult
  dispatch cluster machine_pool = do
    kwok_pool ← the_object
    if is_some kwok_pool.metadata.deletion_timestamp
        then reconcile_delete kube
        else reconcile_normal kube cluster machine_pool

  -- The deferred function's call of `Patch`, on the object as it then is.
  unfoldable pub patch_held :
      (KwokMachinePool → Op W E (Unit {0})) → Exec (Held W C KwokMachinePool) (Failure E) (Unit {0})
  patch_held patch = the_object >>= λ m. on_sys (request (patch_pool m) (patch m))

  -- Behind `patch.NewHelper`.
  after_helper :
      KwokMachinePool
      → Cluster
      → MachinePool
      → Result E (KwokMachinePool → Op W E (Unit {0}))
      → Exec (Sys W C) (Failure E) CtrlResult
  unfolding patch_held
  after_helper kwok_pool cluster machine_pool (error e) = raise (wrap init_patch_helper (raw e))
  after_helper kwok_pool cluster machine_pool (value patch) =
      holding kwok_pool (deferring keep_first (dispatch cluster machine_pool) (patch_held patch))

  -- From the patch helper to the end.
  unfoldable pub patched :
      KwokMachinePool → Cluster → MachinePool → Exec (Sys W C) (Failure E) CtrlResult
  unfolding after_helper
  patched kwok_pool cluster machine_pool =
      try_query (kube.pools.new_helper kwok_pool) >>= after_helper kwok_pool cluster machine_pool

  after_owner : KwokMachinePool → Option MachinePool → Exec (Sys W C) (Failure E) CtrlResult
  after_owner kwok_pool none = pure done
  after_owner kwok_pool (some machine_pool) = do
    cluster ← query (kube.cluster_of_metadata machine_pool.metadata)
    if kube.is_paused cluster kwok_pool.metadata
        then pure done
        else patched kwok_pool cluster machine_pool

  after_fetch : Result E KwokMachinePool → Exec (Sys W C) (Failure E) CtrlResult
  unfolding after_owner
  after_fetch (error e) = if kube.is_not_found e then pure done else raise (raw e)
  after_fetch (value kwok_pool) =
      query (kube.owner_machine_pool kwok_pool.metadata) >>= after_owner kwok_pool

  unfoldable pub reconcile : NamespacedName → Exec (Sys W C) (Failure E) CtrlResult
  unfolding after_fetch
  reconcile req = try_query (kube.pools.get req) >>= after_fetch
