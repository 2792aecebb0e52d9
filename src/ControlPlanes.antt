-- ===== src/ControlPlanes.antt =====
-- internal/controller/controlplane/kwokcontrolplane_controller.go: the reconciler of a
-- KwokControlPlane, which runs the service of its cluster.
pub mod Finalizer
pub mod Persisted
pub mod Mapping
use cluster_api_provider_kwo.Prelude.{
  String, Bool, Option, none, some, is_some, ◌||◌, List, [], ◌∷◌, ltb, if◌then◌else◌,
}
use cluster_api_provider_kwo.Exec.{
  Result, value, error, Exec, pure, raise, map_err, deferring, keep_last, ◌>>=◌, ◌>>◌,
}
use cluster_api_provider_kwo.Api.Meta.{NamespacedName, CtrlResult, done, requeue_now}
use cluster_api_provider_kwo.Api.Core.{Cluster}
use cluster_api_provider_kwo.Api.Kwok.{KwokCluster, KwokControlPlane, kwok_control_plane_finalizer}
use cluster_api_provider_kwo.Kube.{
  Kube, Failure, raw, wrap, getting_kwok_cluster_ref, creating_scope,
}
use cluster_api_provider_kwo.Kube.Session.{
  Sys, Held, query, try_query, on_sys, modify, the_object, holding,
}
use cluster_api_provider_kwo.Runtimes.{RuntimeProvider}
use cluster_api_provider_kwo.ControlPlaneScope.{Scope, new_scope, close}
use cluster_api_provider_kwo.Service.Host.{Host}
use cluster_api_provider_kwo.Service.Reconcile.{reconcile as reconcile_service}
use cluster_api_provider_kwo.Service.Delete.{delete as delete_service}

abbrev pub with_finalizers : List String → KwokControlPlane → KwokControlPlane
with_finalizers finalizers o = record o { metadata = record o.metadata { finalizers = finalizers } }

-- `types.NamespacedName{Name: cluster.Spec.InfrastructureRef.Name, …}`
unfoldable pub kwok_cluster_key : Cluster → NamespacedName
kwok_cluster_key cluster = record {
  namespace = cluster.metadata.namespace;
  name = cluster.spec.infrastructure_ref.name;
}

module _ {W E C : Type 0} where
  -- `for _, r := range reconcilers`: the first one that fails or asks to be called again ends it.
  unfoldable pub run_services :
      List (Exec (Held W C KwokControlPlane) (Failure E) CtrlResult)
      → Exec (Held W C KwokControlPlane) (Failure E) CtrlResult
  run_services [] = pure done
  run_services (service ∷ services) = do
    result ← service
    let rest = run_services services
    if result.requeue || ltb 0 result.requeue_after then pure result else rest

module _ {W E C : Type 0} (kube : Kube W E C) (host : Host W E)
    (provider : RuntimeProvider W E) where
  unfoldable pub without_finalizer : KwokControlPlane → KwokControlPlane
  without_finalizer o =
      with_finalizers (kube.remove_finalizer kwok_control_plane_finalizer o.metadata.finalizers) o

  unfoldable pub reconcile_normal :
      Scope W E → Exec (Held W C KwokControlPlane) (Failure E) CtrlResult
  reconcile_normal scope = do
    control_plane ← the_object
    let (finalizers, added) =
        kube.add_finalizer kwok_control_plane_finalizer control_plane.metadata.finalizers
    modify (with_finalizers finalizers)
    if added then close scope else pure tt
    run_services (reconcile_service kube host scope provider ∷ [])

  -- Behind the loop over the services of a deletion.
  after_services : CtrlResult → Exec (Held W C KwokControlPlane) (Failure E) CtrlResult
  after_services result =
      if result.requeue || ltb 0 result.requeue_after
      then pure result
      else modify without_finalizer >>= λ _. pure done

  unfoldable pub reconcile_delete :
      Scope W E → Exec (Held W C KwokControlPlane) (Failure E) CtrlResult
  unfolding after_services
  reconcile_delete scope =
      run_services (on_sys (delete_service provider scope) ∷ []) >>= after_services

  -- The last two returns of `Reconcile`.
  unfoldable pub dispatch : Scope W E → Exec (Held W C KwokControlPlane) (Failure E) CtrlResult
  dispatch scope = do
    control_plane ← the_object
    if is_some control_plane.metadata.deletion_timestamp
        then reconcile_delete scope
        else reconcile_normal scope

  -- Behind `NewControlPlaneScope`, with the deferred call of `Close`.
  unfoldable pub scoped : KwokControlPlane → Scope W E → Exec (Sys W C) (Failure E) CtrlResult
  scoped control_plane scope =
      holding control_plane (deferring keep_last (dispatch scope) (close scope))

  unfoldable pub active :
      KwokControlPlane → Cluster → KwokCluster → Exec (Sys W C) (Failure E) CtrlResult
  active control_plane cluster kwok_cluster = do
    scope ← map_err (wrap creating_scope) (
        new_scope kube (record {
          has_logger = some tt;
          cluster = some cluster;
          kwok_cluster = kwok_cluster;
          control_plane = some control_plane;
        }))
    scoped control_plane scope

  after_owner : KwokControlPlane → Option Cluster → Exec (Sys W C) (Failure E) CtrlResult
  after_owner control_plane none = pure requeue_now
  after_owner control_plane (some cluster) = do
    kwok_cluster ←
        map_err (wrap getting_kwok_cluster_ref)
          (query (kube.kwok_clusters.get (kwok_cluster_key cluster)))
    if kube.is_paused cluster control_plane.metadata
        then pure done
        else active control_plane cluster kwok_cluster

  after_fetch : Result E KwokControlPlane → Exec (Sys W C) (Failure E) CtrlResult
  unfolding after_owner
  after_fetch (error e) = if kube.is_not_found e then pure done else raise (raw e)
  after_fetch (value control_plane) =
      query (kube.owner_cluster control_plane.metadata) >>= after_owner control_plane

  unfoldable pub reconcile : NamespacedName → Exec (Sys W C) (Failure E) CtrlResult
  unfolding after_fetch
  reconcile req = try_query (kube.control_planes.get req) >>= after_fetch
