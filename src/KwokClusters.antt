-- ===== src/KwokClusters.antt =====
-- internal/controller/infrastructure/kwokcluster_controller.go: the reconciler of a KwokCluster,
-- which takes the endpoint of its control plane.
pub mod Published
pub mod Handover
pub mod Nil
pub mod Mapping
use cluster_api_provider_kwo.Prelude.{
  String, Bool, true, Option, none, some, is_some, str_eq, if◌then◌else◌,
}
use cluster_api_provider_kwo.Prelude.Int.{ℤ, eqb_int}
use cluster_api_provider_kwo.Exec.{
  Result, value, error, Exec, pure, raise, panics, map_err, ◌>>=◌, ◌>>◌,
}
use cluster_api_provider_kwo.Api.Meta.{
  NamespacedName, Reconcile, SimulationConfig, CtrlResult, done,
}
use cluster_api_provider_kwo.Api.Core.{Cluster}
use cluster_api_provider_kwo.Api.Kwok.{KwokCluster, KwokControlPlane}
use cluster_api_provider_kwo.Kube.{
  Kube, Op, Failure, raw, message, wrap, init_patch_helper, getting_control_plane_ref,
  patching_kwok_cluster, runtime_not_found, patch_cluster, start_timer, wait_timer,
}
use cluster_api_provider_kwo.Kube.Session.{Sys, query, request, try_query}
use cluster_api_provider_kwo.Runtimes.{RuntimeProvider}

-- `runtime := "docker"`, unless the spec names one.
unfoldable pub runtime_of : KwokCluster → String
runtime_of kwok_cluster =
    if str_eq kwok_cluster.spec.runtime "" then "docker" else kwok_cluster.spec.runtime

-- `// Set the values from the managed control plane`
unfoldable pub published : KwokControlPlane → KwokCluster → KwokCluster
published control_plane kwok_cluster = record kwok_cluster {
  spec = record kwok_cluster.spec {
    control_plane_endpoint = control_plane.spec.control_plane_endpoint;
  };
  status = record kwok_cluster.status { ready = true; provisioned = some true };
}

-- `types.NamespacedName{Name: cluster.Spec.ControlPlaneRef.Name, …}`
unfoldable pub control_plane_key : Cluster → NamespacedName
control_plane_key cluster = record {
  namespace = cluster.metadata.namespace;
  name = cluster.spec.control_plane_ref.name;
}

module _ {W E C : Type 0} where
  latency_of_reconcile : Option Reconcile → Exec (Sys W C) (Failure E) (Option ℤ)
  latency_of_reconcile none = panics
  latency_of_reconcile (some r) = pure (if eqb_int 0 r.latency then none else some r.latency)

  -- `SimulationConfig != nil && SimulationConfig.Reconcile.Latency.Duration != 0`, with the
  -- duration: `Reconcile` is a pointer, and a nil one panics.
  unfoldable pub simulated_latency : Option SimulationConfig → Exec (Sys W C) (Failure E) (Option ℤ)
  unfolding latency_of_reconcile
  simulated_latency none = pure none
  simulated_latency (some config) = latency_of_reconcile config.reconcile

  -- `timerCh = time.After(…)`
  start : Option ℤ → Exec (Sys W C) (Failure E) (Unit {0})
  start none = pure tt
  start (some latency) = request (start_timer latency) (λ w. (value tt, w))

  -- `<-timerCh`
  wait : Option ℤ → Exec (Sys W C) (Failure E) (Unit {0})
  wait none = pure tt
  wait (some latency) = request (wait_timer latency) (λ w. (value tt, w))

module _ {W E C : Type 0} (kube : Kube W E C) (provider : RuntimeProvider W E) where
  -- From the patch to the end.
  unfoldable pub publish :
      KwokControlPlane
      → KwokCluster
      → (KwokCluster → Op W E (Unit {0}))
      → Exec (Sys W C) (Failure E) CtrlResult
  unfolding wait
  publish control_plane kwok_cluster patch = do
    let ready = published control_plane kwok_cluster
    map_err (wrap patching_kwok_cluster) (request (patch_cluster ready) (patch ready))
    latency ← simulated_latency ready.spec.simulation_config
    wait latency
    pure done

  -- Behind the patch helper: the check of the runtime.
  unfoldable pub check_runtime :
      KwokControlPlane
      → KwokCluster
      → (KwokCluster → Op W E (Unit {0}))
      → Exec (Sys W C) (Failure E) CtrlResult
  check_runtime control_plane kwok_cluster patch =
      if is_some (provider.get (runtime_of kwok_cluster))
      then publish control_plane kwok_cluster patch
      else raise (message (runtime_not_found (runtime_of kwok_cluster)))

  -- Behind the check for a pause.
  unfoldable pub active : Cluster → KwokCluster → Exec (Sys W C) (Failure E) CtrlResult
  active cluster kwok_cluster = do
    control_plane ←
        map_err (wrap getting_control_plane_ref)
          (query (kube.control_planes.get (control_plane_key cluster)))
    patch ← map_err (wrap init_patch_helper) (query (kube.kwok_clusters.new_helper kwok_cluster))
    check_runtime control_plane kwok_cluster patch

  after_owner : KwokCluster → Option Cluster → Exec (Sys W C) (Failure E) CtrlResult
  unfolding start
  after_owner kwok_cluster none = pure done
  after_owner kwok_cluster (some cluster) = do
    latency ← simulated_latency kwok_cluster.spec.simulation_config
    start latency
    if kube.is_paused cluster kwok_cluster.metadata then pure done else active cluster kwok_cluster

  after_fetch : Result E KwokCluster → Exec (Sys W C) (Failure E) CtrlResult
  unfolding after_owner
  after_fetch (error e) = if kube.is_not_found e then pure done else raise (raw e)
  after_fetch (value kwok_cluster) =
      query (kube.owner_cluster kwok_cluster.metadata) >>= after_owner kwok_cluster

  unfoldable pub reconcile : NamespacedName → Exec (Sys W C) (Failure E) CtrlResult
  unfolding after_fetch
  reconcile req = try_query (kube.kwok_clusters.get req) >>= after_fetch
