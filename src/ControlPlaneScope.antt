-- ===== src/ControlPlaneScope.antt =====
-- pkg/scope/controlplane.go: what the service of a control plane knows of its cluster. The scope's
-- control plane is the object that the reconciler holds in memory; its patch helper comes with it.
pub mod Runtime
use cluster_api_provider_kwo.Prelude.{String, Option, none, some, str_eq, if◌then◌else◌}
use cluster_api_provider_kwo.Exec.{Result, value, error, Exec, raise, map_err, pure, ◌>>=◌, ◌>>◌}
use cluster_api_provider_kwo.Api.Core.{Cluster}
use cluster_api_provider_kwo.Api.Kwok.{KwokCluster, KwokControlPlane}
use cluster_api_provider_kwo.Kube.{
  Kube, Op, Failure, message, wrap, init_patch_helper, nil_cluster, nil_control_plane, nil_logger,
  patch_control_plane,
}
use cluster_api_provider_kwo.Kube.Session.{Sys, Held, query, request, on_sys, the_object}

-- `ControlPlaneScopeParams`: the pointers that `NewControlPlaneScope` checks may be nil.
pub record ScopeParams : Type 0 where
  pub has_logger : Option (Unit {0})
  pub cluster : Option Cluster
  pub kwok_cluster : KwokCluster
  pub control_plane : Option KwokControlPlane

pub record Scope (W E : Type 0) : Type 0 where
  pub cluster : Cluster
  pub kwok_cluster : KwokCluster
  pub patch : KwokControlPlane → Op W E (Unit {0})

module _ {W E C : Type 0} (kube : Kube W E C) where
  -- Behind the check for a nil logger.
  with_helper : Cluster → KwokCluster → KwokControlPlane → Exec (Sys W C) (Failure E) (Scope W E)
  with_helper cluster kwok_cluster control_plane = do
    patch ← map_err (wrap init_patch_helper) (query (kube.control_planes.new_helper control_plane))
    pure (record { cluster = cluster; kwok_cluster = kwok_cluster; patch = patch })

  check_logger :
      Option (Unit {0})
      → Cluster
      → KwokCluster
      → KwokControlPlane
      → Exec (Sys W C) (Failure E) (Scope W E)
  unfolding with_helper
  check_logger none cluster kwok_cluster control_plane = raise (message nil_logger)
  check_logger (some _) cluster kwok_cluster control_plane =
      with_helper cluster kwok_cluster control_plane

  check_control_plane :
      Option KwokControlPlane
      → Option (Unit {0})
      → Cluster
      → KwokCluster
      → Exec (Sys W C) (Failure E) (Scope W E)
  unfolding check_logger
  check_control_plane none logger cluster kwok_cluster = raise (message nil_control_plane)
  check_control_plane (some control_plane) logger cluster kwok_cluster =
      check_logger logger cluster kwok_cluster control_plane

  check_cluster : Option Cluster → ScopeParams → Exec (Sys W C) (Failure E) (Scope W E)
  unfolding check_control_plane
  check_cluster none params = raise (message nil_cluster)
  check_cluster (some cluster) params =
      check_control_plane params.control_plane params.has_logger cluster params.kwok_cluster

  -- `NewControlPlaneScope`
  unfoldable pub new_scope : ScopeParams → Exec (Sys W C) (Failure E) (Scope W E)
  unfolding check_cluster
  new_scope params = check_cluster params.cluster params

module _ {W E : Type 0} (scope : Scope W E) where
  -- `Runtime`
  unfoldable pub runtime : String
  runtime =
      if str_eq scope.kwok_cluster.spec.runtime "" then "kind" else scope.kwok_cluster.spec.runtime

  -- `Name`
  unfoldable pub name : String
  name = scope.cluster.metadata.name

  -- `WorkDir`
  unfoldable pub work_dir : String
  work_dir = scope.kwok_cluster.spec.working_dir

  -- `ClusterAddress`
  unfoldable pub cluster_address : String
  cluster_address =
      if str_eq scope.kwok_cluster.spec.bind_address ""
      then "127.0.0.1"
      else scope.kwok_cluster.spec.bind_address

module _ {W E C : Type 0} (scope : Scope W E) where
  -- `Close`, which is `PatchObject`: the control plane is persisted as it then is.
  unfoldable pub close : Exec (Held W C KwokControlPlane) (Failure E) (Unit {0})
  close = the_object >>= λ o. on_sys (request (patch_control_plane o) (scope.patch o))
