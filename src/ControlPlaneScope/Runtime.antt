-- ===== src/ControlPlaneScope/Runtime.antt =====
-- The runtime that a control plane runs on, in pkg/scope/controlplane.go, against the one that the
-- KwokCluster controller checks.
use cluster_api_provider_kwo.Prelude.{◌≡◌, ◌≢◌, ◌⊎◌, arith, eq_iff, String}
use cluster_api_provider_kwo.ControlPlaneScope.{Scope, runtime}
use cluster_api_provider_kwo.KwokClusters.{runtime_of}

kind_not_docker : ◌≢◌ {A = String} "docker" "kind"
kind_not_docker e = absurd (ground (arith, eq_iff "docker" "kind"))

module _ {W E : Type 0} (scope : Scope W E) where
  -- The runtime that the KwokCluster controller checks is the one that the control plane is run on
  -- where the spec names one, and a different one where it names none: one of the two defaults is
  -- `docker`, the other `kind`.
  runtime-runtime_of :
      ((scope.kwok_cluster.spec.runtime ≢ "") × (runtime_of scope.kwok_cluster ≡ runtime scope))
      ⊎ ((scope.kwok_cluster.spec.runtime ≡ "") × (runtime_of scope.kwok_cluster ≢ runtime scope))
  unfolding runtime runtime_of
  runtime-runtime_of = ground (arith, eq_iff scope.kwok_cluster.spec.runtime "", kind_not_docker)
