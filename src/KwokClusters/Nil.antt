-- ===== src/KwokClusters/Nil.antt =====
-- A KwokCluster of kwokcluster_controller.go whose simulation config has no `reconcile`.
use cluster_api_provider_kwo.Prelude.{◌≡◌, none, some, arith}
use cluster_api_provider_kwo.Exec.{value, panic}
use cluster_api_provider_kwo.Api.Meta.{NamespacedName, SimulationConfig}
use cluster_api_provider_kwo.Api.Core.{Cluster}
use cluster_api_provider_kwo.Api.Kwok.{KwokCluster}
use cluster_api_provider_kwo.Kube.{Kube}
use cluster_api_provider_kwo.Kube.Session.{Sys}
use cluster_api_provider_kwo.Runtimes.{RuntimeProvider}
use cluster_api_provider_kwo.KwokClusters.{simulated_latency, reconcile}

module _ {W E C : Type 0} (kube : Kube W E C) (provider : RuntimeProvider W E) where
  -- `Reconcile` of a KwokCluster that has an owner and a simulation config without `reconcile`, which
  -- the API allows, panics and sends nothing, paused or not.
  pub nil_reconcile_panics :
      (req : NamespacedName) (s : Sys W C) (kwok_cluster : KwokCluster) (cluster : Cluster)
      (config : SimulationConfig)
      → (kube.kwok_clusters.get req s.world).0 ≡ value kwok_cluster
      → (kube.owner_cluster kwok_cluster.metadata (kube.kwok_clusters.get req s.world).1).0
        ≡ value (some cluster)
      → kwok_cluster.spec.simulation_config ≡ some config
      → config.reconcile ≡ none
      → let (o, t) = reconcile kube provider req s in (o ≡ panic) × (t.trace ≡ s.trace)
  unfolding reconcile simulated_latency
  nil_reconcile_panics req s kwok_cluster cluster config fetched owned given missing = ground arith
