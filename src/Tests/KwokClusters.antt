-- ===== src/Tests/KwokClusters.antt =====
-- Runs of kwokcluster_controller.go and of pkg/scope.
use cluster_api_provider_kwo.Prelude.{◌≡◌, refl, none, some, [], ◌∷◌}
use cluster_api_provider_kwo.Prelude.Int.{pos}
use cluster_api_provider_kwo.Exec.{value, ok, panic}
use cluster_api_provider_kwo.Api.Meta.{NamespacedName, SimulationConfig, done}
use cluster_api_provider_kwo.Api.Kwok.{KwokCluster}
use cluster_api_provider_kwo.Kube.Session.{Sys}
use cluster_api_provider_kwo.KwokClusters.{
  runtime_of, active, reconcile, check_runtime, control_plane_key, publish, published,
  simulated_latency,
}
use cluster_api_provider_kwo.KwokClusters.Published.{IsPublishedOn, active-IsPublishedOn}
use cluster_api_provider_kwo.KwokClusters.Nil.{nil_reconcile_panics}
use cluster_api_provider_kwo.ControlPlaneScope.{Scope}
use cluster_api_provider_kwo.Tests.Fake.{
  World, Status, Target, fake_kube, fake_provider, start, the_cluster, the_kwok_cluster,
  the_control_plane,
}

abbrev slow : SimulationConfig
slow = record { reconcile = some (record { latency = pos 5000 }) }

abbrev with_cluster : KwokCluster → Sys World Target
with_cluster kwok_cluster = record start {
  world = record start.world {
    kwok_clusters = kwok_cluster ∷ [];
    control_planes = the_control_plane ∷ [];
  };
}

publishes :
    (active fake_kube fake_provider the_cluster
      (the_kwok_cluster (some slow))
      (with_cluster (the_kwok_cluster (some slow)))).0
    ≡ ok done
unfolding active control_plane_key check_runtime runtime_of publish published simulated_latency
publishes = refl

active-IsPublishedOn_example :
    IsPublishedOn fake_kube fake_provider the_cluster
      (the_kwok_cluster (some slow))
      []
      (active fake_kube fake_provider the_cluster
        (the_kwok_cluster (some slow))
        (with_cluster (the_kwok_cluster (some slow)))).1.trace
      done
active-IsPublishedOn_example =
    active-IsPublishedOn fake_kube fake_provider the_cluster (the_kwok_cluster (some slow))
      (with_cluster (the_kwok_cluster (some slow))) publishes

abbrev podman : KwokCluster
podman = let c = the_kwok_cluster none in record c { spec = record c.spec { runtime = "podman" } }

nil_reconcile_panics_example :
    let req : NamespacedName = record { namespace = "default"; name = "demo" } in
    let (o, t) =
      reconcile fake_kube fake_provider req
        (with_cluster (the_kwok_cluster (some (record { reconcile = none })))) in
    (o ≡ panic) × (t.trace ≡ [])
nil_reconcile_panics_example =
    nil_reconcile_panics fake_kube fake_provider (record { namespace = "default"; name = "demo" })
      (with_cluster (the_kwok_cluster (some (record { reconcile = none }))))
      (the_kwok_cluster (some (record { reconcile = none }))) the_cluster
      (record { reconcile = none }) refl refl refl refl

abbrev default_scope : Scope World Status
default_scope = record {
  cluster = the_cluster;
  kwok_cluster =
      let c = the_kwok_cluster none in record c { spec = record c.spec { runtime = "" } };
  patch = λ o w. (value tt, w);
}
