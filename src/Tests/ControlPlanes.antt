-- ===== src/Tests/ControlPlanes.antt =====
-- Runs of kwokcontrolplane_controller.go and of pkg/services/kwok/cluster.
use cluster_api_provider_kwo.Prelude.{none, inr, [], ◌≡◌, ◌⊎◌, refl, true, false, ◌∷◌}
use cluster_api_provider_kwo.Exec.{value, ok, is_ok}
use cluster_api_provider_kwo.Api.Meta.{done}
use cluster_api_provider_kwo.Api.Kwok.{KwokControlPlane}
use cluster_api_provider_kwo.Kube.{patch_control_plane, patch_cluster}
use cluster_api_provider_kwo.Kube.Session.{Sys, Held}
use cluster_api_provider_kwo.Service.Reconcile.{
  mark_ready, reconcile, check_ready, existing, reconcile_any_kubeconfig, run,
}
use cluster_api_provider_kwo.Service.Reconcile.Ready.{WasReady, reconcile-IsHonest}
use cluster_api_provider_kwo.Service.Secrets.{
  reconcile_kubeconfig, create_kubeconfig_secret, create_owned, create_with_server,
  prepare_kubeconfig, rewrite_if_kind,
}
use cluster_api_provider_kwo.Service.Secrets.Published.{
  IsPublished, reconcile_kubeconfig-IsPublished,
}
use cluster_api_provider_kwo.Service.Delete.{delete}
use cluster_api_provider_kwo.Service.Delete.Stops.{IsRemoved, delete-IsRemoved}
use cluster_api_provider_kwo.ControlPlanes.{
  without_finalizer, reconcile_delete, dispatch, scoped, reconcile_normal, run_services,
}
use cluster_api_provider_kwo.ControlPlanes.Finalizer.{reconcile_delete-IsRemoved}
use cluster_api_provider_kwo.KwokClusters.{
  control_plane_key, published, active, publish, check_runtime, runtime_of, simulated_latency,
}
use cluster_api_provider_kwo.KwokClusters.Handover.{endpoint_handed_over}
use cluster_api_provider_kwo.ControlPlanes.Persisted.{scoped-persists}
use cluster_api_provider_kwo.Tests.Fake.{
  World, Status, Target, fake_kube, fake_provider, start, the_control_plane, the_cluster,
  the_kwok_cluster,
}
use cluster_api_provider_kwo.Tests.FakeHost.{fake_host, the_scope}
use cluster_api_provider_kwo.ControlPlaneScope.{Scope, close, runtime}
use cluster_api_provider_kwo.Service.Secrets.{cluster_ref, is_kind, reconcile_kubeconfig}
use cluster_api_provider_kwo.Service.Kubeconfig.{first_server}

-- The simulated cluster is on the host and runs.
abbrev up_and_running : Sys World Target
up_and_running = record start { world = record start.world { installed = true; running = true } }

abbrev held : Held World Target KwokControlPlane
held = record { sys = up_and_running; object = the_control_plane }

reconcile-IsHonest_example :
    let o = (reconcile fake_kube fake_host the_scope fake_provider held).1.object in
    (o.status ≡ the_control_plane.status)
    ⊎ ((o.status ≡ (mark_ready the_control_plane).status)
        × WasReady fake_kube fake_host the_scope fake_provider up_and_running)
reconcile-IsHonest_example = reconcile-IsHonest fake_kube fake_host the_scope fake_provider held

-- The run marks the control plane ready.
marks_ready :
    (reconcile fake_kube fake_host the_scope fake_provider held).1.object
    ≡ mark_ready the_control_plane
unfolding reconcile mark_ready runtime run existing check_ready is_kind reconcile_any_kubeconfig
    reconcile_kubeconfig cluster_ref
marks_ready = refl

delete-IsRemoved_example :
    let (o, t) = delete fake_provider the_scope up_and_running in
    ((o ≡ ok done) × IsRemoved fake_provider the_scope up_and_running t) ⊎ (is_ok o ≡ false)
delete-IsRemoved_example = delete-IsRemoved fake_provider the_scope up_and_running

reconcile_delete-IsRemoved_example :
    let (o, h') = reconcile_delete fake_kube fake_host fake_provider the_scope held in
    ((o ≡ ok done)
      × (h'.object ≡ without_finalizer fake_kube fake_host fake_provider the_control_plane)
      × IsRemoved fake_provider the_scope up_and_running h'.sys)
    ⊎ ((is_ok o ≡ false) × (h'.object ≡ the_control_plane))
reconcile_delete-IsRemoved_example =
    reconcile_delete-IsRemoved fake_kube fake_host fake_provider the_scope held

succeeds :
    (scoped fake_kube fake_host fake_provider the_control_plane the_scope up_and_running).0
    ≡ ok done
unfolding scoped dispatch reconcile_normal close run_services reconcile runtime run existing
    check_ready is_kind reconcile_any_kubeconfig reconcile_kubeconfig cluster_ref
succeeds = refl

scoped-persists_example :
    let (o, end) = dispatch fake_kube fake_host fake_provider the_scope held in
    (o ≡ ok done)
    × ((the_scope.patch end.object end.sys.world).0 ≡ value tt)
    × ((scoped fake_kube fake_host fake_provider the_control_plane the_scope up_and_running).1.trace
        ≡ patch_control_plane end.object ∷ end.sys.trace)
scoped-persists_example =
    scoped-persists fake_kube fake_host fake_provider the_control_plane the_scope up_and_running
      succeeds

-- The control plane and the KwokCluster are stored.
abbrev stored : Sys World Target
stored = record up_and_running {
  world = record up_and_running.world {
    control_planes = the_control_plane ∷ [];
    kwok_clusters = the_kwok_cluster none ∷ [];
  };
}

abbrev storing_scope : Scope World Status
storing_scope = record the_scope { patch = fake_kube.control_planes.update }

control_plane_succeeds :
    (scoped fake_kube fake_host fake_provider the_control_plane storing_scope stored).0 ≡ ok done
unfolding scoped dispatch reconcile_normal close run_services reconcile runtime run existing
    check_ready is_kind reconcile_any_kubeconfig reconcile_kubeconfig cluster_ref mark_ready
control_plane_succeeds = refl

control_plane_read_back :
    (fake_kube.control_planes.get
      (control_plane_key the_cluster)
      (scoped fake_kube fake_host fake_provider the_control_plane storing_scope stored).1.world).0
    ≡ value
        (dispatch fake_kube fake_host fake_provider storing_scope
          (record { sys = stored; object = the_control_plane })).1.object
unfolding scoped close dispatch reconcile_normal run_services reconcile runtime run existing
    check_ready is_kind reconcile_any_kubeconfig reconcile_kubeconfig cluster_ref mark_ready
    control_plane_key
control_plane_read_back = refl

kwok_cluster_succeeds :
    (active fake_kube fake_provider the_cluster
      (the_kwok_cluster none)
      (scoped fake_kube fake_host fake_provider the_control_plane storing_scope stored).1).0
    ≡ ok done
unfolding active scoped close dispatch reconcile_normal run_services reconcile runtime run existing
    check_ready is_kind reconcile_any_kubeconfig reconcile_kubeconfig cluster_ref mark_ready
    control_plane_key check_runtime publish published runtime_of simulated_latency
kwok_cluster_succeeds = refl

endpoint_handed_over_example :
    let end =
      (dispatch fake_kube fake_host fake_provider storing_scope
        (record { sys = stored; object = the_control_plane })).1 in
    (active fake_kube fake_provider the_cluster
      (the_kwok_cluster none)
      (scoped fake_kube fake_host fake_provider the_control_plane storing_scope stored).1).1.trace
    ≡ patch_cluster (published end.object (the_kwok_cluster none))
      ∷ patch_control_plane end.object
      ∷ end.sys.trace
endpoint_handed_over_example =
    endpoint_handed_over fake_kube fake_host fake_provider the_control_plane storing_scope
      the_cluster (the_kwok_cluster none) stored control_plane_succeeds control_plane_read_back
      kwok_cluster_succeeds

-- A run in a world that has no kubeconfig secret yet: it makes one.
abbrev no_secret : Held World Target KwokControlPlane
no_secret = record held {
  sys = record up_and_running { world = record up_and_running.world { secrets = [] } };
}

makes_secret : (reconcile_kubeconfig fake_kube fake_host the_scope no_secret).0 ≡ ok tt
unfolding reconcile_kubeconfig create_kubeconfig_secret first_server create_with_server
    prepare_kubeconfig is_kind runtime create_owned rewrite_if_kind
makes_secret = refl

reconcile_kubeconfig-IsPublished_example :
    IsPublished {C = Target} fake_kube fake_host the_scope the_control_plane
reconcile_kubeconfig-IsPublished_example =
    reconcile_kubeconfig-IsPublished fake_kube fake_host the_scope no_secret (inr makes_secret)
