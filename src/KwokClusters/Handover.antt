-- ===== src/KwokClusters/Handover.antt =====
-- From the controller of the KwokControlPlane to that of the KwokCluster: the endpoint that the one
-- persists is the one that the other publishes.
use cluster_api_provider_kwo.Prelude.{◌≡◌, ◌∙◌, ap, List, ◌∷◌}
use cluster_api_provider_kwo.Exec.{value, ok}
use cluster_api_provider_kwo.Api.Meta.{CtrlResult}
use cluster_api_provider_kwo.Api.Core.{Cluster}
use cluster_api_provider_kwo.Api.Kwok.{KwokCluster, KwokControlPlane}
use cluster_api_provider_kwo.Kube.{Kube, Write, patch_cluster, patch_control_plane}
use cluster_api_provider_kwo.Kube.Session.{Sys}
use cluster_api_provider_kwo.Runtimes.{RuntimeProvider}
use cluster_api_provider_kwo.ControlPlaneScope.{Scope}
use cluster_api_provider_kwo.Service.Host.{Host}
use cluster_api_provider_kwo.ControlPlanes.{dispatch, scoped}
use cluster_api_provider_kwo.ControlPlanes.Persisted.{scoped-persists}
use cluster_api_provider_kwo.KwokClusters.{control_plane_key, published, active}
use cluster_api_provider_kwo.KwokClusters.Published.{wanted_latency, waited, active-sent}

module _ {W E C : Type 0} (kube : Kube W E C) (host : Host W E)
    (provider : RuntimeProvider W E) where
  -- Where a call for a control plane has returned no error, and the API server then gives the control
  -- plane as that call persisted it, a call for the KwokCluster that returns no error sends the
  -- KwokCluster, ready and with the endpoint that the control plane has in that object, right after the
  -- patch of the control plane, and waits for the latency that the spec wants.
  pub endpoint_handed_over :
      (control_plane : KwokControlPlane) (scope : Scope W E) (cluster : Cluster)
      (kwok_cluster : KwokCluster) (s : Sys W C) {r r' : CtrlResult}
      → (scoped kube host provider control_plane scope s).0 ≡ ok r
      → let end =
          (dispatch kube host provider scope (record { sys = s; object = control_plane })).1 in
        let t = (scoped kube host provider control_plane scope s).1 in
        (kube.control_planes.get (control_plane_key cluster) t.world).0 ≡ value end.object
        → (active kube provider cluster kwok_cluster t).0 ≡ ok r'
        → (active kube provider cluster kwok_cluster t).1.trace
          ≡ waited (wanted_latency kwok_cluster.spec.simulation_config) (
              patch_cluster (published end.object kwok_cluster)
              ∷ patch_control_plane end.object
              ∷ end.sys.trace)
  endpoint_handed_over control_plane scope cluster kwok_cluster s h given h' =
      let end =
        (dispatch kube host provider scope (record { sys = s; object = control_plane })).1 in
      let t = (scoped kube host provider control_plane scope s).1 in
      let (_, _, sent) = scoped-persists kube host provider control_plane scope s h in
      active-sent kube provider cluster kwok_cluster end.object t given h'
      ∙ ap
          (λ (writes : List Write).
            waited (wanted_latency kwok_cluster.spec.simulation_config)
              (patch_cluster (published end.object kwok_cluster) ∷ writes))
          sent
