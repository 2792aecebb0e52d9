-- ===== src/ControlPlanes/Persisted.antt =====
-- `Reconcile` in kwokcontrolplane_controller.go reports success only for what it has persisted.
use cluster_api_provider_kwo.Prelude.{◌≡◌, refl, ◌∷◌}
use cluster_api_provider_kwo.Exec.{value, ok}
use cluster_api_provider_kwo.Exec.Inversion.{keep_last-eq_ok}
use cluster_api_provider_kwo.Api.Meta.{CtrlResult}
use cluster_api_provider_kwo.Api.Kwok.{KwokControlPlane}
use cluster_api_provider_kwo.Kube.{Kube, patch_control_plane}
use cluster_api_provider_kwo.Kube.Session.{Sys, Held, raw_outcome, raw_outcome-eq_ok}
use cluster_api_provider_kwo.Runtimes.{RuntimeProvider}
use cluster_api_provider_kwo.ControlPlaneScope.{Scope, close}
use cluster_api_provider_kwo.Service.Host.{Host}
use cluster_api_provider_kwo.ControlPlanes.{dispatch, scoped}

module _ {W E C : Type 0} (kube : Kube W E C) (host : Host W E)
    (provider : RuntimeProvider W E) where
  -- If `Reconcile`, behind its guards, returns no error, then the call for the control plane ended well
  -- with the same result, the newest write is a patch that has the control plane as that call left it,
  -- and the API accepted it; the writes below are those of the call.
  pub scoped-persists :
      (control_plane : KwokControlPlane) (scope : Scope W E) (s : Sys W C) {r : CtrlResult}
      → (scoped kube host provider control_plane scope s).0 ≡ ok r
      → let start : Held W C KwokControlPlane = record { sys = s; object = control_plane } in
        let (o, end) = dispatch kube host provider scope start in
        (o ≡ ok r)
        × ((scope.patch end.object end.sys.world).0 ≡ value tt)
        × ((scoped kube host provider control_plane scope s).1.trace
            ≡ patch_control_plane end.object ∷ end.sys.trace)
  unfolding scoped close
  scoped-persists control_plane scope s h =
      let start : Held W C KwokControlPlane = record { sys = s; object = control_plane } in
      let (o, end) = dispatch kube host provider scope start in
      let (good, (_, accepted)) =
        keep_last-eq_ok o (raw_outcome (scope.patch end.object end.sys.world).0) h in
      (good, raw_outcome-eq_ok _ accepted, refl)
