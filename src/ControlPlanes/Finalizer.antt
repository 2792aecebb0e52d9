-- ===== src/ControlPlanes/Finalizer.antt =====
-- When kwokcontrolplane_controller.go lets a control plane go.
use cluster_api_provider_kwo.Prelude.{subst, sym, ◌≡◌, ◌⊎◌, inl, inr, false, arith}
use cluster_api_provider_kwo.Exec.{ok, is_ok}
use cluster_api_provider_kwo.Api.Meta.{done}
use cluster_api_provider_kwo.Api.Kwok.{KwokControlPlane}
use cluster_api_provider_kwo.Kube.{Kube}
use cluster_api_provider_kwo.Kube.Session.{Held}
use cluster_api_provider_kwo.Runtimes.{RuntimeProvider}
use cluster_api_provider_kwo.ControlPlaneScope.{Scope}
use cluster_api_provider_kwo.Service.Host.{Host}
use cluster_api_provider_kwo.Service.Delete.{delete}
use cluster_api_provider_kwo.Service.Delete.Stops.{IsRemoved, delete-IsRemoved}
use cluster_api_provider_kwo.ControlPlanes.{
  after_services, without_finalizer, run_services, reconcile_delete,
}

module _ {W E C : Type 0} (kube : Kube W E C) (host : Host W E) (provider : RuntimeProvider W E)
    (scope : Scope W E) where
  reconcile_delete_of_ok :
      (h : Held W C KwokControlPlane)
      → (delete provider scope h.sys).0 ≡ ok done
      → let (o, h') = reconcile_delete kube host provider scope h in
        (o ≡ ok done)
        × (h'.object ≡ without_finalizer kube host provider h.object)
        × (h'.sys ≡ (delete provider scope h.sys).1)
  unfolding reconcile_delete run_services after_services
  reconcile_delete_of_ok h good = ground arith

  reconcile_delete_of_failure :
      (h : Held W C KwokControlPlane)
      → is_ok (delete provider scope h.sys).0 ≡ false
      → let (o, h') = reconcile_delete kube host provider scope h in
        (is_ok o ≡ false) × (h'.object ≡ h.object)
  unfolding reconcile_delete run_services
  reconcile_delete_of_failure h failed = ground arith

  -- A control plane that is being deleted loses its finalizer exactly when the call returns no error,
  -- and then its cluster is on the host no more; if the call fails it is as it was.
  pub reconcile_delete-IsRemoved :
      (h : Held W C KwokControlPlane)
      → let (o, h') = reconcile_delete kube host provider scope h in
        ((o ≡ ok done)
          × (h'.object ≡ without_finalizer kube host provider h.object)
          × IsRemoved provider scope h.sys h'.sys)
        ⊎ ((is_ok o ≡ false) × (h'.object ≡ h.object))
  reconcile_delete-IsRemoved h = elim (delete-IsRemoved provider scope h.sys) [
    | inl (good, removed) ↦
        let (done_too, released, same) = reconcile_delete_of_ok h good in
        inl (done_too, released, subst (IsRemoved provider scope h.sys) (sym same) removed)
    | inr failed ↦ inr (reconcile_delete_of_failure h failed)
  ]
