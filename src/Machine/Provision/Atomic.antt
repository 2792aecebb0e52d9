-- ===== src/Machine/Provision/Atomic.antt =====
-- What `reconcileNormal` of kwokmachine_controller.go leaves in the object that it holds.
use cluster_api_provider_kwo.Prelude.{ℕ, ◌≡◌, ◌≢◌, ◌⊎◌, arith, eq_iff}
use cluster_api_provider_kwo.Exec.{ok}
use cluster_api_provider_kwo.Api.Meta.{requeue_after_seconds}
use cluster_api_provider_kwo.Api.Core.{Cluster, Machine}
use cluster_api_provider_kwo.Api.Kwok.{KwokMachine}
use cluster_api_provider_kwo.Kube.{Kube}
use cluster_api_provider_kwo.Kube.Session.{Held}
use cluster_api_provider_kwo.Machine.Provision.{
  with_finalizer, provision, provisioned, reconcile_normal,
}

module _ {W E C : Type 0} (kube : Kube W E C) (fuel : ℕ) (cluster : Cluster)
    (machine : Machine) where
  -- A machine without a provider ID is provisioned.
  pub reconcile_normal-unset :
      (h : Held W C KwokMachine)
      → h.object.spec.provider_id ≡ ""
      → reconcile_normal kube fuel cluster machine h
        ≡ provision kube fuel cluster machine (record h { object = with_finalizer kube h.object })
  unfolding reconcile_normal
  reconcile_normal-unset h unset = ground (arith, eq_iff h.object.spec.provider_id "")

  -- A machine without a provider ID is provisioned whole or not at all: either the call asks to be
  -- called again after 30 seconds, and the object has the finalizer, the provider ID, both marks and
  -- the address, or it returns something else, and the object has the finalizer and no other change.
  pub provision_atomic :
      (h : Held W C KwokMachine)
      → h.object.spec.provider_id ≡ ""
      → let (o, h') = reconcile_normal kube fuel cluster machine h in
        let m = with_finalizer kube h.object in
        ((o ≡ ok (requeue_after_seconds 30)) × (h'.object ≡ provisioned machine.metadata.name m))
        ⊎ ((o ≢ ok (requeue_after_seconds 30)) × (h'.object ≡ m))
  unfolding reconcile_normal
  provision_atomic h unset = ground (arith, eq_iff h.object.spec.provider_id "")
