-- ===== src/Machine/Reconcile/Persisted.antt =====
-- `Reconcile` in kwokmachine_controller.go reports success only for what it has persisted.
use cluster_api_provider_kwo.Prelude.{
  ℕ, String, ◌≡◌, refl, inl, inr, true, false, some, List, ◌∷◌, arith, eq_iff, str_eq, Bool-cases,
}
use cluster_api_provider_kwo.Exec.{Result, value, error, ok}
use cluster_api_provider_kwo.Exec.Inversion.{keep_first-eq_ok}
use cluster_api_provider_kwo.Api.Meta.{requeue_after_seconds}
use cluster_api_provider_kwo.Api.Core.{Cluster, Machine}
use cluster_api_provider_kwo.Api.Kwok.{KwokMachine}
use cluster_api_provider_kwo.Kube.{Kube, Op, Write, patch_machine}
use cluster_api_provider_kwo.Kube.Session.{Sys, Held, raw_outcome, raw_outcome-eq_ok}
use cluster_api_provider_kwo.Machine.ProviderId.{str_eq-provider_id_of}
use cluster_api_provider_kwo.Machine.Provision.{reconcile_normal, provisioned, with_finalizer}
use cluster_api_provider_kwo.Machine.Provision.Atomic.{provision_atomic}
use cluster_api_provider_kwo.Machine.Delete.Ends.{reconcile_delete-finalizer}
use cluster_api_provider_kwo.Machine.Reconcile.{dispatch, after_helper, patched}

-- The object says that its machine is up.
abbrev pub IsUp : KwokMachine → Type 0
IsUp m =
    (m.status.ready ≡ true)
    × (m.status.provisioned ≡ some true)
    × (str_eq m.spec.provider_id "" ≡ false)

provisioned-IsUp : (n : String) (m : KwokMachine) → IsUp (provisioned n m)
unfolding provisioned
provisioned-IsUp n m = (refl, refl, str_eq-provider_id_of n)

module _ {W E C : Type 0} (kube : Kube W E C) (fuel : ℕ) (cluster : Cluster)
    (machine : Machine) where
  reconcile_normal-IsUp :
      (h : Held W C KwokMachine)
      → (reconcile_normal kube fuel cluster machine h).0 ≡ ok (requeue_after_seconds 30)
      → IsUp (reconcile_normal kube fuel cluster machine h).1.object
  reconcile_normal-IsUp h e = elim (Bool-cases (str_eq h.object.spec.provider_id "")) [
    | inl unset ↦ elim (provision_atomic kube fuel cluster machine h ((eq_iff _ "").0 unset)) [
      | inl done ↦
          rw (done.1) (provisioned-IsUp machine.metadata.name (with_finalizer kube h.object))
      | inr failed ↦ absurd (failed.0 e)
    ]
    | inr given ↦ unfold reconcile_normal in ground arith
  ]

  dispatch-IsUp :
      (h : Held W C KwokMachine)
      → (dispatch kube fuel cluster machine h).0 ≡ ok (requeue_after_seconds 30)
      → IsUp (dispatch kube fuel cluster machine h).1.object
  unfolding dispatch
  dispatch-IsUp h e =
      ground (arith, reconcile_normal-IsUp h, reconcile_delete-finalizer kube cluster h)

  -- A patch that the API accepted is the newest write, and what it wrote is up.
  abbrev pub IsPatchedUp : Result E (KwokMachine → Op W E (Unit {0})) → List Write → Type 0
  IsPatchedUp helper writes =
      (patch : KwokMachine → Op W E (Unit {0})) × (o : KwokMachine) × (w : W) × (older : List Write)
      × (helper ≡ value patch)
      × ((patch o w).0 ≡ value tt)
      × (writes ≡ patch_machine o ∷ older)
      × IsUp o

  after_helper-IsPatchedUp :
      (m : KwokMachine) (r : Result E (KwokMachine → Op W E (Unit {0}))) (s : Sys W C)
      → (after_helper kube fuel m cluster machine r s).0 ≡ ok (requeue_after_seconds 30)
      → IsPatchedUp r (after_helper kube fuel m cluster machine r s).1.trace
  unfolding after_helper
  after_helper-IsPatchedUp m (error e) s h = absurd (cc)
  after_helper-IsPatchedUp m (value patch) s h =
      let start : Held W C KwokMachine = record { sys = s; object = m } in
      let (o, end) = dispatch kube fuel cluster machine start in
      let (good, (_, accepted)) =
        keep_first-eq_ok o (raw_outcome (patch end.object end.sys.world).0) h in
      (
        patch,
        end.object,
        end.sys.world,
        end.sys.trace,
        refl,
        raw_outcome-eq_ok _ accepted,
        refl,
        dispatch-IsUp start good,
      )

  -- If `Reconcile`, behind its guards, asks to be called again after 30 seconds, then the newest write
  -- is a patch of the KwokMachine, the API accepted it, and the object that it wrote is ready,
  -- provisioned and has a provider ID: no success is reported that is not persisted.
  pub patched-IsPatchedUp :
      (m : KwokMachine) (s : Sys W C)
      → (patched kube fuel m cluster machine s).0 ≡ ok (requeue_after_seconds 30)
      → IsPatchedUp
          (kube.machines.new_helper m s.world).0
          (patched kube fuel m cluster machine s).1.trace
  unfolding patched
  patched-IsPatchedUp m s h =
      let (helper, w) = kube.machines.new_helper m s.world in
      after_helper-IsPatchedUp m helper (record s { world = w }) h
