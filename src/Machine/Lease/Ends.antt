-- ===== src/Machine/Lease/Ends.antt =====
-- How `ensureNodeLease` of kwokmachine_controller.go ends.
use cluster_api_provider_kwo.Prelude.{
  ℕ, zero, suc, String, ◌≡◌, refl, Bool, true, false, some, List, ◌∷◌, arith, if◌then◌else◌,
}
use cluster_api_provider_kwo.Exec.{Result, value, error, ok, returns, Exec, raise, ◌>>=◌}
use cluster_api_provider_kwo.Exec.Inversion.{map_err_outcome-eq_ok}
use cluster_api_provider_kwo.Api.Workload.{Lease}
use cluster_api_provider_kwo.Kube.{Kube, Failure, Write, create_lease, update_lease}
use cluster_api_provider_kwo.Kube.Session.{Sys, try_request, raw_outcome-eq_ok}
use cluster_api_provider_kwo.Machine.Lease.{
  lease_key, new_lease, renew, after_create, after_get, ensure_node_lease,
}

module _ {W E C : Type 0} (kube : Kube W E C) (client : C) (node_name : String) where
  -- The newest write creates the lease of the node, as `new_lease` has it, or it renews the lease of
  -- the node that the API server gave, which is otherwise unchanged; its renew time is the clock's,
  -- and the API server accepted the write.
  abbrev pub IsRenewed : List Write → Type 0
  IsRenewed (create_lease lease ∷ older) =
      (w : W) × (lease ≡ new_lease node_name (kube.now w).0)
      × ((v : W) × (made : Lease) × (((kube.leases client).create lease v).0 ≡ value made))
  IsRenewed (update_lease renewed ∷ older) =
      (w : W) × (lease : Lease) × (((kube.leases client).get (lease_key node_name) (kube.now w).1).0
        ≡ value lease)
      × (renewed ≡ record lease { renew_time = some (kube.now w).0 })
      × ((v : W) × (((kube.leases client).update renewed v).0 ≡ value tt))
  IsRenewed writes = ⊥

module _ {W E C : Type 0} (kube : Kube W E C) (client : C) (node_name : String) where
  -- The answer of a `Get` is not that the lease is missing.
  abbrev pub NotMissing : Result E Lease → Type 0
  NotMissing (value lease) = Unit
  NotMissing (error e) = kube.is_not_found e ≡ false

  -- A `Get` in the world `w`, after the clock is read.
  abbrev pub Settled : Result E Lease → W → Type 0
  Settled (value lease) w = Unit
  Settled (error e) w =
      kube.is_already_exists e ≡ true
      → NotMissing ((kube.leases client).get (lease_key node_name) (kube.now w).1).0

  -- The API server is consistent: where it has refused a `Create` because the lease is there, the
  -- `Get` that follows does not miss it.
  abbrev pub IsConsistent : Type 0
  IsConsistent =
      (now : ℕ) (w : W)
      → let (answer, w') = (kube.leases client).create (new_lease node_name now) w in
        Settled answer w'

  -- With a consistent API server `ensureNodeLease` starts at most twice: with fuel for two starts, or
  -- more, it returns or returns an error.
  pub ensure_node_lease-returns :
      (fuel : ℕ) (s : Sys W C)
      → IsConsistent
      → returns (ensure_node_lease kube client node_name (suc (suc fuel)) s).0 ≡ true
  unfolding ensure_node_lease renew
  ensure_node_lease-returns fuel s consistent =
      let (now, w) = kube.now s.world in
      let (found, w') = (kube.leases client).get (lease_key node_name) w in
      ground (arith, consistent now w')

  -- An action that ends well only with the lease renewed.
  abbrev Renews : Exec (Sys W C) (Failure E) (Unit {0}) → Type 0
  Renews m = (s : Sys W C) → (m s).0 ≡ ok tt → IsRenewed kube client node_name (m s).1.trace

  Renews-if :
      (b : Bool) (m : Exec (Sys W C) (Failure E) (Unit {0})) (f : Failure E)
      → Renews m
      → Renews (if b then m else raise f)
  Renews-if true m f renews s h = renews s h
  Renews-if false m f renews s h = absurd (cc)

  renew-Renews :
      (w : W) (lease : Lease)
      → ((kube.leases client).get (lease_key node_name) (kube.now w).1).0 ≡ value lease
      → Renews (renew kube client node_name (kube.now w).0 lease)
  unfolding renew
  renew-Renews w lease found s h =
      (w, lease, found, refl, (s.world, raw_outcome-eq_ok _ (map_err_outcome-eq_ok _ _ h)))

  module _ (again : Exec (Sys W C) (Failure E) (Unit {0})) (renews : Renews again) where
    after_create-IsRenewed :
        (r : Result E Lease) (s : Sys W C)
        → ((made : Lease) → r ≡ value made → IsRenewed kube client node_name s.trace)
        → (after_create kube client node_name again r s).0 ≡ ok tt
        → IsRenewed kube client node_name (after_create kube client node_name again r s).1.trace
    unfolding after_create
    after_create-IsRenewed (value lease) s created h = created lease refl
    after_create-IsRenewed (error e) s created h =
        Renews-if (kube.is_already_exists e) again _ renews s h

    create-Renews :
        (w : W)
        → let lease = new_lease node_name (kube.now w).0 in
          Renews (
            try_request (create_lease lease) ((kube.leases client).create lease)
            >>= after_create kube client node_name again)
    create-Renews w s h =
        after_create-IsRenewed _ _ (λ made good. (w, refl, (s.world, made, good))) h

    after_get-Renews :
        (w : W) (r : Result E Lease)
        → ((kube.leases client).get (lease_key node_name) (kube.now w).1).0 ≡ r
        → Renews (after_get kube client node_name again (kube.now w).0 r)
    unfolding after_get
    after_get-Renews w (value lease) found = renew-Renews w lease found
    after_get-Renews w (error e) found = Renews-if (kube.is_not_found e) _ _ (create-Renews w)

  -- If `ensureNodeLease` returns no error, the last write that it sent created the lease of the node
  -- with the node as its holder, a duration of 40 seconds and the time of the clock, or renewed the
  -- lease of the node that the API server gave, with the time of the clock and no other change, and
  -- the API server accepted that write, however often the function started again.
  pub ensure_node_lease-IsRenewed :
      (fuel : ℕ) (s : Sys W C)
      → (ensure_node_lease kube client node_name fuel s).0 ≡ ok tt
      → IsRenewed kube client node_name (ensure_node_lease kube client node_name fuel s).1.trace
  unfolding ensure_node_lease
  ensure_node_lease-IsRenewed zero s h = absurd (cc)
  ensure_node_lease-IsRenewed (suc fuel) s h =
      after_get-Renews (ensure_node_lease kube client node_name fuel)
        (ensure_node_lease-IsRenewed fuel) s.world _ refl _ h
