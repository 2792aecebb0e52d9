-- ===== src/Machine/Lease/Trace.antt =====
-- `ensureNodeLease` of kwokmachine_controller.go forgets no write that was sent before it.
use cluster_api_provider_kwo.Prelude.{ℕ, zero, suc, String, ◌∷◌, arith, inr, IsElem}
use cluster_api_provider_kwo.Kube.{Kube, Write, create_lease}
use cluster_api_provider_kwo.Kube.Session.{Sys}
use cluster_api_provider_kwo.Machine.Lease.{lease_key, new_lease, renew, ensure_node_lease}

module _ {W E C : Type 0} (kube : Kube W E C) (client : C) (node_name : String) (x : Write) where
  pub ensure_node_lease-IsElem :
      (fuel : ℕ) (s : Sys W C)
      → IsElem x s.trace
      → IsElem x (ensure_node_lease kube client node_name fuel s).1.trace
  unfolding ensure_node_lease renew
  ensure_node_lease-IsElem zero s sent = sent
  ensure_node_lease-IsElem (suc fuel) s sent =
      let (now, w) = kube.now s.world in
      let (found, w') = (kube.leases client).get (lease_key node_name) w in
      let lease = new_lease node_name now in
      let (created, w'') = (kube.leases client).create lease w' in
      let t = record s { world = w''; trace = create_lease lease ∷ s.trace } in
      ground (arith, ensure_node_lease-IsElem fuel t (inr sent))
