-- ===== src/Machine/Lease.antt =====
-- `ensureNodeLease` of kwokmachine_controller.go: creates the lease of a node, or renews it.
pub mod Ends
pub mod Trace
use cluster_api_provider_kwo.Prelude.{ℕ, zero, suc, String, some, if◌then◌else◌}
use cluster_api_provider_kwo.Exec.{
  Result, value, error, ok, out_of_fuel, Exec, pure, raise, map_err, ◌>>=◌,
}
use cluster_api_provider_kwo.Api.Meta.{named, NamespacedName}
use cluster_api_provider_kwo.Api.Workload.{Lease}
use cluster_api_provider_kwo.Kube.{
  Kube, Failure, raw, wrap, create_lease, update_lease, creating_lease, getting_lease,
  updating_lease,
}
use cluster_api_provider_kwo.Kube.Session.{Sys, request, try_query, try_request}

abbrev pub lease_namespace : String
lease_namespace = "kube-node-lease"

abbrev pub lease_key : String → NamespacedName
lease_key node_name = record { namespace = lease_namespace; name = node_name }

unfoldable pub new_lease : String → ℕ → Lease
new_lease node_name now = record {
  metadata = named lease_namespace node_name;
  holder_identity = some node_name;
  lease_duration_seconds = some 40;
  renew_time = some now;
}

module _ {W E C : Type 0} (kube : Kube W E C) where
  -- `metav1.Now()`
  unfoldable pub read_clock : Exec (Sys W C) (Failure E) ℕ
  read_clock s = let (t, w) = kube.now s.world in (ok t, record s { world = w })

  module _ (client : C) (node_name : String) where
    unfoldable pub renew : ℕ → Lease → Exec (Sys W C) (Failure E) (Unit {0})
    renew now lease =
        let renewed = record lease { renew_time = some now } in
        map_err (wrap (updating_lease node_name))
          (request (update_lease renewed) ((kube.leases client).update renewed))

    -- What follows the `Create`: the code starts again if another process was faster.
    after_create :
        Exec (Sys W C) (Failure E) (Unit {0})
        → Result E Lease
        → Exec (Sys W C) (Failure E) (Unit {0})
    after_create again (value lease) = pure tt
    after_create again (error e) =
        if kube.is_already_exists e then again else raise (wrap (creating_lease node_name) (raw e))

    after_get :
        Exec (Sys W C) (Failure E) (Unit {0})
        → ℕ
        → Result E Lease
        → Exec (Sys W C) (Failure E) (Unit {0})
    unfolding after_create
    after_get again now (value lease) = renew now lease
    after_get again now (error e) =
        let lease = new_lease node_name now in
        if kube.is_not_found e
        then (try_request (create_lease lease) ((kube.leases client).create lease)
            >>= after_create again)
        else raise (wrap (getting_lease node_name) (raw e))

    -- The source sets no bound on how often it starts again: `fuel` is the number of starts.
    unfoldable pub ensure_node_lease : ℕ → Exec (Sys W C) (Failure E) (Unit {0})
    unfolding read_clock after_get
    ensure_node_lease zero = λ s. (out_of_fuel, s)
    ensure_node_lease (suc fuel) = do
      now ← read_clock
      found ← try_query ((kube.leases client).get (lease_key node_name))
      after_get (ensure_node_lease fuel) now found
