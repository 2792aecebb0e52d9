-- ===== src/Machine/Delete/Ends.antt =====
-- How the deletion of a machine in kwokmachine_controller.go ends.
use cluster_api_provider_kwo.Prelude.{ℕ, zero, suc, String, ◌≡◌, ◌⊎◌, false, some, arith}
use cluster_api_provider_kwo.Prelude.Dict.{lookup}
use cluster_api_provider_kwo.Exec.{error, ok, Exec, is_ok}
use cluster_api_provider_kwo.Api.Meta.{done}
use cluster_api_provider_kwo.Api.Core.{Cluster}
use cluster_api_provider_kwo.Api.Kwok.{KwokMachine}
use cluster_api_provider_kwo.Kube.{Kube}
use cluster_api_provider_kwo.Kube.Session.{Held}
use cluster_api_provider_kwo.WorkloadClient.{cache_key}
use cluster_api_provider_kwo.Machine.ProviderId.{provider_id_of}
use cluster_api_provider_kwo.Machine.Delete.{
  without_finalizer, node_named, delete_with, reconcile_delete,
}

module _ {W E C : Type 0} (kube : Kube W E C) (cluster : Cluster) where
  -- The deletion of a machine removes the finalizer exactly when it returns no error.
  pub reconcile_delete-finalizer :
      (h : Held W C KwokMachine)
      → let (o, h') = reconcile_delete kube cluster h in
        ((o ≡ ok done) × (h'.object ≡ without_finalizer kube h.object))
        ⊎ ((is_ok o ≡ false) × (h'.object ≡ h.object))
  unfolding reconcile_delete delete_with
  reconcile_delete-finalizer h = ground arith

  -- The reconciler's state after `k` calls of `reconcileDelete`.
  abbrev pub delete_calls : ℕ → Held W C KwokMachine → Held W C KwokMachine
  delete_calls zero h = h
  delete_calls (suc k) h = delete_calls k (reconcile_delete kube cluster h).1

  -- The workload cluster of this client answers no more: each `Delete` of the node fails, and not
  -- because the node is missing.
  abbrev pub IsGone : C → String → Type 0
  IsGone c node_name =
      (w : W)
      → (e : E) × (((kube.nodes c).delete (node_named node_name) w).0 ≡ error e)
        × (kube.is_not_found e ≡ false)

  -- What stays as it is while the deletion fails.
  abbrev pub IsStuck : C → String → Held W C KwokMachine → Type 0
  IsStuck c node_name h =
      (lookup (cache_key cluster.metadata.name cluster.metadata.namespace) h.sys.clients ≡ some c)
      × (h.object.spec.provider_id ≡ provider_id_of node_name)
