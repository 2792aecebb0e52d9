-- ===== src/MachinePool/Delete.antt =====
-- reconcileDelete in kwokmachinepool_controller.go.
pub mod Waits
pub mod Labels
use cluster_api_provider_kwo.Prelude.{String, List, [], ◌∷◌}
use cluster_api_provider_kwo.Exec.{Exec, pure, map_err, ◌>>=◌, ◌>>◌}
use cluster_api_provider_kwo.Api.Meta.{CtrlResult, done, requeue_now}
use cluster_api_provider_kwo.Api.Kwok.{KwokMachine, KwokMachinePool}
use cluster_api_provider_kwo.Kube.{Kube, Failure, wrap, listing_for_deletion, deleting_child}
use cluster_api_provider_kwo.Kube.Session.{Sys, Held, query, on_sys, modify, the_object}
use cluster_api_provider_kwo.MachinePool.Scale.{delete_child}
use cluster_api_provider_kwo.MachinePool.Status.{without_finalizer}

module _ {W E C : Type 0} (kube : Kube W E C) where
  -- `client.MatchingLabels{…}` of the list for the deletion.
  unfoldable pub deletion_labels : KwokMachinePool → List (String × String)
  deletion_labels pool = (kube.machine_pool_name_label, pool.metadata.name) ∷ []

  -- `for i := range childKwokMachines.Items`
  unfoldable pub delete_children : List KwokMachine → Exec (Sys W C) (Failure E) (Unit {0})
  delete_children [] = pure tt
  delete_children (child ∷ children) =
      delete_child kube deleting_child child >>= λ _. delete_children children

  -- `if len(childKwokMachines.Items) > 0 { … Requeue: true }`
  unfoldable pub finish_delete :
      List KwokMachine → Exec (Held W C KwokMachinePool) (Failure E) CtrlResult
  finish_delete (child ∷ children) = pure requeue_now
  finish_delete [] = modify (without_finalizer kube) >>= λ _. pure done

  unfoldable pub list_for_deletion : KwokMachinePool → Exec (Sys W C) (Failure E) (List KwokMachine)
  unfolding deletion_labels
  list_for_deletion pool =
      map_err (wrap listing_for_deletion)
        (query (kube.machines.list pool.metadata.namespace (deletion_labels pool)))

  unfoldable pub reconcile_delete : Exec (Held W C KwokMachinePool) (Failure E) CtrlResult
  unfolding finish_delete list_for_deletion
  reconcile_delete = do
    pool ← the_object
    children ← on_sys (list_for_deletion pool)
    on_sys (delete_children children)
    finish_delete children
