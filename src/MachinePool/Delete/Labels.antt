-- ===== src/MachinePool/Delete/Labels.antt =====
-- The labels by which reconcileDelete in kwokmachinepool_controller.go finds the children, against
-- those that reconcileNormal gives them.
use cluster_api_provider_kwo.Prelude.{
  ℕ, String, ◌≡◌, ◌≢◌, some, List, [], ◌∷◌, arith, ◌⊎◌, inl, inr, IsElem, eq_iff, subst,
}
use cluster_api_provider_kwo.Prelude.Dict.{lookup}
use cluster_api_provider_kwo.Exec.{value, Outcome, ok, err, panic, out_of_fuel, continue}
use cluster_api_provider_kwo.Api.Core.{Cluster, MachinePool}
use cluster_api_provider_kwo.Api.Kwok.{KwokMachine, KwokMachinePool}
use cluster_api_provider_kwo.Kube.{Kube, Failure, Context, delete_machine, deleting_child}
use cluster_api_provider_kwo.Kube.Session.{Sys, Held}
use cluster_api_provider_kwo.MachinePool.Child.{child_labels, new_child}
use cluster_api_provider_kwo.MachinePool.Scale.{delete_child}
use cluster_api_provider_kwo.MachinePool.Delete.{deletion_labels, delete_children, reconcile_delete}

-- A machine has the labels of a selector.
abbrev pub HasLabels : List (String × String) → KwokMachine → Type 0
HasLabels [] m = Unit
HasLabels ((k, v) ∷ labels) m = (lookup k m.metadata.labels ≡ some v) × HasLabels labels m

module _ {W E C : Type 0} (kube : Kube W E C) where
  -- `client.MatchingLabels`: what a list returns has the labels that it was asked for.
  abbrev pub ListsByLabels : Type 0
  ListsByLabels =
      (namespace : String) (labels : List (String × String)) (w : W) (items : List KwokMachine)
      → (kube.machines.list namespace labels w).0 ≡ value items
      → (m : KwokMachine) → IsElem m items
      → HasLabels labels m

  trace-delete_child :
      (context : String → Context) (m : KwokMachine) (s : Sys W C)
      → (delete_child kube context m s).1.trace ≡ delete_machine m ∷ s.trace
  unfolding delete_child
  trace-delete_child context m s = ground arith

  -- A deletion that the loop sends is that of an item.
  delete_children-IsElem :
      (x : KwokMachine) (items : List KwokMachine) (s : Sys W C)
      → IsElem (delete_machine x) (delete_children kube items s).1.trace
      → IsElem (delete_machine x) s.trace ⊎ IsElem x items
  unfolding delete_children
  delete_children-IsElem x [] s sent = inl sent
  delete_children-IsElem x (m ∷ items) s sent =
      let (o, t) = delete_child kube deleting_child m s in
      go o t (trace-delete_child deleting_child m s) (delete_children-IsElem x items t) sent
    where
      first :
          (t : Sys W C)
          → t.trace ≡ delete_machine m ∷ s.trace
          → IsElem (delete_machine x) t.trace
          → IsElem (delete_machine x) s.trace ⊎ IsElem x (m ∷ items)
      first t e h = elim (subst (IsElem (delete_machine x)) e h) [
        | inl same ↦ inr (inl (cc))
        | inr older ↦ inl older
      ]

      go :
          (o : Outcome (Failure E) (Unit {0})) (t : Sys W C)
          → t.trace ≡ delete_machine m ∷ s.trace
          → (IsElem (delete_machine x) (delete_children kube items t).1.trace
              → IsElem (delete_machine x) t.trace ⊎ IsElem x items)
          → IsElem (delete_machine x) (continue o (λ _. delete_children kube items) t).1.trace
          → IsElem (delete_machine x) s.trace ⊎ IsElem x (m ∷ items)
      go (ok a) t e rest h = elim (rest h) [
        | inl before ↦ first t e before
        | inr among ↦ inr (inr among)
      ]
      go (err f) t e rest h = first t e h
      go panic t e rest h = first t e h
      go out_of_fuel t e rest h = first t e h

  trace-reconcile_delete :
      (h : Held W C KwokMachinePool)
      → let t = (reconcile_delete kube h).1.sys.trace in
        let (listed, w) =
          kube.machines.list h.object.metadata.namespace
            (deletion_labels kube h.object)
            h.sys.world in
        (t ≡ h.sys.trace)
        ⊎ ((items : List KwokMachine) × (listed ≡ value items)
            × (t ≡ (delete_children kube items (record h.sys { world = w })).1.trace))
  unfolding reconcile_delete
  trace-reconcile_delete h = ground arith

  module _ (cluster : Cluster) (machine_pool : MachinePool) (pool : KwokMachinePool) where
    new_child-HasLabels :
        (i : ℕ)
        → kube.cluster_name_label ≢ kube.machine_pool_name_label
        → HasLabels
            (child_labels kube cluster machine_pool)
            (new_child kube cluster machine_pool pool i)
    unfolding new_child child_labels lookup
    new_child-HasLabels i keys = ground (
      arith,
      eq_iff kube.cluster_name_label kube.cluster_name_label,
      eq_iff kube.machine_pool_name_label kube.cluster_name_label,
      eq_iff kube.machine_pool_name_label kube.machine_pool_name_label,
    )

    child-unlisted :
        (m : KwokMachine) (p : KwokMachinePool)
        → machine_pool.metadata.name ≢ p.metadata.name
        → HasLabels (child_labels kube cluster machine_pool) m
        → ¬ HasLabels (deletion_labels kube p) m
    unfolding deletion_labels child_labels
    child-unlisted m p names (_, (labelled, _)) (found, _) = names (cc (labelled, found))

    -- The deletion of a pool looks for its children under the pool's own name, and their label has the
    -- name of the MachinePool that owns the pool: where the two names differ, and lists match by
    -- labels, a child that scaling up creates has the labels by which the normal call lists children,
    -- and a call for the deletion sends the deletion of no machine with these labels, whatever else
    -- has changed of it since it was created.
    pub children_survive_deletion :
        (i : ℕ) (m : KwokMachine) (h : Held W C KwokMachinePool)
        → ListsByLabels
        → kube.cluster_name_label ≢ kube.machine_pool_name_label
        → machine_pool.metadata.name ≢ h.object.metadata.name
        → HasLabels (child_labels kube cluster machine_pool) m
        → ¬ IsElem (delete_machine m) h.sys.trace
        → HasLabels
            (child_labels kube cluster machine_pool)
            (new_child kube cluster machine_pool pool i)
          × ¬ IsElem (delete_machine m) (reconcile_delete kube h).1.sys.trace
    children_survive_deletion i m h by_labels keys names labelled fresh = (
      new_child-HasLabels i keys,
      λ sent. elim (trace-reconcile_delete h) [
        | inl same ↦ fresh (subst (IsElem (delete_machine m)) same sent)
        | inr (items, listed, e) ↦
            elim (delete_children-IsElem m items _ (subst (IsElem (delete_machine m)) e sent)) [
              | inl before ↦ fresh before
              | inr among ↦
                  child-unlisted m h.object names labelled (by_labels _ _ _ items listed m among)
            ]
      ],
    )
