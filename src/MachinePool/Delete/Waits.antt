-- ===== src/MachinePool/Delete/Waits.antt =====
-- When reconcileDelete in kwokmachinepool_controller.go lets a pool go.
use cluster_api_provider_kwo.Prelude.{
  ◌≡◌, ◌≢◌, ◌⊎◌, inl, inr, refl, ap, sym, subst, ◌∙◌, true, false, List, [], ◌∷◌, arith, Bool-cases,
}
use cluster_api_provider_kwo.Exec.{Result, value, error, ok, is_ok, Outcome, Exec, ◌>>=◌}
use cluster_api_provider_kwo.Exec.Inversion.{>>=-eq_ok, map_err_outcome-eq_ok}
use cluster_api_provider_kwo.Api.Meta.{CtrlResult, done, requeue_now}
use cluster_api_provider_kwo.Api.Kwok.{KwokMachine, KwokMachinePool}
use cluster_api_provider_kwo.Kube.{Kube, Failure, Context, delete_machine, deleting_child}
use cluster_api_provider_kwo.Kube.Session.{Sys, Held, on_sys, raw_outcome-eq_ok}
use cluster_api_provider_kwo.MachinePool.Scale.{after_delete, delete_child}
use cluster_api_provider_kwo.MachinePool.Status.{without_finalizer}
use cluster_api_provider_kwo.MachinePool.Delete.{
  deletion_labels, delete_children, finish_delete, list_for_deletion, reconcile_delete,
}

module _ {W E C : Type 0} (kube : Kube W E C) where
  -- The answer to a deletion: the object was there, or it was gone already.
  abbrev pub IsDeletedOrGone : Result E (Unit {0}) → Type 0
  IsDeletedOrGone (value a) = Unit {0}
  IsDeletedOrGone (error e) = kube.is_not_found e ≡ true

  -- From `s` to `t` the deletions of these machines were sent, in order, and nothing else, and each of
  -- them was deleted or gone already.
  abbrev pub AreDeleted : List KwokMachine → Sys W C → Sys W C → Type 0
  AreDeleted [] s t = t ≡ s
  AreDeleted (child ∷ children) s t =
      let (r, w) = kube.machines.delete child s.world in
      IsDeletedOrGone r
      × AreDeleted children (record s { world = w; trace = delete_machine child ∷ s.trace }) t

  after_delete-ok :
      (context : Context) (r : Result E (Unit {0})) (s : Sys W C)
      → (after_delete kube context r s).0 ≡ ok tt
      → IsDeletedOrGone r × ((after_delete kube context r s).1 ≡ s)
  unfolding after_delete
  after_delete-ok context (value a) s h = (tt, refl)
  after_delete-ok context (error e) s h = elim (Bool-cases (kube.is_not_found e)) [
    | inl gone ↦ (gone, rw gone refl)
    | inr other ↦ absurd (ground (arith, h, other))
  ]

  delete_children-AreDeleted :
      (children : List KwokMachine) (s : Sys W C)
      → (delete_children kube children s).0 ≡ ok tt
      → AreDeleted children s (delete_children kube children s).1
  unfolding delete_children delete_child
  delete_children-AreDeleted [] s h = refl
  delete_children-AreDeleted (child ∷ children) s h =
      let (r, w) = kube.machines.delete child s.world in
      let t = record s { world = w; trace = delete_machine child ∷ s.trace } in
      let delete = after_delete kube (deleting_child child.metadata.name) r in
      let (_, one, same, rest) = >>=-eq_ok delete (λ _. delete_children kube children) t h in
      let (good, kept) = after_delete-ok (deleting_child child.metadata.name) r t one in
      (
        good,
        subst (λ (u : Sys W C). AreDeleted children t u)
            (ap (λ (x : Outcome (Failure E) (Unit {0}) × Sys W C). x.1) (sym same))
            (subst
              (λ (u : Sys W C).
                (delete_children kube children u).0 ≡ ok tt
                → AreDeleted children t (delete_children kube children u).1)
              (sym kept) (delete_children-AreDeleted children t) rest),
      )

  finish_delete-waits :
      (items : List KwokMachine) (h : Held W C KwokMachinePool)
      → (finish_delete kube items h).0 ≡ ok requeue_now
      → items ≢ []
  unfolding finish_delete
  finish_delete-waits [] h e = absurd (ground arith)
  finish_delete-waits (child ∷ children) h e = λ empty. absurd (cc)

  -- The call that asks to be called again has deleted all that was listed.
  reconcile_delete-AreDeleted :
      (h : Held W C KwokMachinePool)
      → (reconcile_delete kube h).0 ≡ ok requeue_now
      → let (listed, w) =
          kube.machines.list h.object.metadata.namespace
            (deletion_labels kube h.object)
            h.sys.world in
        (items : List KwokMachine) × (listed ≡ value items)
        × (items ≢ [])
        × AreDeleted items (record h.sys { world = w }) (reconcile_delete kube h).1.sys
  unfolding reconcile_delete finish_delete
  reconcile_delete-AreDeleted h e =
      let (_, w) =
        kube.machines.list h.object.metadata.namespace (deletion_labels kube h.object)
          h.sys.world in
      let list : Exec (Held W C KwokMachinePool) (Failure E) (List KwokMachine) =
        on_sys (list_for_deletion kube h.object) in
      let delete : List KwokMachine → Exec (Held W C KwokMachinePool) (Failure E) (Unit {0}) =
        λ (items : List KwokMachine). on_sys (delete_children kube items) in
      let finish = λ (items : List KwokMachine). finish_delete kube items in
      let (items, listed, same, e') =
        >>=-eq_ok list (λ items. delete items >>= λ _. finish items) h e in
      let t : Held W C KwokMachinePool = record h { sys = record h.sys { world = w } } in
      let (_, deleted, same', e'') = >>=-eq_ok (delete items) (λ _. finish items) t e' in
      (
        items,
        raw_outcome-eq_ok _ (map_err_outcome-eq_ok _ _ listed),
        finish_delete-waits items (delete items t).1 e'',
        subst (λ (u : Sys W C). AreDeleted items t.sys u)
            (sym (
              ap (λ (x : Outcome (Failure E) CtrlResult × Held W C KwokMachinePool). x.1.sys)
                (same ∙ same')
              ∙ sys-finish_delete items (delete items t).1))
            (delete_children-AreDeleted items t.sys deleted),
      )
    where
      sys-finish_delete :
          (items : List KwokMachine) (u : Held W C KwokMachinePool)
          → (finish_delete kube items u).1.sys ≡ u.sys
      sys-finish_delete [] u = refl
      sys-finish_delete (child ∷ children) u = refl

  reconcile_delete_ends :
      (h : Held W C KwokMachinePool)
      → let (o, h') = reconcile_delete kube h in
        let listed =
          (kube.machines.list h.object.metadata.namespace
            (deletion_labels kube h.object)
            h.sys.world).0 in
        ((listed ≡ value [])
          × (o ≡ ok done)
          × (h'.object ≡ without_finalizer kube h.object)
          × (h'.sys.trace ≡ h.sys.trace))
        ⊎ ((listed ≢ value []) × (is_ok o ≡ false) × (h'.object ≡ h.object))
        ⊎ ((o ≡ ok requeue_now) × (h'.object ≡ h.object))
  unfolding reconcile_delete delete_children
  reconcile_delete_ends h = ground arith

  -- A pool that is being deleted loses its finalizer exactly if the list for the deletion was empty,
  -- and then nothing was sent; otherwise it keeps the finalizer, and the call either fails, or it asks
  -- to be called again at once, and then it has sent the deletion of each child in the list, in
  -- order, and nothing else, and each was deleted or gone already.
  pub reconcile_delete_waits :
      (h : Held W C KwokMachinePool)
      → let (o, h') = reconcile_delete kube h in
        let (listed, w) =
          kube.machines.list h.object.metadata.namespace
            (deletion_labels kube h.object)
            h.sys.world in
        ((listed ≡ value [])
          × (o ≡ ok done)
          × (h'.object ≡ without_finalizer kube h.object)
          × (h'.sys.trace ≡ h.sys.trace))
        ⊎ ((listed ≢ value []) × (is_ok o ≡ false) × (h'.object ≡ h.object))
        ⊎ ((o ≡ ok requeue_now)
            × (h'.object ≡ h.object)
            × ((items : List KwokMachine) × (listed ≡ value items)
                × (items ≢ [])
                × AreDeleted items (record h.sys { world = w }) h'.sys))
  reconcile_delete_waits h = elim (reconcile_delete_ends h) [
    | inl gone ↦ inl gone
    | inr rest ↦ elim rest [
      | inl failed ↦ inr (inl failed)
      | inr (again, kept) ↦ inr (inr (again, kept, reconcile_delete-AreDeleted h again))
    ]
  ]
