-- ===== src/Tests/MachinePool/Gap.antt =====
-- A pool of kwokmachinepool_controller.go with a gap in the numbers of its children.
use cluster_api_provider_kwo.Prelude.{ℕ, ◌≡◌, refl, some, arith, List, [], ◌∷◌}
use cluster_api_provider_kwo.Prelude.Dict.{lookup}
use cluster_api_provider_kwo.Exec.{value, ok}
use cluster_api_provider_kwo.Api.Meta.{requeue_after_seconds}
use cluster_api_provider_kwo.Api.Kwok.{KwokMachine}
use cluster_api_provider_kwo.MachinePool.Child.{
  child_labels, new_child, child_key, desired_replicas, machine_name,
}
use cluster_api_provider_kwo.MachinePool.Status.{with_finalizer, with_machine_kind}
use cluster_api_provider_kwo.MachinePool.Normal.{reconcile_normal}
use cluster_api_provider_kwo.MachinePool.Normal.Reports.{started}
use cluster_api_provider_kwo.MachinePool.Normal.Gap.{IsGap, gap_never_filled}
use cluster_api_provider_kwo.Tests.Fake.{
  find, select, World, fake_kube, the_cluster, the_machine_pool,
}
use cluster_api_provider_kwo.Prelude.Text.{decimal}
use cluster_api_provider_kwo.Prelude.Dict.{lookup}
use cluster_api_provider_kwo.Tests.MachinePool.{the_pool, the_child, holding_pool}

-- The child with the number 1 is there, and number 0 is missing.
abbrev gap_children : List KwokMachine
gap_children = the_child 1 ∷ []

-- The worlds with exactly these machines.
abbrev HasGap : World → Type 0
HasGap w = w.kwok_machines ≡ gap_children

finds_taken :
    find
      (λ (o : KwokMachine). o.metadata)
      (child_key (started fake_kube the_cluster the_machine_pool the_pool) 1)
      gap_children
    ≡ some (the_child 1)
unfolding child_key new_child with_machine_kind with_finalizer machine_name decimal
finds_taken = refl

lists_all :
    select
      (λ (o : KwokMachine). o.metadata)
      "default"
      (child_labels fake_kube the_cluster the_machine_pool)
      gap_children
    ≡ gap_children
unfolding new_child child_labels lookup
lists_all = refl

taken_one :
    (j : ℕ) (w : World)
    → HasGap w
    → j ≡ 1
    → (m : KwokMachine) × ((fake_kube.machines.get
          (child_key (started fake_kube the_cluster the_machine_pool the_pool) j)
          w).0
        ≡ value m)
taken_one j w p e = (the_child 1, rw (e, p, finds_taken) refl)

is_gap :
    IsGap fake_kube the_cluster the_machine_pool HasGap
      (started fake_kube the_cluster the_machine_pool the_pool)
      1
      2
unfolding desired_replicas with_machine_kind new_child with_finalizer machine_name
is_gap = record {
  kept_by_get = λ key w p. p;
  kept_by_list = λ namespace labels w p. p;
  listed = λ w p. (gap_children, rw (p, lists_all) refl, refl);
  taken = λ j w p h k. taken_one j w p (omega arith);
  wanted = refl;
  fewer = omega arith;
}

gap_never_filled_example :
    let (o, h') =
      reconcile_normal fake_kube the_cluster the_machine_pool (holding_pool gap_children) in
    (o ≡ ok (requeue_after_seconds 5)) × (h'.sys.trace ≡ []) × HasGap h'.sys.world
gap_never_filled_example =
    gap_never_filled fake_kube the_cluster the_machine_pool 1 2 (holding_pool gap_children) is_gap
      refl
