-- ===== src/Tests/MachinePool.antt =====
-- Runs of kwokmachinepool_controller.go.
mod Bounds
mod Converge
mod Faults
mod Gap
mod Labels
mod Retries
use cluster_api_provider_kwo.Prelude.{
  ℕ, ◌+◌, ◌≡◌, ◌≢◌, ◌⊎◌, refl, Bool, true, false, ◌&&◌, Option, none, some, arith, eq_iff, String,
  inl, inr, subst, sym, str_eq, if◌then◌else◌, List, [], ◌∷◌, IsElem, reverse, take,
}
use cluster_api_provider_kwo.Prelude.Dict.{lookup}
use cluster_api_provider_kwo.Exec.{Result, value, ok, is_ok}
use cluster_api_provider_kwo.Api.Meta.{
  NamespacedName, done, requeue_now, requeue_after_seconds, named,
}
use cluster_api_provider_kwo.Api.Kwok.{KwokMachine, KwokMachinePool}
use cluster_api_provider_kwo.Kube.{delete_machine}
use cluster_api_provider_kwo.Kube.Session.{Sys, Held}
use cluster_api_provider_kwo.MachinePool.Child.{
  child_labels, new_child, child_key, desired_replicas, machine_name,
}
use cluster_api_provider_kwo.MachinePool.Scale.{
  scale_up, scale_down, create_child, ensure_child, scale,
}
use cluster_api_provider_kwo.MachinePool.Scale.Up.{Creates, scale_up-Creates}
use cluster_api_provider_kwo.MachinePool.Scale.Down.{delete_each}
use cluster_api_provider_kwo.MachinePool.Status.{
  collect, without_finalizer, with_children, with_finalizer, with_machine_kind,
}
use cluster_api_provider_kwo.MachinePool.Status.Collect.{provider_ids, all_set, collect_lem}
use cluster_api_provider_kwo.MachinePool.Normal.{reconcile_normal, finish, scale_children}
use cluster_api_provider_kwo.MachinePool.Normal.Reports.{
  IsListed, IsReported, started, reconcile_normal-IsReported,
}
use cluster_api_provider_kwo.MachinePool.Normal.Gap.{IsGap, gap_never_filled}
use cluster_api_provider_kwo.MachinePool.Delete.{deletion_labels, reconcile_delete}
use cluster_api_provider_kwo.MachinePool.Delete.Waits.{AreDeleted, reconcile_delete_waits}
use cluster_api_provider_kwo.MachinePool.Delete.Labels.{
  HasLabels, ListsByLabels, children_survive_deletion,
}
use cluster_api_provider_kwo.MachinePool.Reconcile.{patched, reconcile, dispatch}
use cluster_api_provider_kwo.MachinePool.Reconcile.Guards.{IsActivePool, reconcile-IsActivePool}
use cluster_api_provider_kwo.MachinePool.Reconcile.Persisted.{IsPersisted, patched-IsPersisted}
use cluster_api_provider_kwo.Tests.Fake.{
  find, has_labels, select, World, Status, Target, fake_kube, start, the_cluster, the_machine_pool,
  fresh_machine, machine_with_id,
}
use cluster_api_provider_kwo.Prelude.Text.{decimal}
use cluster_api_provider_kwo.Prelude.Dict.{lookup}

abbrev pub the_pool : KwokMachinePool
the_pool = record {
  metadata = named "default" "kwok-workers";
  spec = record {
    provider_id = "";
    provider_id_list = [];
    template_spec = record { provider_id = ""; simulation_config = none };
    simulation_config = none;
  };
  status = record {
    ready = false;
    replicas = 0;
    infrastructure_machine_kind = "";
    conditions = [];
  };
}

abbrev pub the_child : ℕ → KwokMachine
the_child = new_child fake_kube the_cluster the_machine_pool the_pool

-- A process in a world that has these machines.
abbrev pub with_machines : List KwokMachine → Sys World Target
with_machines machines = record start { world = record start.world { kwok_machines = machines } }

abbrev holding_pool : List KwokMachine → Held World Target KwokMachinePool
holding_pool machines = record { sys = with_machines machines; object = the_pool }

scale_up-Creates_example :
    Creates fake_kube the_cluster the_machine_pool the_pool [] 1
      (1 + 2)
      (scale_up fake_kube the_cluster the_machine_pool the_pool 2 1
        (with_machines (the_child 0 ∷ []))).1.trace
scale_up-Creates_example =
    scale_up-Creates fake_kube the_cluster the_machine_pool the_pool 2 1
      (with_machines (the_child 0 ∷ []))

scales_up :
    (reconcile_normal fake_kube the_cluster the_machine_pool (holding_pool [])).0
    ≡ ok (requeue_after_seconds 5)
unfolding reconcile_normal scale_children scale desired_replicas scale_up ensure_child create_child
    child_key new_child machine_name decimal finish with_children collect lookup
scales_up = refl

reconcile_normal-IsReported_example :
    (children : List KwokMachine) × IsListed fake_kube the_cluster the_machine_pool
      (started fake_kube the_cluster the_machine_pool the_pool)
      children
    × IsReported fake_kube the_cluster the_machine_pool children
        (reconcile_normal fake_kube the_cluster the_machine_pool (holding_pool [])).1.object
        (requeue_after_seconds 5)
reconcile_normal-IsReported_example =
    reconcile_normal-IsReported fake_kube the_cluster the_machine_pool (holding_pool []) scales_up

reconcile_delete_waits_example :
    let h = holding_pool (the_child 0 ∷ []) in
    let (o, h') = reconcile_delete fake_kube h in
    let (listed, w) =
      fake_kube.machines.list "default" (deletion_labels fake_kube the_pool) h.sys.world in
    ((listed ≡ value [])
      × (o ≡ ok done)
      × (h'.object ≡ without_finalizer fake_kube the_pool)
      × (h'.sys.trace ≡ []))
    ⊎ ((listed ≢ value []) × (is_ok o ≡ false) × (h'.object ≡ the_pool))
    ⊎ ((o ≡ ok requeue_now)
        × (h'.object ≡ the_pool)
        × ((items : List KwokMachine) × (listed ≡ value items)
            × (items ≢ [])
            × AreDeleted fake_kube items (record h.sys { world = w }) h'.sys))
reconcile_delete_waits_example = reconcile_delete_waits fake_kube (holding_pool (the_child 0 ∷ []))

abbrev stored_pool : Sys World Target
stored_pool = record start { world = record start.world { kwok_pools = the_pool ∷ [] } }

reconcile-IsActivePool_example :
    let req : NamespacedName = record { namespace = "default"; name = "kwok-workers" } in
    IsActivePool fake_kube req stored_pool ⊎ ((reconcile fake_kube req stored_pool).1.trace ≡ [])
reconcile-IsActivePool_example =
    reconcile-IsActivePool fake_kube (record { namespace = "default"; name = "kwok-workers" })
      stored_pool

pool_patched :
    (patched fake_kube the_pool the_cluster the_machine_pool stored_pool).0
    ≡ ok (requeue_after_seconds 5)
unfolding patched dispatch reconcile_normal scale_children scale desired_replicas scale_up
    ensure_child create_child child_key new_child machine_name decimal finish with_children collect
    lookup
pool_patched = refl

patched-IsPersisted_example :
    let (helper, w) = fake_kube.pools.new_helper the_pool stored_pool.world in
    IsPersisted fake_kube the_pool the_cluster the_machine_pool helper stored_pool
      (patched fake_kube the_pool the_cluster the_machine_pool stored_pool).1
      (requeue_after_seconds 5)
patched-IsPersisted_example =
    patched-IsPersisted fake_kube the_pool the_cluster the_machine_pool stored_pool pool_patched
