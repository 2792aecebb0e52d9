-- ===== src/Tests/WorkloadClient/Threads.antt =====
-- Runs of several goroutines over the factory of workload_client.go.
use native.Mathlib.Decide.{ℕ_discrete}
use cluster_api_provider_kwo.Prelude.{ℕ, ◌<◌, ◌≡◌, ◌⊎◌, refl, true, none, some, arith}
use cluster_api_provider_kwo.Prelude.Dict.{lookup}
use cluster_api_provider_kwo.Exec.{ok}
use cluster_api_provider_kwo.WorkloadClient.{
  new_factory, fetch_config, connect, kubeconfig_secret_name,
}
use cluster_api_provider_kwo.WorkloadClient.Threads.{
  Request, key_of, calling, idle, returned, waiting, System, update, advance, lock, unlock, gone_on,
  Reach, start, later, call_get, go_on,
}
use cluster_api_provider_kwo.WorkloadClient.Threads.Fine.{IsBuiltForCluster}
use cluster_api_provider_kwo.WorkloadClient.Threads.Invariant.{
  IsVisited, IsRequested, returned-IsBuiltForCluster,
}
use cluster_api_provider_kwo.WorkloadClient.Threads.Mutex.{inside, left}
use cluster_api_provider_kwo.WorkloadClient.Threads.Progress.{never_stuck}
use cluster_api_provider_kwo.WorkloadClient.Threads.Race.{removed, removal_undone}
use cluster_api_provider_kwo.Tests.Fake.{World, Status, Target, reachable, fake_kube, the_world}
use cluster_api_provider_kwo.Tests.WorkloadClient.{here, no_slash}

abbrev demo : Request
demo = record { cluster_name = "demo"; namespace = "default"; endpoint = here }

abbrev called : System World Status Target
called = record {
  shared = record { sys = new_factory the_world; mutex = none };
  pc = update (λ _. idle) 0 (calling demo);
}

called-Reach : Reach fake_kube the_world called
called-Reach = later start (call_get 0 demo refl no_slash)

-- Goroutine 0 has locked the mutex, and goroutine 1 calls too.
abbrev contended : System World Status Target
contended = let s = gone_on fake_kube called 0 in record s { pc = update s.pc 1 (calling demo) }

contended-Reach : Reach fake_kube the_world contended
unfolding ℕ_discrete
contended-Reach = later (later called-Reach (go_on 0)) (call_get 1 demo refl no_slash)

is_busy : 0 < left (contended.pc 1)
unfolding ℕ_discrete
is_busy = omega arith

never_stuck_example :
    (left ((gone_on fake_kube contended 1).pc 1) < left (contended.pc 1))
    ⊎ ((j : ℕ) × (inside (contended.pc j) ≡ true)
        × (left ((gone_on fake_kube (gone_on fake_kube contended j) 1).pc 1)
            < left (contended.pc 1)))
never_stuck_example = never_stuck fake_kube the_world contended 1 contended-Reach is_busy

abbrev looked : System World Status Target
looked = gone_on fake_kube (gone_on fake_kube called 0) 0

abbrev built : System World Status Target
built = gone_on fake_kube (gone_on fake_kube looked 0) 0

built-Reach : Reach fake_kube the_world built
built-Reach = later (later (later (later called-Reach (go_on 0)) (go_on 0)) (go_on 0)) (go_on 0)

is_waiting : built.pc 0 ≡ waiting demo reachable
unfolding ℕ_discrete advance lock unlock lookup new_factory fetch_config kubeconfig_secret_name
    connect
is_waiting = refl

is_free : built.shared.mutex ≡ none
unfolding ℕ_discrete advance lock unlock lookup new_factory fetch_config kubeconfig_secret_name
    connect
is_free = refl

is_idle : built.pc 1 ≡ idle
unfolding ℕ_discrete
is_idle = refl

abbrev finished : System World Status Target
finished = gone_on fake_kube (gone_on fake_kube built 0) 0

is_returned : finished.pc 0 ≡ returned demo (ok reachable)
unfolding ℕ_discrete advance lock unlock lookup new_factory fetch_config kubeconfig_secret_name
    connect
is_returned = refl

finished-Reach : Reach fake_kube the_world finished
finished-Reach = later (later built-Reach (go_on 0)) (go_on 0)

returned-IsBuiltForCluster_example :
    IsBuiltForCluster fake_kube
      (IsVisited fake_kube finished-Reach)
      (IsRequested fake_kube finished-Reach)
      "demo"
      "default"
      reachable
returned-IsBuiltForCluster_example =
    returned-IsBuiltForCluster fake_kube the_world finished 0 demo reachable finished-Reach
      is_returned

removal_undone_example :
    let t = removed fake_kube built 1 demo in
    let u = gone_on fake_kube (gone_on fake_kube t 0) 0 in
    Reach fake_kube the_world t
    × (t.pc 1 ≡ idle)
    × (lookup (key_of demo) t.shared.sys.clients ≡ none)
    × Reach fake_kube the_world u
    × (lookup (key_of demo) u.shared.sys.clients ≡ some reachable)
removal_undone_example =
    removal_undone fake_kube the_world built 0 1 demo reachable built-Reach (omega arith) is_waiting
      is_idle is_free no_slash
