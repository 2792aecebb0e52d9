-- ===== src/Tests/MachinePool/Retries.antt =====
-- A pool that is reconciled while the API server of the tests refuses every creation, and after.
use cluster_api_provider_kwo.Prelude.{◌≡◌, refl, true, false, arith}
use cluster_api_provider_kwo.Exec.{ok}
use cluster_api_provider_kwo.Api.Kwok.{KwokMachinePool}
use cluster_api_provider_kwo.Api.Meta.{CtrlResult}
use cluster_api_provider_kwo.Kube.Session.{Held}
use cluster_api_provider_kwo.MachinePool.Status.{with_finalizer, with_machine_kind}
use cluster_api_provider_kwo.MachinePool.Child.{machine_name}
use cluster_api_provider_kwo.MachinePool.Normal.{reconcile_normal}
use cluster_api_provider_kwo.MachinePool.Converge.Retries.{
  Retried, no_call, call, meanwhile, next_call-HasReplicas,
}
use cluster_api_provider_kwo.MachinePool.Converge.Whole.{HasReplicas}
use cluster_api_provider_kwo.Tests.Fake.{World, Target, the_cluster, the_machine_pool}
use cluster_api_provider_kwo.Tests.MachinePool.{the_pool, with_machines}
use cluster_api_provider_kwo.Tests.MachinePool.Converge.{
  IsStored, one_child, one_child-IsStored, one_child-IsNumberedBelow, wants_two, consistent,
  marking_kube,
}
use cluster_api_provider_kwo.Tests.MachinePool.Faults.{flaky_kube, server}

-- The API server refuses creations.
abbrev refusing : Held World Target KwokMachinePool
refusing =
    let s = with_machines one_child in
    record { sys = record s { world = record s.world { running = false } }; object = the_pool }

-- After a call, the API server refuses no longer.
abbrev recovered : Held World Target KwokMachinePool
recovered =
    let s = (reconcile_normal flaky_kube the_cluster the_machine_pool refusing).1.sys in
    record { sys = record s { world = record s.world { running = true } }; object = the_pool }

recovered-Retried :
    Retried flaky_kube the_cluster the_machine_pool IsStored "kwok-workers" refusing.sys.world
      recovered.sys.world
unfolding with_finalizer
recovered-Retried =
    meanwhile (call refusing no_call refl server)
      (λ children stored. (children, stored, (refl, λ other has. (other, has, refl))))

next_call-HasReplicas_example :
    let (o, h) = reconcile_normal marking_kube the_cluster the_machine_pool recovered in
    (r : CtrlResult) × (o ≡ ok r) × HasReplicas IsStored 2 2 h r
unfolding with_finalizer with_machine_kind machine_name
next_call-HasReplicas_example =
    next_call-HasReplicas flaky_kube marking_kube the_cluster the_machine_pool recovered 2 one_child
      refusing.sys.world wants_two (omega arith) (omega arith) one_child-IsStored
      one_child-IsNumberedBelow recovered-Retried consistent
