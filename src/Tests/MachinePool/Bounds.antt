-- ===== src/Tests/MachinePool/Bounds.antt =====
-- The counts by which a pool scales down, at concrete numbers.
use cluster_api_provider_kwo.Prelude.{◌-◌, ◌^◌, ◌≡◌, refl, List, [], ◌∷◌, take, reverse, arith}
use cluster_api_provider_kwo.Prelude.Int.{pos, negsuc}
use cluster_api_provider_kwo.Api.Kwok.{KwokMachine}
use cluster_api_provider_kwo.MachinePool.Scale.{scale}
use cluster_api_provider_kwo.MachinePool.Scale.Down.{delete_each}
use cluster_api_provider_kwo.MachinePool.Scale.Bounds.{excess, scale-excess}
use cluster_api_provider_kwo.Tests.Fake.{fake_kube, the_cluster, the_machine_pool}
use cluster_api_provider_kwo.Tests.MachinePool.{the_pool, the_child, with_machines}

abbrev children : List KwokMachine
children = the_child 0 ∷ the_child 1 ∷ the_child 2 ∷ []

excess_test_one : excess 3 (pos 2) ≡ 1
excess_test_one = refl

excess_test_negative : excess 3 (negsuc 0) ≡ 3
excess_test_negative = refl

excess_test_wraps : excess 3 (negsuc (2 ^ 31 - 1)) ≡ 0
excess_test_wraps = refl

scale-excess_example :
    scale fake_kube the_cluster the_machine_pool the_pool (pos 1) children (with_machines children)
    ≡ delete_each fake_kube (take 2 (reverse children)) (with_machines children)
scale-excess_example =
    scale-excess fake_kube the_cluster the_machine_pool the_pool (pos 1) children
      (with_machines children) (omega arith) (omega arith) (omega arith)
