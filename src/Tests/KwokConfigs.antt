-- ===== src/Tests/KwokConfigs.antt =====
-- Runs of kwokconfig_controller.go.
use cluster_api_provider_kwo.Prelude.{◌≡◌, refl, false, some, none, [], ◌∷◌}
use cluster_api_provider_kwo.Exec.{ok}
use cluster_api_provider_kwo.Api.Meta.{named, done}
use cluster_api_provider_kwo.Api.Core.{Machine}
use cluster_api_provider_kwo.Api.Kwok.{KwokConfig}
use cluster_api_provider_kwo.Kube.Session.{Sys}
use cluster_api_provider_kwo.KwokConfigs.{
  active, bootstrap_secret, publish, secret_name, with_secret,
}
use cluster_api_provider_kwo.KwokConfigs.Published.{IsBootstrapped, active-IsBootstrapped}
use cluster_api_provider_kwo.KwokConfigs.Mapping.{bootstrap_group}
use cluster_api_provider_kwo.Tests.Fake.{World, Target, fake_kube, start, the_cluster, the_machine}

abbrev the_config : KwokConfig
the_config = record {
  metadata = named "default" "boot";
  spec = record { simulation_config = none };
  status = record {
    last_reconcile_duration = 0;
    ready = false;
    data_secret_name = none;
    data_secret_created = none;
  };
}

abbrev with_config : KwokConfig → Sys World Target
with_config kwok_config = record start { world = record start.world { configs = kwok_config ∷ [] } }

bootstraps : (active fake_kube the_cluster the_config (with_config the_config)).0 ≡ ok done
unfolding active publish bootstrap_secret secret_name with_secret
bootstraps = refl

active-IsBootstrapped_example :
    IsBootstrapped fake_kube the_cluster the_config []
      (active fake_kube the_cluster the_config (with_config the_config)).1.trace
active-IsBootstrapped_example =
    active-IsBootstrapped fake_kube the_cluster the_config (with_config the_config) bootstraps

abbrev named_config : KwokConfig
named_config = record the_config {
  status = record the_config.status { data_secret_name = some "boot-bootstrap-data" };
}

abbrev bootstrapped_machine : Machine
bootstrapped_machine = record the_machine {
  spec = record the_machine.spec {
    bootstrap = record the_machine.spec.bootstrap {
      config_ref = record { api_group = bootstrap_group; kind = "KwokConfig"; name = "boot" };
    };
  };
}
