-- ===== src/Tests/Fake.antt =====
-- A world in memory for the tests: the API server of `Store`, a clock and a runtime, and the objects
-- that the tests start from.
mod Store
pub use Store.*
use cluster_api_provider_kwo.Prelude.{
  ℕ, ◌+◌, String, Bool, true, false, ◌&&◌, ◌||◌, ◌==◌, not, Option, none, some, List, [], ◌∷◌,
  str_eq, if◌then◌else◌,
}
use cluster_api_provider_kwo.Prelude.Dict.{lookup}
use cluster_api_provider_kwo.Prelude.Int.{pos}
use cluster_api_provider_kwo.Exec.{Result, value, error}
use cluster_api_provider_kwo.Api.Meta.{SimulationConfig, NamespacedName, ObjectMeta, named}
use cluster_api_provider_kwo.Api.Core.{ContractRef, Cluster, Machine, MachinePool, Secret}
use cluster_api_provider_kwo.Api.Workload.{Node, Lease}
use cluster_api_provider_kwo.Api.Kwok.{
  KwokMachine, KwokMachinePool, KwokCluster, KwokControlPlane, KwokConfig,
}
use cluster_api_provider_kwo.Kube.{Op, Client, Kube}
use cluster_api_provider_kwo.Kube.Session.{Sys}
use cluster_api_provider_kwo.Runtimes.{Runtime, RuntimeProvider}

abbrev no_ref : ContractRef
no_ref = record { api_group = ""; kind = ""; name = "" }

abbrev pub the_cluster : Cluster
the_cluster = record {
  metadata = named "default" "demo";
  spec = record {
    control_plane_endpoint = record { host = "10.0.0.2"; port = 6443 };
    control_plane_ref = record no_ref { kind = "KwokControlPlane"; name = "demo-cp" };
    infrastructure_ref = record no_ref { kind = "KwokCluster"; name = "demo" };
  };
}

abbrev pub the_machine : Machine
the_machine = record {
  metadata = named "default" "worker";
  spec = record {
    cluster_name = "demo";
    bootstrap = record { config_ref = no_ref; data_secret_name = some "boot" };
    version = "v1.30.0";
  };
}

abbrev pub the_machine_pool : MachinePool
the_machine_pool = record {
  metadata = named "default" "workers";
  spec = record { cluster_name = "demo"; replicas = some (pos 2); template = the_machine.spec };
}

abbrev add : String → List String → List String × Bool
add finalizer finalizers = (finalizer ∷ finalizers, true)

abbrev remove : String → List String → List String
remove finalizer [] = []
remove finalizer (x ∷ xs) =
    let rest = remove finalizer xs in if str_eq finalizer x then rest else x ∷ rest

abbrev pub fake_kube : Kube World Status Target
fake_kube = record {
  is_not_found = is_missing;
  is_already_exists = is_taken;
  machines =
      in_memory (λ o. o.metadata) (λ w. w.kwok_machines) (λ xs w. record w { kwok_machines = xs });
  pools = in_memory (λ o. o.metadata) (λ w. w.kwok_pools) (λ xs w. record w { kwok_pools = xs });
  kwok_clusters =
      in_memory (λ o. o.metadata) (λ w. w.kwok_clusters) (λ xs w. record w { kwok_clusters = xs });
  control_planes =
      in_memory (λ o. o.metadata) (λ w. w.control_planes)
        (λ xs w. record w { control_planes = xs });
  configs = in_memory (λ o. o.metadata) (λ w. w.configs) (λ xs w. record w { configs = xs });
  clusters = record nowhere { get = λ key w. (value the_cluster, w) };
  secrets = in_memory (λ o. o.metadata) (λ w. w.secrets) (λ xs w. record w { secrets = xs });
  nodes = at_target (in_memory (λ o. o.metadata) (λ w. w.nodes) (λ xs w. record w { nodes = xs }));
  leases =
      at_target (in_memory (λ o. o.metadata) (λ w. w.leases) (λ xs w. record w { leases = xs }));
  owner_machine = λ m w. (value (some the_machine), w);
  owner_machine_pool = λ m w. (value (some the_machine_pool), w);
  owner_cluster = λ m w. (value (some the_cluster), w);
  cluster_of_metadata = λ m w. (value the_cluster, w);
  cluster_name_label = "cluster.x-k8s.io/cluster-name";
  machine_pool_name_label = "cluster.x-k8s.io/pool-name";
  is_paused = λ c m. false;
  is_zero_endpoint = λ p. str_eq p.host "" && (p.port == 0);
  is_defined_ref = λ r. not (str_eq r.name "");
  add_finalizer = add;
  remove_finalizer = remove;
  set_owner_reference = λ owner secret. value secret;
  cluster_secret_type = "cluster.x-k8s.io/secret";
  rest_config_of_kubeconfig =
      λ text. value (record { host = "https://127.0.0.1"; credentials = text });
  new_client = λ config w. (value reachable, w);
  now = λ w. (w.time, record w { time = w.time + 1 });
}

abbrev pub the_secret : Secret
the_secret = record {
  metadata = named "default" "demo-kubeconfig";
  contents = ("value", "kubeconfig of demo") ∷ [];
  type_name = "cluster.x-k8s.io/secret";
}

-- A world with the kubeconfig of the cluster.
abbrev pub the_world : World
the_world = record empty_world { secrets = the_secret ∷ [] }

-- A process that has just started in it.
abbrev pub start : Sys World Target
start = record { world = the_world; trace = []; clients = [] }

-- A process that has cached a client of the cluster.
abbrev pub cached : Target → Sys World Target
cached target = record start { clients = ("default/demo", target) ∷ [] }

abbrev pub fresh_machine : KwokMachine
fresh_machine = record {
  metadata = named "default" "kwok-worker";
  spec = record { provider_id = ""; simulation_config = none };
  status = record { provisioned = none; addresses = []; conditions = []; ready = false };
}

abbrev pub machine_with_id : String → KwokMachine
machine_with_id id = record fresh_machine { spec = record fresh_machine.spec { provider_id = id } }

-- A runtime that can be installed and started; its config is there once it is installed.
abbrev pub fake_runtime : Runtime World Status
fake_runtime = record {
  config = λ w. if w.installed then (value tt, w) else (error not_found, w);
  ready = λ w. (value w.running, w);
  set_config = λ name w. (value tt, w);
  save = λ w. (value tt, w);
  install = λ w. (value tt, record w { installed = true });
  up = λ w. (value tt, record w { running = true });
  down = λ w. (value tt, record w { running = false });
  uninstall = λ w. (value tt, record w { installed = false });
}

-- A registry that has the runtimes `docker` and `binary`.
abbrev pub fake_provider : RuntimeProvider World Status
fake_provider = record {
  get = λ name.
      if str_eq name "docker" || str_eq name "binary"
      then some (λ cluster work_dir w. (value fake_runtime, w))
      else none;
  load =
      λ cluster work_dir w. if w.installed then (value fake_runtime, w) else (error not_found, w);
  is_not_exist = is_missing;
}

abbrev pub the_kwok_cluster : Option SimulationConfig → KwokCluster
the_kwok_cluster config = record {
  metadata = named "default" "demo";
  spec = record {
    bind_address = "";
    runtime = "binary";
    working_dir = "/work/demo";
    control_plane_endpoint = record { host = ""; port = 0 };
    simulation_config = config;
  };
  status = record {
    ready = false;
    provisioned = none;
    conditions = [];
    failure_domains = [];
    last_reconcile_duration = 0;
  };
}

abbrev pub the_control_plane : KwokControlPlane
the_control_plane = record {
  metadata = named "default" "demo-cp";
  spec = record {
    control_plane_endpoint = record { host = "10.0.0.2"; port = 6443 };
    simulation_config = none;
  };
  status = record {
    last_reconcile_duration = 0;
    initialized = false;
    ready = false;
    control_plane_initialized = none;
  };
}
