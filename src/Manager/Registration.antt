-- ===== src/Manager/Registration.antt =====
-- What `SetupWithManager` of each controller registers: the builder of controller-runtime as data.
use cluster_api_provider_kwo.Prelude.{String, Bool, Option, none, some, List, [], ◌∷◌}
use cluster_api_provider_kwo.Prelude.Int.{ℤ}

pub data Kind : Type 0 where
  kwok_cluster kwok_machine kwok_machine_pool kwok_control_plane kwok_config : Kind
  cluster machine machine_pool : Kind

-- A group and a kind of Kubernetes, without the version.
pub record GroupKind : Type 0 where
  pub group : String
  pub kind : String

-- `infrav1.GroupVersion.WithKind(…)`
abbrev pub infrastructure_kind : String → GroupKind
infrastructure_kind kind = record { group = "infrastructure.cluster.x-k8s.io"; kind = kind }

-- `controlPlane.GroupVersionKind()` where `controlPlane := &KwokControlPlane{}`: what an object says of
-- its kind, which a new one leaves empty.
abbrev pub kind_of_new_object : GroupKind
kind_of_new_object = record { group = ""; kind = "" }

-- What a watch makes requests with: helpers of Cluster API for a kind, or functions of the source.
pub data Mapper : Type 0 where
  cluster_to_infrastructure machine_to_infrastructure machine_pool_to_infrastructure :
      GroupKind → Mapper
  kwok_cluster_to_kwok_control_plane : Mapper
  machine_to_bootstrap_config machine_pool_to_bootstrap_config : Mapper

-- The predicates of Cluster API that keep events out.
pub data Predicate : Type 0 where
  resource_not_paused_and_has_filter_label : String → Predicate
  resource_not_paused cluster_unpaused_and_infrastructure_provisioned : Predicate

pub record Watch : Type 0 where
  pub watched : Kind
  pub mapper : Mapper
  pub watch_predicate : Option Predicate

-- `controller.Options`, with the fields that main sets.
pub record ControllerOptions : Type 0 where
  pub max_concurrent_reconciles : ℤ
  pub recover_panic : Option Bool

pub record Registration : Type 0 where
  pub reconciles : Kind
  pub options : Option ControllerOptions
  pub event_filter : Option Predicate
  pub watches : List Watch
  pub owns : List Kind

-- `r.WatchFilterValue` and, where the controller has them, `options` are the arguments.
unfoldable pub kwok_machine_registration : String → ControllerOptions → Registration
kwok_machine_registration watch_filter_value options = record {
  reconciles = Kind.kwok_machine;
  options = some options;
  event_filter = some (Predicate.resource_not_paused_and_has_filter_label watch_filter_value);
  watches =
      (record {
        watched = Kind.machine;
        mapper = Mapper.machine_to_infrastructure (infrastructure_kind "KwokMachine");
        watch_predicate = some Predicate.resource_not_paused;
      })
      ∷ [];
  owns = [];
}

unfoldable pub kwok_machine_pool_registration : String → ControllerOptions → Registration
kwok_machine_pool_registration watch_filter_value options = record {
  reconciles = Kind.kwok_machine_pool;
  options = some options;
  event_filter = some (Predicate.resource_not_paused_and_has_filter_label watch_filter_value);
  watches =
      (record {
        watched = Kind.machine_pool;
        mapper = Mapper.machine_pool_to_infrastructure (infrastructure_kind "KwokMachinePool");
        watch_predicate = some Predicate.resource_not_paused;
      })
      ∷ [];
  owns = Kind.kwok_machine ∷ [];
}

-- The source takes `options` here too and does not use them.
unfoldable pub kwok_cluster_registration : String → ControllerOptions → Registration
kwok_cluster_registration watch_filter_value options = record {
  reconciles = Kind.kwok_cluster;
  options = none;
  event_filter = some (Predicate.resource_not_paused_and_has_filter_label watch_filter_value);
  watches = [];
  owns = [];
}

unfoldable pub kwok_control_plane_registration : String → ControllerOptions → Registration
kwok_control_plane_registration watch_filter_value options = record {
  reconciles = Kind.kwok_control_plane;
  options = some options;
  event_filter = some (Predicate.resource_not_paused_and_has_filter_label watch_filter_value);
  watches =
      (record {
        watched = Kind.cluster;
        mapper = Mapper.cluster_to_infrastructure kind_of_new_object;
        watch_predicate = some Predicate.cluster_unpaused_and_infrastructure_provisioned;
      })
      ∷ (record {
        watched = Kind.kwok_cluster;
        mapper = Mapper.kwok_cluster_to_kwok_control_plane;
        watch_predicate = none;
      })
      ∷ [];
  owns = [];
}

abbrev pub kwok_config_registration : Registration
kwok_config_registration = record {
  reconciles = Kind.kwok_config;
  options = none;
  event_filter = none;
  watches =
      (record {
        watched = Kind.machine;
        mapper = Mapper.machine_to_bootstrap_config;
        watch_predicate = none;
      })
      ∷ (record {
        watched = Kind.machine_pool;
        mapper = Mapper.machine_pool_to_bootstrap_config;
        watch_predicate = none;
      })
      ∷ [];
  owns = [];
}
