-- ===== src/Api/Meta.antt =====
-- Metadata of an object, names, and the values that several API groups share
-- (api/shared/v1alpha1/types.go).
use cluster_api_provider_kwo.Prelude.Int.{ℤ}
use cluster_api_provider_kwo.Prelude.{ℕ, String, List, [], Option, none, Bool, true, false}

pub record NamespacedName : Type 0 where
  pub namespace : String
  pub name : String

pub record OwnerReference : Type 0 where
  pub api_version : String
  pub kind : String
  pub name : String
  pub uid : String

pub record ObjectMeta : Type 0 where
  pub name : String
  pub namespace : String
  pub uid : String
  pub labels : List (String × String)
  pub annotations : List (String × String)
  pub finalizers : List String
  pub owner_references : List OwnerReference
  pub deletion_timestamp : Option ℕ

-- Metadata that a struct literal leaves at Go's zero values, but for the name.
abbrev pub named : String → String → ObjectMeta
named namespace name = record {
  name = name;
  namespace = namespace;
  uid = "";
  labels = [];
  annotations = [];
  finalizers = [];
  owner_references = [];
  deletion_timestamp = none;
}

pub record ApiEndpoint : Type 0 where
  pub host : String
  pub port : ℕ

-- `type Reconcile`: the latency is a `time.Duration`.
pub record Reconcile : Type 0 where
  pub latency : ℤ

pub record SimulationConfig : Type 0 where
  pub reconcile : Option Reconcile

-- What `Reconcile` returns beside its error; the duration is in seconds.
pub record CtrlResult : Type 0 where
  pub requeue : Bool
  pub requeue_after : ℕ

abbrev pub done : CtrlResult
done = record { requeue = false; requeue_after = 0 }

abbrev pub requeue_now : CtrlResult
requeue_now = record { requeue = true; requeue_after = 0 }

abbrev pub requeue_after_seconds : ℕ → CtrlResult
requeue_after_seconds n = record { requeue = false; requeue_after = n }
