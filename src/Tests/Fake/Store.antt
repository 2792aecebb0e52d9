-- ===== src/Tests/Fake/Store.antt =====
-- The API server of the tests: it keeps objects in lists. One workload cluster answers, one does not.
use cluster_api_provider_kwo.Prelude.{
  ℕ, String, Bool, true, false, ◌&&◌, Option, none, some, List, [], ◌∷◌, str_eq, if◌then◌else◌,
}
use cluster_api_provider_kwo.Prelude.Dict.{lookup}
use cluster_api_provider_kwo.Exec.{Result, value, error}
use cluster_api_provider_kwo.Api.Meta.{NamespacedName, ObjectMeta}
use cluster_api_provider_kwo.Api.Core.{Secret}
use cluster_api_provider_kwo.Api.Workload.{Node, Lease}
use cluster_api_provider_kwo.Api.Kwok.{
  KwokMachine, KwokMachinePool, KwokCluster, KwokControlPlane, KwokConfig,
}
use cluster_api_provider_kwo.Kube.{Op, Client}

pub data Status : Type 0 where
  not_found already_exists unavailable : Status

abbrev pub is_missing : Status → Bool
is_missing not_found = true
is_missing already_exists = false
is_missing unavailable = false

abbrev pub is_taken : Status → Bool
is_taken not_found = false
is_taken already_exists = true
is_taken unavailable = false

-- A workload cluster that answers, and one that is gone.
pub data Target : Type 0 where
  reachable gone : Target

pub record World : Type 0 where
  pub time : ℕ
  pub kwok_machines : List KwokMachine
  pub kwok_pools : List KwokMachinePool
  pub kwok_clusters : List KwokCluster
  pub control_planes : List KwokControlPlane
  pub configs : List KwokConfig
  pub secrets : List Secret
  pub nodes : List Node
  pub leases : List Lease
  -- the simulated cluster on the host
  pub installed : Bool
  pub running : Bool

abbrev pub empty_world : World
empty_world = record {
  time = 100;
  kwok_machines = [];
  kwok_pools = [];
  kwok_clusters = [];
  control_planes = [];
  configs = [];
  secrets = [];
  nodes = [];
  leases = [];
  installed = false;
  running = false;
}

abbrev pub at_key : NamespacedName → ObjectMeta → Bool
at_key key m = str_eq key.namespace m.namespace && str_eq key.name m.name

abbrev pub key_of : ObjectMeta → NamespacedName
key_of m = record { namespace = m.namespace; name = m.name }

abbrev pub has_labels : List (String × String) → List (String × String) → Bool
has_labels [] labels = true
has_labels ((k, v) ∷ wanted) labels =
    let rest = has_labels wanted labels in
    elim (lookup k labels) [ none ↦ false | some v' ↦ str_eq v v' && rest ]

module _ {O : Type 0} (meta : O → ObjectMeta) where
  abbrev pub find : NamespacedName → List O → Option O
  find key [] = none
  find key (x ∷ xs) = let rest = find key xs in if at_key key (meta x) then some x else rest

  abbrev put : O → List O → List O
  put y [] = []
  put y (x ∷ xs) =
      let rest = put y xs in if at_key (key_of (meta y)) (meta x) then y ∷ xs else x ∷ rest

  abbrev pub drop_key : NamespacedName → List O → List O
  drop_key key [] = []
  drop_key key (x ∷ xs) =
      let rest = drop_key key xs in if at_key key (meta x) then rest else x ∷ rest

  abbrev pub select : String → List (String × String) → List O → List O
  select namespace labels [] = []
  select namespace labels (x ∷ xs) =
      let rest = select namespace labels xs in
      if str_eq namespace (meta x).namespace && has_labels labels (meta x).labels
      then x ∷ rest
      else rest

  abbrev pub found : Option O → Result Status O
  found none = error not_found
  found (some x) = value x

  abbrev pub if_there : {A : Type 0} → Option O → A → A → A
  if_there none there missing = missing
  if_there (some x) there missing = there

  module _ (read : World → List O) (write : List O → World → World) where
    abbrev replace : O → Op World Status (Unit {0})
    replace x w =
        if_there (find (key_of (meta x)) (read w)) (value tt, write (put x (read w)) w)
          (error not_found, w)

    abbrev pub in_memory : Client World Status O
    in_memory = record {
      get = λ key w. (found (find key (read w)), w);
      list = λ namespace labels w. (value (select namespace labels (read w)), w);
      create = λ x w.
          if_there (find (key_of (meta x)) (read w)) (error already_exists, w)
            (value x, write (x ∷ read w) w);
      update = replace;
      update_status = replace;
      delete = λ x w.
          if_there (find (key_of (meta x)) (read w))
            (value tt, write (drop_key (key_of (meta x)) (read w)) w) (error not_found, w);
      new_helper = λ before w. (value replace, w);
    }

-- A cluster whose API server answers nothing.
abbrev pub nowhere : {O : Type 0} → Client World Status O
nowhere = record {
  get = λ key w. (error unavailable, w);
  list = λ namespace labels w. (error unavailable, w);
  create = λ x w. (error unavailable, w);
  update = λ x w. (error unavailable, w);
  update_status = λ x w. (error unavailable, w);
  delete = λ x w. (error unavailable, w);
  new_helper = λ before w. (error unavailable, w);
}

abbrev pub at_target : {O : Type 0} → Client World Status O → Target → Client World Status O
at_target client reachable = client
at_target client gone = nowhere
