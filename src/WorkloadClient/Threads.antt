-- ===== src/WorkloadClient/Threads.antt =====
-- internal/controller/infrastructure/workload_client.go under many goroutines. The mutex is in the
-- state: a goroutine waits for it before the look-up, the insertion and the removal, and gives it back
-- after each of them, so that calls of `GetClient` and of `RemoveClient` interleave in between.
pub mod Built
pub mod Fine
pub mod Invariant
pub mod Race
pub mod Mutex
pub mod Progress
use native.Mathlib.Decide.{ℕ_discrete}
use mathlib.Core.Logic.{ite}
use cluster_api_provider_kwo.Prelude.{ℕ, String, Option, none, some, ◌≡◌}
use cluster_api_provider_kwo.Prelude.Dict.{lookup}
use cluster_api_provider_kwo.Exec.{Outcome, ok, err, panic, out_of_fuel}
use cluster_api_provider_kwo.Api.Meta.{ApiEndpoint}
use cluster_api_provider_kwo.Kube.{Kube, RestConfig, Failure}
use cluster_api_provider_kwo.Kube.Session.{Sys}
use cluster_api_provider_kwo.WorkloadClient.{
  cache_key, fetch_config, connect, remember, remove_client, new_factory,
}
use cluster_api_provider_kwo.WorkloadClient.Key.{NoSlash}

-- The arguments of a call of `GetClient`.
pub record Request : Type 0 where
  pub cluster_name : String
  pub namespace : String
  pub endpoint : ApiEndpoint

abbrev pub key_of : Request → String
key_of r = cache_key r.cluster_name r.namespace

-- Where a goroutine stands: `calling`, `waiting` and `asking` are before a `f.mu.Lock()`; `looking`,
-- `storing` and `removing` are behind it; `returned` has what `GetClient` gave.
pub data Pc (E C : Type 0) : Type 0 where
  idle : Pc E C
  calling looking fetching : Request → Pc E C
  connecting : Request → RestConfig → Pc E C
  waiting storing : Request → C → Pc E C
  returned : Request → Outcome (Failure E) C → Pc E C
  asking removing : String → String → Pc E C

module _ {E C : Type 0} where
  abbrev pub after_lookup : Request → Option C → Pc E C
  after_lookup r (some c) = returned r (ok c)
  after_lookup r none = fetching r

  abbrev pub after_fetch : Request → Outcome (Failure E) RestConfig → Pc E C
  after_fetch r (ok config) = connecting r config
  after_fetch r (err e) = returned r (err e)
  after_fetch r panic = returned r panic
  after_fetch r out_of_fuel = returned r out_of_fuel

  abbrev pub after_connect : Request → Outcome (Failure E) C → Pc E C
  after_connect r (ok c) = waiting r c
  after_connect r (err e) = returned r (err e)
  after_connect r panic = returned r panic
  after_connect r out_of_fuel = returned r out_of_fuel

-- What the goroutines share: the process, and the goroutine that holds the mutex, if one does.
pub record Shared (W C : Type 0) : Type 0 where
  pub sys : Sys W C
  pub mutex : Option ℕ

module _ {W E C : Type 0} where
  -- `f.mu.Lock()`: a goroutine that finds the mutex held stays where it is.
  unfoldable pub lock : ℕ → Option ℕ → Pc E C → Pc E C → Shared W C → Pc E C × Shared W C
  lock i none before behind s = (behind, record s { mutex = some i })
  lock i (some j) before behind s = (before, s)

module _ {W C : Type 0} where
  -- `f.mu.Unlock()`
  unfoldable pub unlock : Shared W C → Shared W C
  unlock s = record s { mutex = none }

module _ {W E C : Type 0} (kube : Kube W E C) where
  -- The next step of goroutine `i`.
  unfoldable pub advance : ℕ → Pc E C → Shared W C → Pc E C × Shared W C
  unfolding lock unlock
  advance i idle s = (idle, s)
  advance i (calling r) s = lock i s.mutex (calling r) (looking r) s
  advance i (looking r) s = (after_lookup r (lookup (key_of r) s.sys.clients), unlock s)
  advance i (fetching r) s =
      let (o, t) = fetch_config kube r.cluster_name r.namespace s.sys in
      (after_fetch r o, record s { sys = t })
  advance i (connecting r config) s =
      let (o, t) = connect kube r.endpoint config s.sys in (after_connect r o, record s { sys = t })
  advance i (waiting r c) s = lock i s.mutex (waiting r c) (storing r c) s
  advance i (storing r c) s =
      (returned r (ok c), unlock (record s { sys = (remember {E = E} (key_of r) c s.sys).1 }))
  advance i (returned r o) s = (returned r o, s)
  advance i (asking cluster_name namespace) s =
      lock i s.mutex (asking cluster_name namespace) (removing cluster_name namespace) s
  advance i (removing cluster_name namespace) s =
      (idle, unlock (record s { sys = remove_client cluster_name namespace s.sys }))

-- Goroutines over one factory.
pub record System (W E C : Type 0) : Type 0 where
  pub shared : Shared W C
  pub pc : ℕ → Pc E C

abbrev pub update : {A : Type 0} → (ℕ → A) → ℕ → A → ℕ → A
update f i a j = ite (ℕ_discrete i j) a (f j)

module _ {W E C : Type 0} (kube : Kube W E C) where
  -- After the next step of goroutine `i`.
  abbrev pub gone_on : System W E C → ℕ → System W E C
  gone_on s i = record {
    shared = (advance kube i (s.pc i) s.shared).1;
    pc = update s.pc i (advance kube i (s.pc i) s.shared).0;
  }

  -- A goroutine calls, goes on, or ends a call, or something outside changes the world. No namespace
  -- that is asked for has a slash, as in Kubernetes.
  pub data Step (s : System W E C) : System W E C → Type 0 where
    call_get :
        (i : ℕ) (r : Request)
        → s.pc i ≡ idle
        → NoSlash r.namespace
        → Step s (record s { pc = update s.pc i (calling r) })
    call_remove :
        (i : ℕ) (cluster_name namespace : String)
        → s.pc i ≡ idle
        → NoSlash namespace
        → Step s (record s { pc = update s.pc i (asking cluster_name namespace) })
    go_on : (i : ℕ) → Step s (gone_on s i)
    call_ends :
        (i : ℕ) (r : Request) (o : Outcome (Failure E) C)
        → s.pc i ≡ returned r o
        → Step s (record s { pc = update s.pc i idle })
    outside :
        (w : W)
        → Step s (record s { shared = record s.shared { sys = record s.shared.sys { world = w } } })

  -- A new factory that no goroutine has called.
  abbrev pub init : W → System W E C
  init w = record { shared = record { sys = new_factory w; mutex = none }; pc = λ _. idle }

  pub data Reach (w : W) : System W E C → Type 0 where
    start : Reach w (init w)
    later : {s t : System W E C} → Reach w s → Step s t → Reach w t
