-- ===== src/Manager/Setup.antt =====
-- The steps of main.go on a process: each asks something of controller-runtime or of the operating
-- system, and ends the process where it is refused.
use cluster_api_provider_kwo.Prelude.{String, Bool, true, false, Option, List, ◌∷◌}
use cluster_api_provider_kwo.Exec.{Result, value, error, Outcome, ok, err, Exec}
use cluster_api_provider_kwo.Kube.{Op, RestConfig}
use cluster_api_provider_kwo.Manager.{ManagerOptions}
use cluster_api_provider_kwo.Manager.Registration.{Registration}

pub data Event : Type 0 where
  listening : String → Event
  reading_config : Event
  creating_manager : ManagerOptions → Event
  unsetting : String → Event
  adding_healthz_check adding_readyz_check : String → Event
  registering : Registration → Event
  starting : Event

-- controller-runtime and the operating system, over a type `W` of states of the world and a type `M`
-- of managers.
pub record Platform (W E M : Type 0) : Type 0 where
  pub listen_and_serve : String → W → W  -- in the background
  pub get_config : Op W E RestConfig
  pub new_manager : RestConfig → ManagerOptions → Op W E M
  pub unset_env : String → W → W
  pub add_healthz_check : M → String → Op W E (Unit {0})
  pub add_readyz_check : M → String → Op W E (Unit {0})
  pub build_controller : M → Registration → Op W E (Unit {0})
  pub start : M → Op W E (Unit {0})

-- A process: the world, and what it has asked for, the newest first, with whether it was granted.
pub record Process (W : Type 0) : Type 0 where
  pub world : W
  pub asked : List (Event × Bool)

-- The texts that `setupLog.Error` prints before `os.Exit(1)`; `build_failed` has the name of the
-- controller, and the context that its `SetupWithManager` adds to the error, where it adds one.
pub data Exit (E : Type 0) : Type 0 where
  no_config unable_to_start_manager unable_to_set_up_health_check : E → Exit E
  unable_to_set_up_ready_check problem_running_manager : E → Exit E
  unable_to_create_controller : String → Option String → E → Exit E

module _ {W E A : Type 0} where
  -- What comes of a request that ends the process where it is refused.
  abbrev pub granted :
      (E → Exit E) → Event → Result E A → W → Process W → Outcome (Exit E) A × Process W
  granted exit event (value a) w s = (ok a, record { world = w; asked = (event, true) ∷ s.asked })
  granted exit event (error e) w s =
      (err (exit e), record { world = w; asked = (event, false) ∷ s.asked })

  -- `if err := …; err != nil { setupLog.Error(err, …); os.Exit(1) }`
  unfoldable pub must : (E → Exit E) → Event → Op W E A → Exec (Process W) (Exit E) A
  must exit event op s = let (r, w) = op s.world in granted exit event r w s

module _ {W E : Type 0} where
  -- A call whose result the source drops.
  unfoldable pub always : Event → (W → W) → Exec (Process W) (Exit E) (Unit {0})
  always event f s = (ok tt, record { world = f s.world; asked = (event, true) ∷ s.asked })
