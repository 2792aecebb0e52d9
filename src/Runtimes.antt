-- ===== src/Runtimes.antt =====
-- The runtimes of sigs.k8s.io/kwok, which create and run a simulated cluster on the host of the
-- controller, as functions over the world outside: pkg/services/kwok/cluster/runtime.go puts the
-- registry behind an interface, and the model takes what implements it as a parameter.
use cluster_api_provider_kwo.Prelude.{String, Bool, Option}
use cluster_api_provider_kwo.Kube.{Op}

-- `kwokruntime.Runtime` at the methods that the source calls.
pub record Runtime (W E : Type 0) : Type 0 where
  pub config : Op W E (Unit {0})
  pub ready : Op W E Bool
  pub set_config : String → Op W E (Unit {0})  -- the runtime's name in `KwokctlConfiguration`
  pub save : Op W E (Unit {0})
  pub install : Op W E (Unit {0})
  pub up : Op W E (Unit {0})
  pub down : Op W E (Unit {0})
  pub uninstall : Op W E (Unit {0})

-- `RuntimeProvider`: `get` gives the function that builds a runtime from a name and a working
-- directory.
pub record RuntimeProvider (W E : Type 0) : Type 0 where
  pub get : String → Option (String → String → Op W E (Runtime W E))
  pub load : String → String → Op W E (Runtime W E)
  pub is_not_exist : E → Bool  -- `errors.Is(err, os.ErrNotExist)`
