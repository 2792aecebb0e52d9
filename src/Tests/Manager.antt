-- ===== src/Tests/Manager.antt =====
-- Runs of main.go on a platform that grants all but the controllers of one kind.
use cluster_api_provider_kwo.Prelude.{
  ℕ, suc, String, Bool, true, false, some, [], ◌≡◌, if◌then◌else◌, refl, length,
}
use cluster_api_provider_kwo.Prelude.Int.{pos}
use cluster_api_provider_kwo.Exec.{Result, value, error, ok, err}
use cluster_api_provider_kwo.Manager.{Flags, init_flags}
use cluster_api_provider_kwo.Manager.Registration.{
  Kind, kwok_cluster_registration, kwok_machine_pool_registration, kwok_machine_registration,
}
use cluster_api_provider_kwo.Manager.Setup.{Platform, Process, Exit, must, always}
use cluster_api_provider_kwo.Manager.Main.{main, setup_probes, setup_reconcilers, unset_discovery}
use cluster_api_provider_kwo.Manager.Follows.{IsFollowed}
use cluster_api_provider_kwo.Manager.Plan.{plan, main-IsFollowed}

abbrev is_kwok_machine_pool : Kind → Bool
is_kwok_machine_pool Kind.kwok_machine_pool = true
is_kwok_machine_pool _ = false

-- The world counts the calls that were granted.
abbrev grant : ℕ → Result String (Unit {0}) × ℕ
grant w = (value tt, suc w)

-- It has no resource of the kind KwokMachinePool where `incomplete`.
abbrev platform_of : Bool → Platform ℕ String (Unit {0})
platform_of incomplete = record {
  listen_and_serve = λ address w. w;
  get_config = λ w. (value (record { host = "https://10.0.0.1"; credentials = "" }), w);
  new_manager = λ config options w. (value tt, w);
  unset_env = λ name w. w;
  add_healthz_check = λ mgr name. grant;
  add_readyz_check = λ mgr name. grant;
  build_controller = λ mgr registration w.
      if incomplete
      then (if is_kwok_machine_pool registration.reconciles then (error "no match", w) else grant w)
      else grant w;
  start = λ mgr. grant;
}

abbrev new_process : Process ℕ
new_process = record { world = 0; asked = [] }

abbrev example_flags : Flags
example_flags = record init_flags {
  profiler_address = "localhost:6060";
  machine_concurrency = pos 10;
}

main_test_granted : (main (platform_of false) example_flags new_process).0 ≡ ok tt
unfolding main always must unset_discovery setup_probes setup_reconcilers
main_test_granted = refl

main_test_refused :
    (main (platform_of true) example_flags new_process).0
    ≡ err (
        Exit.unable_to_create_controller "KwokMachinePool"
          (some "failed setting up the KwokMachinePool controller manager")
          "no match")
unfolding main always must unset_discovery setup_probes setup_reconcilers kwok_cluster_registration
    kwok_machine_registration kwok_machine_pool_registration
main_test_refused = refl

main_test_asked : length (main (platform_of true) example_flags new_process).1.asked ≡ 11
unfolding main always must unset_discovery setup_probes setup_reconcilers kwok_cluster_registration
    kwok_machine_registration kwok_machine_pool_registration
main_test_asked = refl

main-IsFollowed_example :
    IsFollowed
      (plan example_flags)
      []
      (main (platform_of true) example_flags new_process).0
      (main (platform_of true) example_flags new_process).1.asked
main-IsFollowed_example = main-IsFollowed (platform_of true) example_flags new_process
