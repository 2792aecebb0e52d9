-- ===== src/Manager/Main.antt =====
-- `main`, `setupProbes` and `setupReconcilers` of main.go.
use cluster_api_provider_kwo.Prelude.{String, true, Option, none, some, str_eq, if◌then◌else◌}
use cluster_api_provider_kwo.Prelude.Int.{ℤ}
use cluster_api_provider_kwo.Exec.{Exec, pure, ◌>>=◌, ◌>>◌}
use cluster_api_provider_kwo.Manager.{Flags, manager_options}
use cluster_api_provider_kwo.Manager.Registration.{
  Registration, ControllerOptions, kwok_machine_registration, kwok_machine_pool_registration,
  kwok_cluster_registration, kwok_control_plane_registration, kwok_config_registration,
}
use cluster_api_provider_kwo.Manager.Setup.{Platform, Process, Exit, Event, must, always}

-- `controller.Options{MaxConcurrentReconciles: n, RecoverPanic: ptr.To(true)}`
unfoldable pub concurrent : ℤ → ControllerOptions
concurrent n = record { max_concurrent_reconciles = n; recover_panic = some true }

module _ {W E M : Type 0} (platform : Platform W E M) where
  unfoldable pub setup_probes : M → Exec (Process W) (Exit E) (Unit {0})
  setup_probes mgr = do
    must Exit.unable_to_set_up_health_check (Event.adding_healthz_check "healthz")
        (platform.add_healthz_check mgr "healthz")
    must Exit.unable_to_set_up_ready_check (Event.adding_readyz_check "readyz")
        (platform.add_readyz_check mgr "readyz")

  -- One `SetupWithManager` that fails with the context, and what main does then.
  unfoldable pub register :
      M → String → Option String → Registration → Exec (Process W) (Exit E) (Unit {0})
  register mgr controller context registration =
      must (Exit.unable_to_create_controller controller context) (Event.registering registration)
        (platform.build_controller mgr registration)

  -- No reconciler is given a `WatchFilterValue`: it is the empty text in each of them.
  unfoldable pub setup_reconcilers : Flags → M → Exec (Process W) (Exit E) (Unit {0})
  unfolding register concurrent
  setup_reconcilers flags mgr = do
    register mgr "KwokCluster" (some "error creating controller")
        (kwok_cluster_registration "" (concurrent flags.cluster_concurrency))
    register mgr "KwokMachine" (some "failed setting up the KwokMachine controller manager")
        (kwok_machine_registration "" (concurrent flags.machine_concurrency))
    register mgr "KwokMachinePool" (some "failed setting up the KwokMachinePool controller manager")
        (kwok_machine_pool_registration "" (concurrent flags.machine_pool_concurrency))
    register mgr "KwokControlPlane"
        (some "failed setting up the KwokControlPlane controller manager")
        (kwok_control_plane_registration "" (concurrent flags.control_plane_concurrency))
    register mgr "KwokConfig" none kwok_config_registration

  -- The variables by which a process in a pod finds the cluster that it runs in.
  unfoldable pub unset_discovery : Exec (Process W) (Exit E) (Unit {0})
  unset_discovery = do
    always (Event.unsetting "KUBERNETES_SERVICE_HOST")
        (platform.unset_env "KUBERNETES_SERVICE_HOST")
    always (Event.unsetting "KUBERNETES_SERVICE_PORT")
        (platform.unset_env "KUBERNETES_SERVICE_PORT")
    always (Event.unsetting "KUBERNETES_SERVICE_PORT_HTTPS")
        (platform.unset_env "KUBERNETES_SERVICE_PORT_HTTPS")

  unfoldable pub serve_profiler : Flags → Exec (Process W) (Exit E) (Unit {0})
  serve_profiler flags =
      if str_eq flags.profiler_address ""
      then pure tt
      else always (Event.listening flags.profiler_address)
          (platform.listen_and_serve flags.profiler_address)

  -- `main` behind the creation of the manager.
  unfoldable pub launch : Flags → M → Exec (Process W) (Exit E) (Unit {0})
  launch flags mgr = do
    unset_discovery
    setup_probes mgr
    setup_reconcilers flags mgr
    must Exit.problem_running_manager Event.starting (platform.start mgr)

  -- `main` behind the parsing of the flags.
  unfoldable pub main : Flags → Exec (Process W) (Exit E) (Unit {0})
  unfolding serve_profiler launch
  main flags = do
    serve_profiler flags
    config ← must Exit.no_config Event.reading_config platform.get_config
    mgr ←
        must Exit.unable_to_start_manager (Event.creating_manager (manager_options flags))
          (platform.new_manager config (manager_options flags))
    launch flags mgr
