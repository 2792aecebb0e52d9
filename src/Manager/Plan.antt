-- ===== src/Manager/Plan.antt =====
-- main.go carries out a fixed plan.
use mathlib.Core.List.{◌++◌}
use cluster_api_provider_kwo.Prelude.{List, [], ◌∷◌, str_eq, if◌then◌else◌}
use cluster_api_provider_kwo.Manager.{Flags, manager_options}
use cluster_api_provider_kwo.Manager.Registration.{
  kwok_machine_registration, kwok_machine_pool_registration, kwok_cluster_registration,
  kwok_control_plane_registration, kwok_config_registration,
}
use cluster_api_provider_kwo.Manager.Setup.{Platform, Process, Event}
use cluster_api_provider_kwo.Manager.Main.{
  concurrent, setup_probes, register, setup_reconcilers, unset_discovery, serve_profiler, launch,
  main,
}
use cluster_api_provider_kwo.Manager.Follows.{
  IsFollowed, Follows, if-Follows, pure-Follows, must-Follows, always-Follows, >>=-Follows,
  must-then-Follows, always-then-Follows,
}

abbrev profiler_plan : Flags → List Event
profiler_plan flags =
    if str_eq flags.profiler_address "" then [] else Event.listening flags.profiler_address ∷ []

abbrev discovery_plan : List Event
discovery_plan =
    Event.unsetting "KUBERNETES_SERVICE_HOST"
    ∷ Event.unsetting "KUBERNETES_SERVICE_PORT"
    ∷ Event.unsetting "KUBERNETES_SERVICE_PORT_HTTPS"
    ∷ []

abbrev probes_plan : List Event
probes_plan = Event.adding_healthz_check "healthz" ∷ Event.adding_readyz_check "readyz" ∷ []

abbrev reconcilers_plan : Flags → List Event
reconcilers_plan flags =
    Event.registering (kwok_cluster_registration "" (concurrent flags.cluster_concurrency))
    ∷ Event.registering (kwok_machine_registration "" (concurrent flags.machine_concurrency))
    ∷ Event.registering
        (kwok_machine_pool_registration "" (concurrent flags.machine_pool_concurrency))
    ∷ Event.registering
        (kwok_control_plane_registration "" (concurrent flags.control_plane_concurrency))
    ∷ Event.registering kwok_config_registration
    ∷ []

abbrev launch_plan : Flags → List Event
launch_plan flags =
    discovery_plan ++ (probes_plan ++ (reconcilers_plan flags ++ (Event.starting ∷ [])))

-- All that the process asks for, in order: the start comes last.
abbrev pub plan : Flags → List Event
plan flags =
    profiler_plan flags
    ++ (Event.reading_config ∷ Event.creating_manager (manager_options flags) ∷ launch_plan flags)

module _ {W E M : Type 0} (platform : Platform W E M) where
  setup_reconcilers-Follows :
      (flags : Flags) (mgr : M)
      → Follows (reconcilers_plan flags) (setup_reconcilers platform flags mgr)
  unfolding setup_reconcilers register
  setup_reconcilers-Follows flags mgr = must-then-Follows _ _ _ _ _ (λ _.
      must-then-Follows _ _ _ _ _ (λ _.
        must-then-Follows _ _ _ _ _ (λ _. must-then-Follows _ _ _ _ _ (λ _. must-Follows _ _ _))))

  setup_probes-Follows : (mgr : M) → Follows probes_plan (setup_probes platform mgr)
  unfolding setup_probes
  setup_probes-Follows mgr = must-then-Follows _ _ _ _ _ (λ _. must-Follows _ _ _)

  unset_discovery-Follows : Follows discovery_plan (unset_discovery platform)
  unfolding unset_discovery
  unset_discovery-Follows =
      always-then-Follows _ _ _ _ (always-then-Follows _ _ _ _ (always-Follows _ _))

  launch-Follows :
      (flags : Flags) (mgr : M) → Follows (launch_plan flags) (launch platform flags mgr)
  unfolding launch
  launch-Follows flags mgr =
      >>=-Follows discovery_plan _ (unset_discovery platform) _ unset_discovery-Follows (λ _.
        >>=-Follows probes_plan _ (setup_probes platform mgr) _ (setup_probes-Follows mgr) (λ _.
          >>=-Follows (reconcilers_plan flags) _ (setup_reconcilers platform flags mgr) _
            (setup_reconcilers-Follows flags mgr) (λ _. must-Follows _ _ _)))

  serve_profiler-Follows :
      (flags : Flags) → Follows (profiler_plan flags) (serve_profiler platform flags)
  unfolding serve_profiler
  serve_profiler-Follows flags =
      if-Follows (str_eq flags.profiler_address "") _ _ _ _ (pure-Follows tt) (always-Follows _ _)

  -- The process asks for the things of its plan in order (the configuration, the manager, the removal
  -- of the discovery variables, both probes, the five controllers, the start), whatever
  -- controller-runtime answers: it returns only when all of them were granted, the start of the manager as the last one, and it
  -- exits at the first refusal, without asking for what comes later.
  pub main-IsFollowed :
      (flags : Flags) (s : Process W)
      → IsFollowed (plan flags) s.asked (main platform flags s).0 (main platform flags s).1.asked
  unfolding main
  main-IsFollowed flags =
      >>=-Follows (profiler_plan flags) _ (serve_profiler platform flags) _
        (serve_profiler-Follows flags)
        (λ _.
          must-then-Follows _ _ _ _ _
            (λ config. must-then-Follows _ _ _ _ _ (λ mgr. launch-Follows flags mgr)))
