-- ===== src/Manager/Ignored.antt =====
-- Flags of main.go that reach nothing.
use cluster_api_provider_kwo.Prelude.{String, ◌≡◌, refl}
use cluster_api_provider_kwo.Prelude.Int.{ℤ}
use cluster_api_provider_kwo.Manager.{Flags, manager_options}
use cluster_api_provider_kwo.Manager.Registration.{kwok_cluster_registration}
use cluster_api_provider_kwo.Manager.Setup.{Platform, Process}
use cluster_api_provider_kwo.Manager.Main.{main, launch, serve_profiler, setup_reconcilers}

module _ {W E M : Type 0} (platform : Platform W E M) where
  -- The flags `--watch-filter` and `--cluster-concurrency` change nothing: whatever they are set to,
  -- the process asks for the same things with the same result.
  ignored_flags :
      (flags : Flags) (watch_filter : String) (concurrency : ℤ) (s : Process W)
      → main platform
          (record flags { watch_filter_value = watch_filter; cluster_concurrency = concurrency })
          s
        ≡ main platform flags s
  unfolding main launch serve_profiler setup_reconcilers manager_options kwok_cluster_registration
  ignored_flags flags watch_filter concurrency s = refl
