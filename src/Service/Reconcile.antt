-- ===== src/Service/Reconcile.antt =====
-- `Service.Reconcile` in pkg/services/kwok/cluster/create.go.
pub mod Ready
use Prim.Native.String.{◌++◌}
use cluster_api_provider_kwo.Prelude.{
  ℕ, String, Bool, true, false, not, Option, none, some, ◌==◌, if◌then◌else◌,
}
use cluster_api_provider_kwo.Exec.{
  Result, value, error, Exec, pure, raise, attempt, map_err, ◌>>=◌, ◌>>◌,
}
use cluster_api_provider_kwo.Api.Meta.{CtrlResult, done, requeue_after_seconds}
use cluster_api_provider_kwo.Api.Kwok.{KwokControlPlane}
use cluster_api_provider_kwo.Kube.{
  Kube, Op, Failure, message, wrap, runtime_not_found, runtime_not_available, starting_cluster,
  reconciling_kubeconfig, reconciling_kind_kubeconfig, loading_kubeconfig_from,
  creating_http_client, set_config, save, install, up,
}
use cluster_api_provider_kwo.Kube.Session.{Sys, Held, query, request, try_query, on_sys, modify}
use cluster_api_provider_kwo.Runtimes.{Runtime, RuntimeProvider}
use cluster_api_provider_kwo.ControlPlaneScope.{Scope, runtime, name, work_dir}
use cluster_api_provider_kwo.Service.Host.{Host}
use cluster_api_provider_kwo.Service.Kubeconfig.{given}
use cluster_api_provider_kwo.Service.Secrets.{
  kubeconfig_path, is_kind, reconcile_kind_kubeconfig, reconcile_kubeconfig,
}

-- `Status.Ready`, `Status.Initialized` and `ControlPlaneInitialized` are set.
unfoldable pub mark_ready : KwokControlPlane → KwokControlPlane
mark_ready control_plane = record control_plane {
  status = record control_plane.status {
    ready = true;
    initialized = true;
    control_plane_initialized = some true;
  };
}

module _ {W E C : Type 0} (kube : Kube W E C) (host : Host W E) (scope : Scope W E) where
  answered : Result E ℕ → Exec (Sys W C) (Failure E) Bool
  answered (value status_code) = pure (status_code == 200)
  answered (error e) = pure false

  -- The timeout of the request is left to the client.
  unfoldable pub check_kind_ready : Exec (Sys W C) (Failure E) Bool
  unfolding answered
  check_kind_ready = do
    let path = kubeconfig_path kube host scope
    config ← map_err (wrap (loading_kubeconfig_from path)) (query (host.rest_config_of_file path))
    http_get ← map_err (wrap creating_http_client) (given (host.http_client_for config))
    response ← try_query (http_get (config.host ++ "/healthz"))
    answered response

  -- The kubeconfig of the runtime at hand.
  unfoldable pub reconcile_any_kubeconfig : Exec (Held W C KwokControlPlane) (Failure E) (Unit {0})
  reconcile_any_kubeconfig =
      if is_kind kube host scope
      then map_err (wrap reconciling_kind_kubeconfig) (reconcile_kind_kubeconfig kube host scope)
      else map_err (wrap reconciling_kubeconfig) (reconcile_kubeconfig kube host scope)

  -- `For non-kind runtimes, kubeconfig is available after Install.`
  unfoldable pub early_kubeconfig : Exec (Held W C KwokControlPlane) (Failure E) (Unit {0})
  early_kubeconfig =
      if is_kind kube host scope
      then pure tt
      else map_err (wrap reconciling_kubeconfig) (reconcile_kubeconfig kube host scope)

  module _ (rt : Runtime W E) where
    unfoldable pub start_up : Exec (Sys W C) (Failure E) (Unit {0})
    start_up = request (up (name scope)) rt.up

    unfoldable pub check_ready : Exec (Sys W C) (Failure E) Bool
    check_ready = if is_kind kube host scope then check_kind_ready else query rt.ready

    -- What follows the check of an existing cluster.
    after_ready : Result (Failure E) Bool → Exec (Held W C KwokControlPlane) (Failure E) CtrlResult
    after_ready (error e) = do
      attempt (on_sys start_up)
      attempt
          (if is_kind kube host scope then reconcile_kind_kubeconfig kube host scope else pure tt)
      pure (requeue_after_seconds 5)
    after_ready (value true) = do modify mark_ready; reconcile_any_kubeconfig; pure done
    after_ready (value false) = do attempt (on_sys start_up); pure (requeue_after_seconds 5)

    unfoldable pub existing : Exec (Held W C KwokControlPlane) (Failure E) CtrlResult
    unfolding after_ready
    existing = attempt (on_sys check_ready) >>= after_ready

    -- An error of the first start is ignored at kind.
    after_start : Result (Failure E) (Unit {0}) → Exec (Sys W C) (Failure E) (Unit {0})
    after_start (value _) = pure tt
    after_start (error e) =
        if is_kind kube host scope then pure tt else raise (wrap (starting_cluster (name scope)) e)

    unfoldable pub first_start : Exec (Sys W C) (Failure E) (Unit {0})
    unfolding after_start
    first_start = attempt start_up >>= after_start

    unfoldable pub install_cluster : Exec (Sys W C) (Failure E) (Unit {0})
    install_cluster = do
      request (set_config (runtime scope)) (rt.set_config (runtime scope))
      request (save (name scope)) rt.save
      request (install (name scope)) rt.install

    -- The cluster is made and started for the first time.
    unfoldable pub create : Exec (Held W C KwokControlPlane) (Failure E) CtrlResult
    create = do
      on_sys install_cluster
      early_kubeconfig
      on_sys first_start
      reconcile_any_kubeconfig
      pure (requeue_after_seconds 5)

    after_config : Result E (Unit {0}) → Exec (Held W C KwokControlPlane) (Failure E) CtrlResult
    after_config (value _) = existing
    after_config (error e) = create

    -- Behind the building of the runtime.
    unfoldable pub run : Exec (Held W C KwokControlPlane) (Failure E) CtrlResult
    unfolding after_config
    run = on_sys (try_query rt.config) >>= after_config

  -- Behind the look into the registry.
  after_registry :
      Option (String → String → Op W E (Runtime W E))
      → Exec (Held W C KwokControlPlane) (Failure E) CtrlResult
  after_registry none = raise (message (runtime_not_found (runtime scope)))
  after_registry (some build) =
      on_sys (
        map_err (wrap (runtime_not_available (runtime scope)))
          (query (build (name scope) (work_dir scope))))
      >>= run

  unfoldable pub reconcile :
      RuntimeProvider W E → Exec (Held W C KwokControlPlane) (Failure E) CtrlResult
  unfolding after_registry
  reconcile provider = after_registry (provider.get (runtime scope))
