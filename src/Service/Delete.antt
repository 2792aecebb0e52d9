-- ===== src/Service/Delete.antt =====
-- `Service.Delete` in pkg/services/kwok/cluster/delete.go.
pub mod Stops
use cluster_api_provider_kwo.Prelude.{if◌then◌else◌}
use cluster_api_provider_kwo.Exec.{Result, value, error, Exec, pure, raise, ◌>>=◌, ◌>>◌}
use cluster_api_provider_kwo.Api.Meta.{CtrlResult, done}
use cluster_api_provider_kwo.Kube.{Failure, raw, down, uninstall}
use cluster_api_provider_kwo.Kube.Session.{Sys, request, try_query}
use cluster_api_provider_kwo.Runtimes.{Runtime, RuntimeProvider}
use cluster_api_provider_kwo.ControlPlaneScope.{Scope, name, work_dir}

module _ {W E C : Type 0} (provider : RuntimeProvider W E) (scope : Scope W E) where
  after_load : Result E (Runtime W E) → Exec (Sys W C) (Failure E) CtrlResult
  after_load (error e) = if provider.is_not_exist e then pure done else raise (raw e)
  after_load (value rt) = do
    request (down (name scope)) rt.down
    request (uninstall (name scope)) rt.uninstall
    pure done

  unfoldable pub delete : Exec (Sys W C) (Failure E) CtrlResult
  unfolding after_load
  delete = try_query (provider.load (name scope) (work_dir scope)) >>= after_load
