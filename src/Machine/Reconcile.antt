-- ===== src/Machine/Reconcile.antt =====
-- `Reconcile` of the machine controller: the guards, and the patch that is deferred behind them.
pub mod Guards
pub mod Persisted
use cluster_api_provider_kwo.Prelude.{ℕ, Option, none, some, is_some, if◌then◌else◌}
use cluster_api_provider_kwo.Exec.{
  Result, value, error, Exec, pure, raise, deferring, keep_first, ◌>>=◌,
}
use cluster_api_provider_kwo.Api.Meta.{CtrlResult, done, NamespacedName}
use cluster_api_provider_kwo.Api.Core.{Cluster, Machine}
use cluster_api_provider_kwo.Api.Kwok.{KwokMachine}
use cluster_api_provider_kwo.Kube.{Kube, Op, Failure, raw, wrap, patch_machine, init_patch_helper}
use cluster_api_provider_kwo.Kube.Session.{
  Sys, Held, query, request, try_query, on_sys, the_object, holding,
}
use cluster_api_provider_kwo.Machine.Provision.{reconcile_normal}
use cluster_api_provider_kwo.Machine.Delete.{reconcile_delete}

module _ {W E C : Type 0} (kube : Kube W E C) (fuel : ℕ) where
  -- The last two returns of `Reconcile`.
  unfoldable pub dispatch : Cluster → Machine → Exec (Held W C KwokMachine) (Failure E) CtrlResult
  dispatch cluster machine = do
    kwok_machine ← the_object
    if is_some kwok_machine.metadata.deletion_timestamp
        then reconcile_delete kube cluster
        else reconcile_normal kube fuel cluster machine

  -- The deferred function's call of `Patch`, on the object as it then is.
  unfoldable pub patch_held :
      (KwokMachine → Op W E (Unit {0})) → Exec (Held W C KwokMachine) (Failure E) (Unit {0})
  patch_held patch = the_object >>= λ m. on_sys (request (patch_machine m) (patch m))

  -- Behind `patch.NewHelper`.
  after_helper :
      KwokMachine
      → Cluster
      → Machine
      → Result E (KwokMachine → Op W E (Unit {0}))
      → Exec (Sys W C) (Failure E) CtrlResult
  unfolding patch_held
  after_helper kwok_machine cluster machine (error e) = raise (wrap init_patch_helper (raw e))
  after_helper kwok_machine cluster machine (value patch) =
      holding kwok_machine (deferring keep_first (dispatch cluster machine) (patch_held patch))

  -- From the patch helper to the end.
  unfoldable pub patched : KwokMachine → Cluster → Machine → Exec (Sys W C) (Failure E) CtrlResult
  unfolding after_helper
  patched kwok_machine cluster machine =
      try_query (kube.machines.new_helper kwok_machine)
      >>= after_helper kwok_machine cluster machine

  after_owner : KwokMachine → Option Machine → Exec (Sys W C) (Failure E) CtrlResult
  after_owner kwok_machine none = pure done
  after_owner kwok_machine (some machine) = do
    cluster ← query (kube.cluster_of_metadata machine.metadata)
    if kube.is_paused cluster kwok_machine.metadata
        then pure done
        else patched kwok_machine cluster machine

  after_fetch : Result E KwokMachine → Exec (Sys W C) (Failure E) CtrlResult
  unfolding after_owner
  after_fetch (error e) = if kube.is_not_found e then pure done else raise (raw e)
  after_fetch (value kwok_machine) =
      query (kube.owner_machine kwok_machine.metadata) >>= after_owner kwok_machine

  unfoldable pub reconcile : NamespacedName → Exec (Sys W C) (Failure E) CtrlResult
  unfolding after_fetch
  reconcile req = try_query (kube.machines.get req) >>= after_fetch
