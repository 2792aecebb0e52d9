-- ===== src/KwokConfigs.antt =====
-- internal/controller/bootstrap/kwokconfig_controller.go: the reconciler of a KwokConfig, which makes
-- the empty bootstrap data that a Machine waits for.
pub mod Published
pub mod Mapping
use Prim.Native.String.{◌++◌}
use cluster_api_provider_kwo.Prelude.{
  String, Bool, true, Option, none, some, is_some, [], ◌∷◌, if◌then◌else◌,
}
use cluster_api_provider_kwo.Exec.{Result, value, error, Exec, pure, raise, map_err, ◌>>=◌, ◌>>◌}
use cluster_api_provider_kwo.Api.Meta.{NamespacedName, named, CtrlResult, done}
use cluster_api_provider_kwo.Api.Core.{Cluster, Machine, MachinePool, Secret}
use cluster_api_provider_kwo.Api.Kwok.{KwokConfig}
use cluster_api_provider_kwo.Kube.{
  Kube, Failure, raw, wrap, init_patch_helper, setting_owner_reference, creating_bootstrap_secret,
  patching_kwok_config, create_secret, patch_config,
}
use cluster_api_provider_kwo.Kube.Session.{Sys, raw_outcome, query, request, try_query, try_request}

-- `fmt.Sprintf("%s-bootstrap-data", kwokConfig.Name)`
unfoldable pub secret_name : KwokConfig → String
secret_name kwok_config = kwok_config.metadata.name ++ "-bootstrap-data"

-- `// 8. Set status fields`
unfoldable pub with_secret : KwokConfig → KwokConfig
with_secret kwok_config = record kwok_config {
  status = record kwok_config.status {
    data_secret_name = some (secret_name kwok_config);
    ready = true;
    data_secret_created = some true;
  };
}

module _ {W E C : Type 0} (kube : Kube W E C) where
  unfoldable pub bootstrap_secret : Cluster → KwokConfig → Secret
  bootstrap_secret cluster kwok_config = record {
    metadata = record (named kwok_config.metadata.namespace (secret_name kwok_config)) {
      labels = (kube.cluster_name_label, cluster.metadata.name) ∷ [];
    };
    contents = ("value", "") ∷ [];
    type_name = kube.cluster_secret_type;
  }

  -- A secret that exists already is fine.
  after_create : Result E Secret → Exec (Sys W C) (Failure E) (Unit {0})
  after_create (value secret) = pure tt
  after_create (error e) =
      if kube.is_already_exists e then pure tt else raise (wrap creating_bootstrap_secret (raw e))

  -- Behind the owner reference: the secret, and the status.
  unfoldable pub publish :
      KwokConfig
      → (KwokConfig → W → Result E (Unit {0}) × W)
      → Secret
      → Exec (Sys W C) (Failure E) CtrlResult
  unfolding after_create
  publish kwok_config patch secret = do
    created ← try_request (create_secret secret) (kube.secrets.create secret)
    after_create created
    let finished = with_secret kwok_config
    map_err (wrap patching_kwok_config) (request (patch_config finished) (patch finished))
    pure done

  -- Behind the check for a pause.
  unfoldable pub active : Cluster → KwokConfig → Exec (Sys W C) (Failure E) CtrlResult
  active cluster kwok_config = do
    patch ← map_err (wrap init_patch_helper) (query (kube.configs.new_helper kwok_config))
    secret ← map_err (wrap setting_owner_reference) (λ s. (
      raw_outcome
          (kube.set_owner_reference kwok_config.metadata (bootstrap_secret cluster kwok_config)),
      s,
    ))
    publish kwok_config patch secret

  -- `getCluster`
  unfoldable pub get_cluster : String → String → Exec (Sys W C) (Failure E) Cluster
  get_cluster namespace name =
      query (kube.clusters.get (record { namespace = namespace; name = name }))

  -- Behind the look-up of the owner.
  unfoldable pub owned : KwokConfig → String → Exec (Sys W C) (Failure E) CtrlResult
  owned kwok_config cluster_name =
      if is_some kwok_config.status.data_secret_name
      then pure done
      else (get_cluster kwok_config.metadata.namespace cluster_name >>= λ cluster.
          if kube.is_paused cluster kwok_config.metadata
          then pure done
          else active cluster kwok_config)

  after_pool : KwokConfig → Option MachinePool → Exec (Sys W C) (Failure E) CtrlResult
  after_pool kwok_config none = pure done
  after_pool kwok_config (some machine_pool) = owned kwok_config machine_pool.spec.cluster_name

  after_machine : KwokConfig → Option Machine → Exec (Sys W C) (Failure E) CtrlResult
  unfolding after_pool
  after_machine kwok_config (some machine) = owned kwok_config machine.spec.cluster_name
  after_machine kwok_config none =
      query (kube.owner_machine_pool kwok_config.metadata) >>= after_pool kwok_config

  after_fetch : Result E KwokConfig → Exec (Sys W C) (Failure E) CtrlResult
  unfolding after_machine
  after_fetch (error e) = if kube.is_not_found e then pure done else raise (raw e)
  after_fetch (value kwok_config) =
      query (kube.owner_machine kwok_config.metadata) >>= after_machine kwok_config

  unfoldable pub reconcile : NamespacedName → Exec (Sys W C) (Failure E) CtrlResult
  unfolding after_fetch
  reconcile req = try_query (kube.configs.get req) >>= after_fetch
