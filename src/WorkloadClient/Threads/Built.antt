-- ===== src/WorkloadClient/Threads/Built.antt =====
-- What the two parts of `GetClient` between its critical sections in
-- internal/controller/infrastructure/workload_client.go make of a request.
use cluster_api_provider_kwo.Prelude.{String, Option, none, some, ◌≡◌, arith}
use cluster_api_provider_kwo.Prelude.Dict.{lookup}
use cluster_api_provider_kwo.Exec.{value, ok, Exec, of_result, map_err, ◌>>=◌}
use cluster_api_provider_kwo.Exec.Inversion.{>>=-eq_ok, map_err_outcome-eq_ok}
use cluster_api_provider_kwo.Api.Core.{Secret}
use cluster_api_provider_kwo.Kube.{
  Kube, RestConfig, Failure, wrap, getting_kubeconfig_secret, missing_value_key,
  building_rest_config, Context,
}
use cluster_api_provider_kwo.Kube.Session.{Sys, query, raw_outcome, raw_outcome-eq_ok}
use cluster_api_provider_kwo.WorkloadClient.{
  kubeconfig_secret_name, override_host, present, fetch_config, connect,
}
use cluster_api_provider_kwo.WorkloadClient.Threads.{Request}

module _ {W E C : Type 0} (kube : Kube W E C) where
  pub fetch_config-clients :
      (cluster_name namespace : String) (s : Sys W C)
      → (fetch_config kube cluster_name namespace s).1.clients ≡ s.clients
  unfolding fetch_config
  fetch_config-clients cluster_name namespace s = ground arith

  pub connect-clients :
      (r : Request) (config : RestConfig) (s : Sys W C)
      → (connect kube r.endpoint config s).1.clients ≡ s.clients
  unfolding connect
  connect-clients r config s = ground arith

  present-ok :
      (o : Option String) (context : Context) (s : Sys W C) {text : String}
      → (of_result (present {E = E} o context) s).0 ≡ ok text
      → o ≡ some text
  unfolding present
  present-ok none context s h = absurd (cc)
  present-ok (some t) context s h = cc

-- `Seen` are the worlds of a run.
module _ {W E C : Type 0} (kube : Kube W E C) (Seen : W → Type 0) where
  -- The API server gave the kubeconfig secret of the cluster in the run, and the configuration is what it says.
  pub record IsFetchedFor (cluster_name namespace : String) (config : RestConfig) : Type 0 where
    pub asked : W
    pub seen : Seen asked
    pub secret : Secret
    pub found :
        (kube.secrets.get
          (record { namespace = namespace; name = kubeconfig_secret_name cluster_name })
          asked).0
        ≡ value secret
    pub kubeconfig : String
    pub contained : lookup "value" secret.contents ≡ some kubeconfig
    pub parsed : kube.rest_config_of_kubeconfig kubeconfig ≡ value config

  -- The client connects to the cluster of the request, at its endpoint where it has one.
  pub record IsBuiltFor (r : Request) (c : C) : Type 0 where
    pub config : RestConfig
    pub fetched : IsFetchedFor r.cluster_name r.namespace config
    pub connected : W
    pub seen : Seen connected
    pub built : (kube.new_client (override_host r.endpoint config) connected).0 ≡ value c

  pub fetch_config-ok :
      (cluster_name namespace : String) (s : Sys W C) {config : RestConfig}
      → Seen s.world
      → (fetch_config kube cluster_name namespace s).0 ≡ ok config
      → IsFetchedFor cluster_name namespace config
  unfolding fetch_config
  fetch_config-ok cluster_name namespace s seen h =
      let name = kubeconfig_secret_name cluster_name in
      let get : Exec (Sys W C) (Failure E) Secret =
        map_err (wrap (getting_kubeconfig_secret namespace name))
          (query (kube.secrets.get (record { namespace = namespace; name = name }))) in
      let read = λ (secret : Secret).
        of_result
          (present {E = E} (lookup "value" secret.contents) (missing_value_key namespace name)) in
      let parse : String → Exec (Sys W C) (Failure E) RestConfig = λ (text : String).
        map_err (wrap building_rest_config)
          (λ s. (raw_outcome (kube.rest_config_of_kubeconfig text), s)) in
      let (secret, got, _, h') = >>=-eq_ok get (λ secret. read secret >>= parse) s h in
      let (text, contained, _, h'') = >>=-eq_ok (read secret) parse (get s).1 h' in
      record {
        asked = s.world;
        seen = seen;
        secret = secret;
        found = raw_outcome-eq_ok _ (map_err_outcome-eq_ok _ _ got);
        kubeconfig = text;
        contained = present-ok kube _ _ (get s).1 contained;
        parsed = raw_outcome-eq_ok _ (map_err_outcome-eq_ok _ _ h'');
      }

  pub connect-ok :
      (r : Request) (config : RestConfig) (s : Sys W C) {c : C}
      → IsFetchedFor r.cluster_name r.namespace config
      → Seen s.world
      → (connect kube r.endpoint config s).0 ≡ ok c
      → IsBuiltFor r c
  unfolding connect
  connect-ok r config s fetched seen h = record {
    config = config;
    fetched = fetched;
    connected = s.world;
    seen = seen;
    built = raw_outcome-eq_ok _ (map_err_outcome-eq_ok _ _ h);
  }
