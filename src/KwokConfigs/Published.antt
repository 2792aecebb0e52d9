-- ===== src/KwokConfigs/Published.antt =====
-- What `Reconcile` in kwokconfig_controller.go sends.
use cluster_api_provider_kwo.Prelude.{◌≡◌, sym, subst, ◌∙◌, true, is_some, List, ◌∷◌, arith}
use cluster_api_provider_kwo.Exec.{Result, value, error, Outcome, Exec, ok, map_err, ◌>>=◌}
use cluster_api_provider_kwo.Exec.Inversion.{>>=-eq_ok, map_err_outcome-eq_ok}
use cluster_api_provider_kwo.Api.Meta.{NamespacedName, CtrlResult}
use cluster_api_provider_kwo.Api.Core.{Cluster, Secret}
use cluster_api_provider_kwo.Api.Kwok.{KwokConfig}
use cluster_api_provider_kwo.Kube.{
  Kube, Op, Failure, Write, wrap, init_patch_helper, setting_owner_reference, create_secret,
  patch_config,
}
use cluster_api_provider_kwo.Kube.Session.{Sys, raw_outcome, raw_outcome-eq_ok, query}
use cluster_api_provider_kwo.KwokConfigs.{
  with_secret, bootstrap_secret, after_create, publish, active, owned, reconcile,
}

module _ {W E C : Type 0} (kube : Kube W E C) where
  -- The `Create` made the secret, or found that it is there.
  abbrev pub IsThere : Result E Secret → Type 0
  IsThere (value secret) = Unit
  IsThere (error e) = kube.is_already_exists e ≡ true

  module _ (cluster : Cluster) (kwok_config : KwokConfig) where
    -- On the older writes stand the creation of the secret with the owner, which is there now, and the
    -- accepted patch of the KwokConfig that names it.
    pub record IsBootstrapped (older writes : List Write) : Type 0 where
      pub secret : Secret
      pub owner_set :
          kube.set_owner_reference kwok_config.metadata (bootstrap_secret kube cluster kwok_config)
          ≡ value secret
      pub created : (w : W) × IsThere (kube.secrets.create secret w).0
      pub patch : KwokConfig → Op W E (Unit {0})
      pub accepted : (w : W) × ((patch (with_secret kwok_config) w).0 ≡ value tt)
      pub sent : writes ≡ patch_config (with_secret kwok_config) ∷ create_secret secret ∷ older

    publish-sent :
        (patch : KwokConfig → Op W E (Unit {0})) (secret : Secret) (s : Sys W C) {r : CtrlResult}
        → (publish kube kwok_config patch secret s).0 ≡ ok r
        → let (answer, w) = kube.secrets.create secret s.world in
          IsThere answer
          × ((patch (with_secret kwok_config) w).0 ≡ value tt)
          × ((publish kube kwok_config patch secret s).1.trace
              ≡ patch_config (with_secret kwok_config) ∷ create_secret secret ∷ s.trace)
    unfolding publish after_create
    publish-sent patch secret s h = ground arith

    -- If `Reconcile` of a KwokConfig, behind its guards, returns no error, then it has sent exactly the
    -- creation of the bootstrap secret, which made it or found it there, and the patch of the KwokConfig
    -- that names it, which the API accepted.
    pub active-IsBootstrapped :
        (s : Sys W C) {r : CtrlResult}
        → (active kube cluster kwok_config s).0 ≡ ok r
        → IsBootstrapped s.trace (active kube cluster kwok_config s).1.trace
    unfolding active
    active-IsBootstrapped s h =
        let new_helper : Exec (Sys W C) (Failure E) (KwokConfig → Op W E (Unit {0})) =
          map_err (wrap init_patch_helper) (query (kube.configs.new_helper kwok_config)) in
        let set_owner : Exec (Sys W C) (Failure E) Secret =
          map_err (wrap setting_owner_reference) (λ s. (
            raw_outcome (
                kube.set_owner_reference kwok_config.metadata
                  (bootstrap_secret kube cluster kwok_config)),
            s,
          )) in
        let (patch, _, same, h') =
          >>=-eq_ok new_helper (λ patch. set_owner >>= publish kube kwok_config patch) s h in
        let t = (new_helper s).1 in
        let (secret, owner_set, same', h'') =
          >>=-eq_ok set_owner (publish kube kwok_config patch) t h' in
        let (there, accepted, sent) = publish-sent patch secret t h'' in
        subst (λ (x : Outcome (Failure E) CtrlResult × Sys W C). IsBootstrapped s.trace x.1.trace)
          (sym (same ∙ same'))
          (record {
            secret = secret;
            owner_set = raw_outcome-eq_ok _ (map_err_outcome-eq_ok _ _ owner_set);
            created = (t.world, there);
            patch = patch;
            accepted = ((kube.secrets.create secret t.world).1, accepted);
            sent = sent;
          })

  -- `Reconcile` of a KwokConfig that names its secret already sends nothing.
  named_secret_is_final :
      (req : NamespacedName) (s : Sys W C) (kwok_config : KwokConfig)
      → (kube.configs.get req s.world).0 ≡ value kwok_config
      → is_some kwok_config.status.data_secret_name ≡ true
      → (reconcile kube req s).1.trace ≡ s.trace
  unfolding reconcile owned
  named_secret_is_final req s kwok_config found given = ground arith
