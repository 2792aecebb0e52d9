-- ===== src/Service/Secrets/Published.antt =====
-- When publishing the kubeconfig in pkg/services/kwok/cluster/create.go returns no error.
use cluster_api_provider_kwo.Prelude.{
  refl, Bool, true, false, str_eq, if◌then◌else◌, String, ◌≡◌, ◌⊎◌, inl, inr,
}
use cluster_api_provider_kwo.Exec.{map_err, raise, Result, value, error, ok, Exec, ◌>>=◌}
use cluster_api_provider_kwo.Exec.Inversion.{>>=-eq_ok, map_err_outcome-eq_ok}
use cluster_api_provider_kwo.Api.Core.{Secret}
use cluster_api_provider_kwo.Api.Kwok.{KwokControlPlane}
use cluster_api_provider_kwo.Kube.{
  Kube, Failure, Context, wrap, message, write_file, loading_kwok_kubeconfig, no_cluster_entry,
}
use cluster_api_provider_kwo.Kube.Session.{query, Sys, Held, on_sys, request, raw_outcome-eq_ok}
use cluster_api_provider_kwo.ControlPlaneScope.{Scope}
use cluster_api_provider_kwo.Service.Host.{Host, KubeConfig}
use cluster_api_provider_kwo.Service.Kubeconfig.{first_server}
use cluster_api_provider_kwo.Service.Secrets.{
  after_kind_secret, after_secret, reconcile_kind_kubeconfig, reconcile_kubeconfig,
  prepare_kind_kubeconfig, prepare_kubeconfig, rewrite_if_kind, kubeconfig_path, cluster_ref,
  create_owned, create_kind_kubeconfig_secret, create_with_server, create_kubeconfig_secret,
}

module _ {W E C : Type 0} (kube : Kube W E C) (host : Host W E) (scope : Scope W E) where
  -- The API server made a kubeconfig secret of the cluster, owned by the control plane.
  abbrev pub IsCreated : KwokControlPlane → Type 0
  IsCreated control_plane =
      (text : String) × (w : W) × (secret : Secret) × ((kube.secrets.create
          (host.generate_secret (cluster_ref kube host scope) text
            (host.new_controller_ref control_plane.metadata))
          w).0
        ≡ value secret)

  create_owned-IsCreated :
      (control_plane : KwokControlPlane) (text : String) (s : Sys W C) {secret : Secret}
      → (create_owned kube host scope control_plane text s).0 ≡ ok secret
      → IsCreated control_plane
  unfolding create_owned
  create_owned-IsCreated control_plane text s {secret} made =
      (text, s.world, secret, raw_outcome-eq_ok _ (map_err_outcome-eq_ok _ _ made))

  -- A secret that is made between two other parts.
  between-IsCreated :
      (control_plane : KwokControlPlane)
      (prepare : Exec (Held W C KwokControlPlane) (Failure E) String)
      (finish : String → Exec (Held W C KwokControlPlane) (Failure E) (Unit {0}))
      (h : Held W C KwokControlPlane)
      → ((prepare >>= λ text.
            on_sys (create_owned kube host scope control_plane text) >>= λ _. finish text)
          h).0
        ≡ ok tt
      → IsCreated control_plane
  between-IsCreated control_plane prepare finish h good =
      let create = λ (text : String).
        on_sys {O = KwokControlPlane} (create_owned kube host scope control_plane text) in
      let (text, _, _, h') = >>=-eq_ok prepare (λ text. create text >>= λ _. finish text) h good in
      let (_, made, _, _) = >>=-eq_ok (create text) (λ _. finish text) (prepare h).1 h' in
      create_owned-IsCreated control_plane text (prepare h).1.sys made

  create_kind-IsCreated :
      (h : Held W C KwokControlPlane)
      → (create_kind_kubeconfig_secret kube host scope h).0 ≡ ok tt
      → IsCreated h.object
  unfolding create_kind_kubeconfig_secret
  create_kind-IsCreated h good =
      between-IsCreated h.object (prepare_kind_kubeconfig kube host scope)
        (λ text.
          let path = kubeconfig_path kube host scope in
          on_sys (request (write_file path text) (host.write_file path text)))
        h good

  create_with_server-IsCreated :
      (control_plane : KwokControlPlane) (server : String) (h : Held W C KwokControlPlane)
      → (create_with_server kube host scope control_plane server h).0 ≡ ok tt
      → IsCreated control_plane
  unfolding create_with_server
  create_with_server-IsCreated control_plane server h good =
      between-IsCreated control_plane (prepare_kubeconfig kube host scope server)
        (λ _. rewrite_if_kind kube host scope) h good

  create_kubeconfig_secret-IsCreated :
      (h : Held W C KwokControlPlane)
      → (create_kubeconfig_secret kube host scope h).0 ≡ ok tt
      → IsCreated h.object
  unfolding create_kubeconfig_secret
  create_kubeconfig_secret-IsCreated h good =
      let path = kubeconfig_path kube host scope in
      let load : Exec (Held W C KwokControlPlane) (Failure E) KubeConfig =
        on_sys
          (map_err (wrap (loading_kwok_kubeconfig path)) (query (host.load_config_file path))) in
      let rest = λ (config : KubeConfig).
        let server = first_server config.clusters in
        if str_eq server ""
        then raise (message no_cluster_entry)
        else create_with_server kube host scope h.object server in
      let (config, _, _, h') = >>=-eq_ok load rest h good in
      go (str_eq (first_server config.clusters) "") (first_server config.clusters) (load h).1 h'
    where
      go :
          (b : Bool) (server : String) (t : Held W C KwokControlPlane)
          → ((if b
                then raise (message no_cluster_entry)
                else create_with_server kube host scope h.object server)
              t).0
            ≡ ok tt
          → IsCreated h.object
      go true server t e = absurd (cc)
      go false server t e = create_with_server-IsCreated h.object server t e

  -- The API server has a kubeconfig secret of the cluster, or it made one.
  abbrev pub IsPublished : KwokControlPlane → Type 0
  IsPublished control_plane =
      ((w : W) × (secret : Secret) × ((host.kubeconfig_secret_of (cluster_ref kube host scope) w).0
          ≡ value secret))
      ⊎ IsCreated control_plane

  created_if :
      (b : Bool) (context : Context) (f : Failure E)
      (create : Exec (Held W C KwokControlPlane) (Failure E) (Unit {0}))
      (h : Held W C KwokControlPlane)
      → ((create h).0 ≡ ok tt → IsCreated h.object)
      → ((if b then map_err (wrap context) create else raise f) h).0 ≡ ok tt
      → IsPublished h.object
  created_if true context f create h created good = inr (created (map_err_outcome-eq_ok _ _ good))
  created_if false context f create h created good = absurd (cc)

  after_kind_secret-IsPublished :
      (w : W) (r : Result E Secret) (h : Held W C KwokControlPlane)
      → (host.kubeconfig_secret_of (cluster_ref kube host scope) w).0 ≡ r
      → (after_kind_secret kube host scope r h).0 ≡ ok tt
      → IsPublished h.object
  unfolding after_kind_secret
  after_kind_secret-IsPublished w (value secret) h found good = inl (w, secret, found)
  after_kind_secret-IsPublished w (error e) h found good =
      created_if (kube.is_not_found e) _ _ (create_kind_kubeconfig_secret kube host scope) h
        (create_kind-IsCreated h) good

  after_secret-IsPublished :
      (w : W) (r : Result E Secret) (h : Held W C KwokControlPlane)
      → (host.kubeconfig_secret_of (cluster_ref kube host scope) w).0 ≡ r
      → (after_secret kube host scope r h).0 ≡ ok tt
      → IsPublished h.object
  unfolding after_secret
  after_secret-IsPublished w (value secret) h found good = inl (w, secret, found)
  after_secret-IsPublished w (error e) h found good =
      created_if (kube.is_not_found e) _ _ (create_kubeconfig_secret kube host scope) h
        (create_kubeconfig_secret-IsCreated h) good

  -- If publishing the kubeconfig, at kind or at another runtime, returns no error, then the API server
  -- has a kubeconfig secret of the cluster, or it made one that the control plane owns.
  pub reconcile_kubeconfig-IsPublished :
      (h : Held W C KwokControlPlane)
      → ((reconcile_kind_kubeconfig kube host scope h).0 ≡ ok tt)
        ⊎ ((reconcile_kubeconfig kube host scope h).0 ≡ ok tt)
      → IsPublished h.object
  unfolding reconcile_kind_kubeconfig reconcile_kubeconfig
  reconcile_kubeconfig-IsPublished h (inl good) =
      let (found, w) = host.kubeconfig_secret_of (cluster_ref kube host scope) h.sys.world in
      after_kind_secret-IsPublished h.sys.world found
        (record h { sys = record h.sys { world = w } }) refl good
  reconcile_kubeconfig-IsPublished h (inr good) =
      let (found, w) = host.kubeconfig_secret_of (cluster_ref kube host scope) h.sys.world in
      after_secret-IsPublished h.sys.world found (record h { sys = record h.sys { world = w } })
        refl good
