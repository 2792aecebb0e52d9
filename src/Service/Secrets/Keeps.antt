-- ===== src/Service/Secrets/Keeps.antt =====
-- What publishing the kubeconfig in pkg/services/kwok/cluster/create.go changes in the control plane.
use cluster_api_provider_kwo.Prelude.{
  String, ◌≡◌, ◌∙◌, refl, Bool, true, false, arith, if◌then◌else◌, str_eq,
}
use cluster_api_provider_kwo.Exec.{
  Exec, continue, map_err, raise, Outcome, err, panic, out_of_fuel, ◌>>=◌, Result, value, error, ok,
}
use cluster_api_provider_kwo.Api.Core.{Secret}
use cluster_api_provider_kwo.Api.Kwok.{KwokControlPlane}
use cluster_api_provider_kwo.Kube.{
  Kube, Failure, wrap, message, loading_kwok_kubeconfig, no_cluster_entry,
}
use cluster_api_provider_kwo.Kube.Session.{Held, on_sys, query}
use cluster_api_provider_kwo.ControlPlaneScope.{Scope}
use cluster_api_provider_kwo.Service.Host.{Host, KubeConfig}
use cluster_api_provider_kwo.Service.Kubeconfig.{first_server, with_endpoint, with_endpoint_of}
use cluster_api_provider_kwo.Service.Secrets.{
  prepare_kind_kubeconfig, prepare_kubeconfig, rewrite_if_kind, kubeconfig_path,
  create_kind_kubeconfig_secret, create_with_server, create_kubeconfig_secret, after_kind_secret,
  after_secret, reconcile_kind_kubeconfig, reconcile_kubeconfig,
}

module _ {W E C : Type 0} (kube : Kube W E C) (host : Host W E) (scope : Scope W E) where
  -- The status and the metadata of the control plane are as they were.
  abbrev pub KeepsStatus : KwokControlPlane → KwokControlPlane → Type 0
  KeepsStatus o o' = (o'.status ≡ o.status) × (o'.metadata ≡ o.metadata)

  kind-Keeps :
      (h : Held W C KwokControlPlane)
      → KeepsStatus h.object (create_kind_kubeconfig_secret kube host scope h).1.object
  unfolding create_kind_kubeconfig_secret prepare_kind_kubeconfig with_endpoint
  kind-Keeps h = ground arith

  server-Keeps :
      (o : KwokControlPlane) (server : String) (h : Held W C KwokControlPlane)
      → KeepsStatus h.object (create_with_server kube host scope o server h).1.object
  unfolding create_with_server prepare_kubeconfig rewrite_if_kind with_endpoint with_endpoint_of
  server-Keeps o server h = ground arith

  -- An action after which the status and the metadata are as they were.
  abbrev pub Keeps : {A : Type 0} → Exec (Held W C KwokControlPlane) (Failure E) A → Type 0
  Keeps m = (h : Held W C KwokControlPlane) → KeepsStatus h.object (m h).1.object

  pub Keeps-if :
      {A : Type 0} (b : Bool) (m n : Exec (Held W C KwokControlPlane) (Failure E) A)
      → Keeps m
      → Keeps n
      → Keeps (if b then m else n)
  Keeps-if true m n keeps keeps' = keeps
  Keeps-if false m n keeps keeps' = keeps'

  pub Keeps->>= :
      {A B : Type 0} (m : Exec (Held W C KwokControlPlane) (Failure E) A)
      (f : A → Exec (Held W C KwokControlPlane) (Failure E) B)
      → Keeps m
      → ((a : A) → Keeps (f a))
      → Keeps (m >>= f)
  Keeps->>= {A} m f keeps rest h = go (m h).0 (m h).1 (keeps h)
    where
      go :
          (o : Outcome (Failure E) A) (h' : Held W C KwokControlPlane)
          → KeepsStatus h.object h'.object
          → KeepsStatus h.object (continue o f h').1.object
      go (ok a) h' (same, same') = let (more, more') = rest a h' in (more ∙ same, more' ∙ same')
      go (err e) h' same = same
      go panic h' same = same
      go out_of_fuel h' same = same

  create-Keeps : Keeps (create_kubeconfig_secret kube host scope)
  unfolding create_kubeconfig_secret
  create-Keeps h =
      let load : Exec (Held W C KwokControlPlane) (Failure E) KubeConfig = on_sys (
        map_err (wrap (loading_kwok_kubeconfig (kubeconfig_path kube host scope)))
          (query (host.load_config_file (kubeconfig_path kube host scope)))) in
      let go = λ (config : KubeConfig).
        let server = first_server config.clusters in
        if str_eq server ""
        then raise (message no_cluster_entry)
        else create_with_server kube host scope h.object server in
      Keeps->>= load go (λ h. (refl, refl))
        (λ config.
          Keeps-if (str_eq (first_server config.clusters) "") _ _ (λ h. (refl, refl))
            (server-Keeps h.object (first_server config.clusters)))
        h

  after_kind_secret-Keeps : (r : Result E Secret) → Keeps (after_kind_secret kube host scope r)
  unfolding after_kind_secret
  after_kind_secret-Keeps (value secret) = λ h. (refl, refl)
  after_kind_secret-Keeps (error e) =
      Keeps-if (kube.is_not_found e) _ _ kind-Keeps (λ h. (refl, refl))

  after_secret-Keeps : (r : Result E Secret) → Keeps (after_secret kube host scope r)
  unfolding after_secret
  after_secret-Keeps (value secret) = λ h. (refl, refl)
  after_secret-Keeps (error e) = Keeps-if (kube.is_not_found e) _ _ create-Keeps (λ h. (refl, refl))

  -- Publishing the kubeconfig changes nothing but the endpoint of the control plane.
  pub reconcile_kind_kubeconfig-Keeps : Keeps (reconcile_kind_kubeconfig kube host scope)
  unfolding reconcile_kind_kubeconfig
  reconcile_kind_kubeconfig-Keeps h = after_kind_secret-Keeps _ _

  pub reconcile_kubeconfig-Keeps : Keeps (reconcile_kubeconfig kube host scope)
  unfolding reconcile_kubeconfig
  reconcile_kubeconfig-Keeps h = after_secret-Keeps _ _
