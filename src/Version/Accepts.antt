-- ===== src/Version/Accepts.antt =====
-- Which servers the check in version/version.go accepts.
use cluster_api_provider_kwo.Prelude.{
  zero, suc, String, ◌≡◌, ◌≢◌, ◌↔◌, refl, some, none, Option, arith,
}
use cluster_api_provider_kwo.Prelude.Int.{ℤ, pos, negsuc}
use cluster_api_provider_kwo.Exec.{Exec, map_err, value, ok}
use cluster_api_provider_kwo.Kube.Session.{Sys, query, raw_outcome, raw_outcome-eq_ok}
use cluster_api_provider_kwo.Kube.{RestConfig, Failure, wrap, checking_version, getting_version}
use cluster_api_provider_kwo.Exec.Inversion.{>>=-eq_ok, map_err_outcome-eq_ok}
use cluster_api_provider_kwo.Version.{
  VersionApi, judge, compare_versions, ask_server, check_kubernetes_version,
}

module _ {W E D V : Type 0} (api : VersionApi W E D V) where
  -- A client can be made, the server says its version, which can be parsed, and the comparison with the minimum is not -1.
  pub record IsAccepted (config : RestConfig) (min_version : String) (w : W) : Type 0 where
    pub client : D
    pub made : api.discovery_client config ≡ some client
    pub server_version : String
    pub answered : (api.server_version client w).0 ≡ value server_version
    pub version : V
    pub parsed : api.parse_generic server_version ≡ some version
    pub result : ℤ
    pub compared : api.compare version min_version ≡ value result
    pub not_less : result ≢ negsuc zero

module _ {W E C D V : Type 0} (api : VersionApi W E D V) where
  judge-ok :
      (server_version min_version : String) (z : ℤ) (s : Sys W C)
      → (judge api server_version min_version z s).0 ≡ ok tt
      → z ≢ negsuc zero
  unfolding judge
  judge-ok server_version min_version (pos n) s h e = absurd (cc)
  judge-ok server_version min_version (negsuc zero) s h e = absurd (cc)
  judge-ok server_version min_version (negsuc (suc n)) s h e = absurd (cc)

  compare_versions-ok :
      (server_version min_version : String) (parsed : Option V) (s : Sys W C)
      → (compare_versions api server_version min_version parsed s).0 ≡ ok tt
      → (version : V) × (parsed ≡ some version)
        × (result : ℤ) × (api.compare version min_version ≡ value result)
        × (result ≢ negsuc zero)
  unfolding compare_versions
  compare_versions-ok server_version min_version none s h = absurd (cc)
  compare_versions-ok server_version min_version (some version) s h =
      let call : Exec (Sys W C) (Failure E) ℤ =
        map_err (wrap checking_version) (λ s. (raw_outcome (api.compare version min_version), s)) in
      let (result, compared, _, h') = >>=-eq_ok call (judge api server_version min_version) s h in
      (
        version,
        refl,
        result,
        raw_outcome-eq_ok _ (map_err_outcome-eq_ok _ _ compared),
        judge-ok server_version min_version result s h',
      )

  ask_server-IsAccepted :
      (config : RestConfig) (min_version : String) (made : Option D) (s : Sys W C)
      → api.discovery_client config ≡ made
      → (ask_server api min_version made s).0 ≡ ok tt
      → IsAccepted api config min_version s.world
  unfolding ask_server
  ask_server-IsAccepted config min_version none s made good = absurd (cc)
  ask_server-IsAccepted config min_version (some client) s made good =
      let ask : Exec (Sys W C) (Failure E) String =
        map_err (wrap getting_version) (query (api.server_version client)) in
      let (server_version, answered, _, h) =
        >>=-eq_ok ask (λ v. compare_versions api v min_version (api.parse_generic v)) s good in
      let (version, parsed, result, compared, not_less) =
        compare_versions-ok server_version min_version (api.parse_generic server_version) (ask s).1
          h in
      record {
        client = client;
        made = made;
        server_version = server_version;
        answered = raw_outcome-eq_ok _ (map_err_outcome-eq_ok _ _ answered);
        version = version;
        parsed = parsed;
        result = result;
        compared = compared;
        not_less = not_less;
      }

  -- `CheckKubernetesVersion` returns no error exactly if a client can be made from the configuration,
  -- the server says its version, the version can be parsed, and its comparison with the minimum
  -- succeeds and does not say that it is less.
  pub check_kubernetes_version-IsAccepted :
      (config : RestConfig) (min_version : String) (s : Sys W C)
      → (check_kubernetes_version api config min_version s).0 ≡ ok tt
        ↔ IsAccepted api config min_version s.world
  unfolding check_kubernetes_version ask_server compare_versions judge
  check_kubernetes_version-IsAccepted config min_version s = (
    ask_server-IsAccepted config min_version (api.discovery_client config) s refl,
    λ accepted. ground (
      arith, accepted.made, accepted.answered, accepted.parsed, accepted.compared,
      accepted.not_less,
    ),
  )
