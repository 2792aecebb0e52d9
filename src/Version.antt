-- ===== src/Version.antt =====
-- version/version.go: the check of the management cluster's version, and the version of the binary.
pub mod Accepts
use Prim.Native.String.{◌++◌}
use cluster_api_provider_kwo.Prelude.{zero, suc, String, Option, none, some, if◌then◌else◌}
use cluster_api_provider_kwo.Prelude.Int.{ℤ, pos, negsuc}
use cluster_api_provider_kwo.Exec.{Result, Exec, pure, raise, panics, map_err, ◌>>=◌, ◌>>◌}
use cluster_api_provider_kwo.Kube.{
  Op, RestConfig, Failure, message, wrap, getting_version, checking_version, unsupported_version,
}
use cluster_api_provider_kwo.Kube.Session.{Sys, raw_outcome, query}

-- k8s.io/client-go/discovery and k8s.io/apimachinery/pkg/util/version: `discovery_client` is
-- `NewDiscoveryClientForConfig`, whose error makes `NewDiscoveryClientForConfigOrDie` panic,
-- `parse_generic` is `ParseGeneric`, whose error makes `MustParseGeneric` panic, and `compare` its
-- method `Compare`.
pub record VersionApi (W E D V : Type 0) : Type 0 where
  pub discovery_client : RestConfig → Option D
  pub server_version : D → Op W E String
  pub parse_generic : String → Option V
  pub compare : V → String → Result E ℤ

module _ {W E C D V : Type 0} (api : VersionApi W E D V) where
  -- `if compareResult == -1`
  judge : String → String → ℤ → Exec (Sys W C) (Failure E) (Unit {0})
  judge server_version min_version (pos n) = pure tt
  judge server_version min_version (negsuc zero) =
      raise (message (unsupported_version server_version min_version))
  judge server_version min_version (negsuc (suc n)) = pure tt

  compare_versions : String → String → Option V → Exec (Sys W C) (Failure E) (Unit {0})
  unfolding judge
  compare_versions server_version min_version none = panics
  compare_versions server_version min_version (some v) =
      map_err (wrap checking_version) (λ s. (raw_outcome (api.compare v min_version), s))
      >>= judge server_version min_version

  ask_server : String → Option D → Exec (Sys W C) (Failure E) (Unit {0})
  unfolding compare_versions
  ask_server min_version none = panics
  ask_server min_version (some client) = do
    server_version ← map_err (wrap getting_version) (query (api.server_version client))
    compare_versions server_version min_version (api.parse_generic server_version)

  unfoldable pub check_kubernetes_version :
      RestConfig → String → Exec (Sys W C) (Failure E) (Unit {0})
  unfolding ask_server
  check_kubernetes_version config min_version = ask_server min_version (api.discovery_client config)

-- The variables that the build sets, and what the Go runtime says of itself.
pub record BuildInfo : Type 0 where
  pub git_major : String
  pub git_minor : String
  pub git_version : String
  pub git_commit : String
  pub git_tree_state : String
  pub build_date : String
  pub go_version : String
  pub compiler : String
  pub os : String
  pub arch : String

pub record Info : Type 0 where
  pub major : String
  pub minor : String
  pub git_version : String
  pub git_commit : String
  pub git_tree_state : String
  pub build_date : String
  pub go_version : String
  pub compiler : String
  pub platform : String

-- `Get`
unfoldable pub get_info : BuildInfo → Info
get_info build = record {
  major = build.git_major;
  minor = build.git_minor;
  git_version = build.git_version;
  git_commit = build.git_commit;
  git_tree_state = build.git_tree_state;
  build_date = build.build_date;
  go_version = build.go_version;
  compiler = build.compiler;
  platform = build.os ++ "/" ++ build.arch;
}

-- `Info.String`
unfoldable pub info_string : Info → String
info_string info = info.git_version
