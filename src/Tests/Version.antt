-- ===== src/Tests/Version.antt =====
-- Runs of version/version.go.
use cluster_api_provider_kwo.Prelude.{ℕ, String, ◌≡◌, ◌↔◌, none, some, str_eq, if◌then◌else◌}
use cluster_api_provider_kwo.Prelude.Int.{pos}
use cluster_api_provider_kwo.Exec.{value, ok}
use cluster_api_provider_kwo.Kube.{RestConfig}
use cluster_api_provider_kwo.Version.{VersionApi, check_kubernetes_version}
use cluster_api_provider_kwo.Version.Accepts.{IsAccepted, check_kubernetes_version-IsAccepted}
use cluster_api_provider_kwo.Tests.Fake.{World, Status, start}

-- A server of version 1.30, which is as new as the minimum.
abbrev api : VersionApi World Status String ℕ
api = record {
  discovery_client = λ config. if str_eq config.host "" then none else some config.host;
  server_version = λ host w. (value "v1.30.0", w);
  parse_generic = λ text. some 30;
  compare = λ version minimum. value (pos 0);
}

abbrev here : RestConfig
here = record { host = "https://10.0.0.1:6443"; credentials = "token" }

check_kubernetes_version-IsAccepted_example :
    (check_kubernetes_version api here "v1.20.0" start).0 ≡ ok tt
    ↔ IsAccepted api here "v1.20.0" start.world
check_kubernetes_version-IsAccepted_example =
    check_kubernetes_version-IsAccepted api here "v1.20.0" start
