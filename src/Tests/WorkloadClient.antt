-- ===== src/Tests/WorkloadClient.antt =====
-- Runs of workload_client.go.
mod Threads
use Prim.Native.Char.{Char, code}
use cluster_api_provider_kwo.Prelude.{
  ◌≡◌, ◌≢◌, refl, ap, ◌==◌, false, none, arith, true, none, [], ◌⊎◌, ◌&&◌, str_eq, if◌then◌else◌,
}
use cluster_api_provider_kwo.Prelude.Dict.{lookup}
use cluster_api_provider_kwo.Exec.{ok, is_ok}
use cluster_api_provider_kwo.Api.Meta.{ApiEndpoint}
use cluster_api_provider_kwo.WorkloadClient.{
  get_client, build_client, kubeconfig_secret_name, remove_client, cache_key,
}
use cluster_api_provider_kwo.WorkloadClient.Key.{NoSlash}
use cluster_api_provider_kwo.WorkloadClient.Cache.{get_client_twice, remove_client_exact}
use cluster_api_provider_kwo.Tests.Fake.{fake_kube, start, cached, reachable}

abbrev pub here : ApiEndpoint
here = record { host = "10.0.0.2"; port = 6443 }

abbrev nowhere_yet : ApiEndpoint
nowhere_yet = record { host = ""; port = 0 }

builds : (get_client fake_kube "demo" "default" here start).0 ≡ ok reachable
unfolding get_client build_client lookup kubeconfig_secret_name
builds = refl

get_client_twice_example :
    get_client fake_kube "demo" "default" nowhere_yet
      (get_client fake_kube "demo" "default" here start).1
    ≡ (ok reachable, (get_client fake_kube "demo" "default" here start).1)
get_client_twice_example = get_client_twice fake_kube "demo" "default" here nowhere_yet start builds

not_slash : (c : Char) → (code c == 47) ≡ false → ◌≢◌ {A = Char} c "/"
not_slash c differ e = absurd (ground (arith, ap code e))

pub no_slash : NoSlash "default"
no_slash = (
  not_slash "d" refl,
  (
    not_slash "e" refl,
    (
      not_slash "f" refl,
      (not_slash "a" refl, (not_slash "u" refl, (not_slash "l" refl, (not_slash "t" refl, tt)))),
    ),
  ),
)

remove_client_exact_example :
    lookup (cache_key "other" "default") (remove_client "demo" "default" (cached reachable)).clients
    ≡ (if str_eq "demo" "other" && str_eq "default" "default"
        then none
        else lookup (cache_key "other" "default") (cached reachable).clients)
remove_client_exact_example =
    remove_client_exact "demo" "default" "other" "default" (cached reachable) no_slash no_slash
