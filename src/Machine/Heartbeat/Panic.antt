-- ===== src/Machine/Heartbeat/Panic.antt =====
-- The slices of a provider ID in kwokmachine_controller.go, on one that is too short.
use Prim.Native.String.{len}
use cluster_api_provider_kwo.Prelude.{ℕ, ◌≡◌, ◌≢◌, none, some, ◌<◌, arith, eq_iff}
use cluster_api_provider_kwo.Prelude.Dict.{lookup}
use cluster_api_provider_kwo.Exec.{panic}
use cluster_api_provider_kwo.Api.Core.{Cluster, Machine}
use cluster_api_provider_kwo.Api.Kwok.{KwokMachine}
use cluster_api_provider_kwo.Kube.{Kube}
use cluster_api_provider_kwo.Kube.Session.{Held}
use cluster_api_provider_kwo.WorkloadClient.{cache_key}
use cluster_api_provider_kwo.WorkloadClient.Cache.{get_client-cached}
use cluster_api_provider_kwo.Machine.ProviderId.{node_name_of, node_name_of_short}
use cluster_api_provider_kwo.Machine.Heartbeat.{renew_heartbeat}
use cluster_api_provider_kwo.Machine.Provision.{mark_provisioned, with_finalizer, reconcile_normal}
use cluster_api_provider_kwo.Machine.Delete.{delete_with, reconcile_delete}

module _ {W E C : Type 0} (kube : Kube W E C) (fuel : ℕ) (cluster : Cluster)
    (machine : Machine) where
  -- On a provider ID that is not empty and shorter than `kwok:////`, with the cluster's client cached,
  -- the normal call panics, after it has marked the object ready and provisioned; and the deletion
  -- panics with the object unchanged, so that the finalizer stays.
  pub short_provider_id_panics :
      (h : Held W C KwokMachine) (c : C)
      → h.object.spec.provider_id ≢ ""
      → len h.object.spec.provider_id < 9
      → lookup (cache_key cluster.metadata.name cluster.metadata.namespace) h.sys.clients ≡ some c
      → let (o, h') = reconcile_normal kube fuel cluster machine h in
        let (o', h'') = reconcile_delete kube cluster h in
        (o ≡ panic)
        × (h'.object ≡ mark_provisioned (with_finalizer kube h.object))
        × (o' ≡ panic)
        × (h''.object ≡ h.object)
  unfolding reconcile_normal renew_heartbeat reconcile_delete delete_with
  short_provider_id_panics h c given short cached =
      let s = h.sys in
      let short_slice = node_name_of_short h.object.spec.provider_id short in
      let (panics, marked) = normal given short_slice in
      ground (
        arith,
        eq_iff h.object.spec.provider_id "",
        panics,
        marked,
        short_slice,
        get_client-cached kube cluster.metadata.name cluster.metadata.namespace
            cluster.spec.control_plane_endpoint s cached,
      )
    where
      normal :
          h.object.spec.provider_id ≢ ""
          → node_name_of h.object.spec.provider_id ≡ none
          → let (o, h') = reconcile_normal kube fuel cluster machine h in
            (o ≡ panic) × (h'.object ≡ mark_provisioned (with_finalizer kube h.object))
      normal given short_slice = ground (arith, eq_iff h.object.spec.provider_id "")
