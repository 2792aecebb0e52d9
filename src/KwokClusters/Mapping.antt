-- ===== src/KwokClusters/Mapping.antt =====
-- `kwokControlPlaneToKwokCluster` in kwokcluster_controller.go: which KwokCluster a changed control
-- plane is to be reconciled for.
use cluster_api_provider_kwo.Prelude.{
  ◌≡◌, ◌↔◌, false, true, Option, none, some, is_some, List, [], ◌∷◌, IsElem, arith, if◌then◌else◌,
}
use cluster_api_provider_kwo.Exec.{Result, value, error}
use cluster_api_provider_kwo.Api.Meta.{NamespacedName}
use cluster_api_provider_kwo.Api.Core.{Cluster}
use cluster_api_provider_kwo.Api.Kwok.{KwokControlPlane}
use cluster_api_provider_kwo.Kube.{Kube}

-- `types.NamespacedName{Name: kwokClusterRef.Name, …}`
unfoldable pub infrastructure_key : Cluster → NamespacedName
infrastructure_key cluster = record {
  namespace = cluster.metadata.namespace;
  name = cluster.spec.infrastructure_ref.name;
}

module _ {W E C : Type 0} (kube : Kube W E C) where
  -- Behind `util.GetOwnerCluster`.
  requests_of_owner : Result E (Option Cluster) → List NamespacedName
  requests_of_owner (error e) = []
  requests_of_owner (value none) = []
  requests_of_owner (value (some cluster)) =
      if kube.is_defined_ref cluster.spec.infrastructure_ref
      then infrastructure_key cluster ∷ []
      else []

  -- The function that `kwokControlPlaneToKwokCluster` returns; `none` is an object of another type.
  unfoldable pub requests : Option KwokControlPlane → W → List NamespacedName × W
  unfolding requests_of_owner
  requests none w = ([], w)
  requests (some control_plane) w =
      let (owner, w') = kube.owner_cluster control_plane.metadata w in
      if is_some control_plane.metadata.deletion_timestamp
      then ([], w)
      else if kube.is_zero_endpoint control_plane.spec.control_plane_endpoint
      then ([], w)
      else (requests_of_owner owner, w')

  -- The control plane stays, has an endpoint, and its cluster refers to this object.
  pub record IsWanted (control_plane : KwokControlPlane) (w : W) (key : NamespacedName)
      : Type 0 where
    pub stays : is_some control_plane.metadata.deletion_timestamp ≡ false
    pub has_endpoint : kube.is_zero_endpoint control_plane.spec.control_plane_endpoint ≡ false
    pub cluster : Cluster
    pub owned : (kube.owner_cluster control_plane.metadata w).0 ≡ value (some cluster)
    pub is_defined : kube.is_defined_ref cluster.spec.infrastructure_ref ≡ true
    pub refers : key ≡ infrastructure_key cluster

  -- A changed control plane is mapped to an object exactly if it is not being deleted, has an
  -- endpoint, is owned by a cluster, and the cluster's infrastructure reference is defined and is to
  -- that object.
  requests-IsWanted :
      (control_plane : KwokControlPlane) (w : W) (key : NamespacedName)
      → IsElem key (requests (some control_plane) w).0 ↔ IsWanted control_plane w key
  unfolding requests
  requests-IsWanted control_plane w key = (λ among. ground arith, λ wanted. ground arith)
