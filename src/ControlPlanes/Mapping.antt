-- ===== src/ControlPlanes/Mapping.antt =====
-- `kwokClusterToKwokControlPlane` in kwokcontrolplane_controller.go: which control plane a changed
-- KwokCluster is to be reconciled for.
use cluster_api_provider_kwo.Prelude.{
  ◌≡◌, ◌↔◌, false, true, not, ◌||◌, Option, none, some, is_some, List, [], ◌∷◌, IsElem, arith,
  str_eq, eq_iff, if◌then◌else◌,
}
use cluster_api_provider_kwo.Exec.{Result, value, error}
use cluster_api_provider_kwo.Api.Meta.{NamespacedName}
use cluster_api_provider_kwo.Api.Core.{Cluster}
use cluster_api_provider_kwo.Api.Kwok.{KwokCluster}
use cluster_api_provider_kwo.Kube.{Kube}

-- `types.NamespacedName{Name: controlPlaneRef.Name, …}`
unfoldable pub control_plane_key : Cluster → NamespacedName
control_plane_key cluster = record {
  namespace = cluster.metadata.namespace;
  name = cluster.spec.control_plane_ref.name;
}

module _ {W E C : Type 0} (kube : Kube W E C) where
  -- Behind `util.GetOwnerCluster`.
  requests_of_owner : Result E (Option Cluster) → List NamespacedName
  requests_of_owner (error e) = []
  requests_of_owner (value none) = []
  requests_of_owner (value (some cluster)) =
      let ref = cluster.spec.control_plane_ref in
      if not (kube.is_defined_ref ref) || not (str_eq ref.kind "KwokControlPlane")
      then []
      else control_plane_key cluster ∷ []

  -- The function that `kwokClusterToKwokControlPlane` returns; `none` is an object of another type.
  unfoldable pub requests : Option KwokCluster → W → List NamespacedName × W
  unfolding requests_of_owner
  requests none w = ([], w)
  requests (some kwok_cluster) w =
      let (owner, w') = kube.owner_cluster kwok_cluster.metadata w in
      if is_some kwok_cluster.metadata.deletion_timestamp
      then ([], w)
      else (requests_of_owner owner, w')

  -- The KwokCluster stays, and its cluster refers to this object as a KwokControlPlane.
  pub record RefersTo (kwok_cluster : KwokCluster) (w : W) (key : NamespacedName) : Type 0 where
    pub stays : is_some kwok_cluster.metadata.deletion_timestamp ≡ false
    pub cluster : Cluster
    pub owned : (kube.owner_cluster kwok_cluster.metadata w).0 ≡ value (some cluster)
    pub is_defined : kube.is_defined_ref cluster.spec.control_plane_ref ≡ true
    pub of_kind : cluster.spec.control_plane_ref.kind ≡ "KwokControlPlane"
    pub refers : key ≡ control_plane_key cluster

  -- A changed KwokCluster is mapped to an object exactly if it is not being deleted and is owned by a
  -- cluster whose control plane reference is defined, has the kind KwokControlPlane and is to that
  -- object.
  requests-RefersTo :
      (kwok_cluster : KwokCluster) (w : W) (key : NamespacedName)
      → IsElem key (requests (some kwok_cluster) w).0 ↔ RefersTo kwok_cluster w key
  unfolding requests
  requests-RefersTo kwok_cluster w key =
      let kinds =
        λ (cluster : Cluster). eq_iff cluster.spec.control_plane_ref.kind "KwokControlPlane" in
      (λ among. grind (arith, eq_iff), λ wanted. ground (arith, kinds wanted.cluster))
