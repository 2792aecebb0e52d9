-- ===== src/KwokClusters/Published.antt =====
-- What a successful call of `Reconcile` in kwokcluster_controller.go has sent.
use cluster_api_provider_kwo.Prelude.{
  ◌≡◌, ◌∙◌, true, false, Option, none, some, is_some, List, ◌∷◌, arith, if◌then◌else◌, subst, sym,
}
use cluster_api_provider_kwo.Prelude.Int.{ℤ, eqb_int}
use cluster_api_provider_kwo.Exec.{value, ok, is_ok, Outcome, Exec, map_err, ◌>>=◌}
use cluster_api_provider_kwo.Exec.Inversion.{>>=-eq_ok, map_err_outcome-eq_ok}
use cluster_api_provider_kwo.Api.Meta.{SimulationConfig, CtrlResult, done}
use cluster_api_provider_kwo.Api.Core.{Cluster}
use cluster_api_provider_kwo.Api.Kwok.{KwokCluster, KwokControlPlane}
use cluster_api_provider_kwo.Kube.{
  Kube, Op, Failure, Write, patch_cluster, wait_timer, wrap, getting_control_plane_ref,
  init_patch_helper,
}
use cluster_api_provider_kwo.Kube.Session.{Sys, query, raw_outcome-eq_ok}
use cluster_api_provider_kwo.Runtimes.{RuntimeProvider}
use cluster_api_provider_kwo.KwokClusters.{
  runtime_of, published, control_plane_key, simulated_latency, publish, check_runtime, active,
}

-- The latency that is to be simulated: none if nothing is said, or if it is 0.
abbrev pub wanted_latency : Option SimulationConfig → Option ℤ
wanted_latency none = none
wanted_latency (some config) = elim config.reconcile [
  | none ↦ none
  | some r ↦ if eqb_int 0 r.latency then none else some r.latency
]

-- The wait for the timer stands on these writes, if there is a latency.
abbrev pub waited : Option ℤ → List Write → List Write
waited none writes = writes
waited (some latency) writes = wait_timer latency ∷ writes

module _ {W E C : Type 0} (kube : Kube W E C) (provider : RuntimeProvider W E) (cluster : Cluster)
    (kwok_cluster : KwokCluster) where
  -- On the older writes stand the patch of the KwokCluster, ready, provisioned and with the endpoint
  -- of the control plane that the API server gave, and the wait; the API server accepted the patch,
  -- the runtime is known, and the result does not ask for another call.
  pub record IsPublishedOn (older writes : List Write) (r : CtrlResult) : Type 0 where
    pub control_plane : KwokControlPlane
    pub fetched :
        (w : W) × ((kube.control_planes.get (control_plane_key cluster) w).0 ≡ value control_plane)
    pub patch : KwokCluster → Op W E (Unit {0})
    pub helper : (w : W) × ((kube.kwok_clusters.new_helper kwok_cluster w).0 ≡ value patch)
    pub accepted : (w : W) × ((patch (published control_plane kwok_cluster) w).0 ≡ value tt)
    pub known : is_some (provider.get (runtime_of kwok_cluster)) ≡ true
    pub sent :
        writes
        ≡ waited
            (wanted_latency kwok_cluster.spec.simulation_config)
            (patch_cluster (published control_plane kwok_cluster) ∷ older)
    pub not_again : r ≡ done

  check_runtime-sent :
      (control_plane : KwokControlPlane) (patch : KwokCluster → Op W E (Unit {0})) (s : Sys W C)
      {r : CtrlResult}
      → (check_runtime kube provider control_plane kwok_cluster patch s).0 ≡ ok r
      → let writes = (check_runtime kube provider control_plane kwok_cluster patch s).1.trace in
        ((patch (published control_plane kwok_cluster) s.world).0 ≡ value tt)
        × (is_some (provider.get (runtime_of kwok_cluster)) ≡ true)
        × (writes
            ≡ waited
                (wanted_latency kwok_cluster.spec.simulation_config)
                (patch_cluster (published control_plane kwok_cluster) ∷ s.trace))
        × (r ≡ done)
  unfolding check_runtime publish published simulated_latency
  check_runtime-sent control_plane patch s h = ground arith

  -- The same from a world in which the API server gives the control plane.
  pub active-sent :
      (control_plane : KwokControlPlane) (s : Sys W C) {r : CtrlResult}
      → (kube.control_planes.get (control_plane_key cluster) s.world).0 ≡ value control_plane
      → (active kube provider cluster kwok_cluster s).0 ≡ ok r
      → (active kube provider cluster kwok_cluster s).1.trace
        ≡ waited
            (wanted_latency kwok_cluster.spec.simulation_config)
            (patch_cluster (published control_plane kwok_cluster) ∷ s.trace)
  unfolding active check_runtime publish published simulated_latency
  active-sent control_plane s given h = ground arith

  -- If `Reconcile` behind its guards returns no error, then it has sent exactly the patch of the
  -- KwokCluster, ready, provisioned and with the endpoint of its control plane, be it empty or not, and
  -- has then waited for the latency that the spec wants; the API accepted the patch, the runtime is
  -- known, and the result does not ask for another call.
  pub active-IsPublishedOn :
      (s : Sys W C) {r : CtrlResult}
      → (active kube provider cluster kwok_cluster s).0 ≡ ok r
      → IsPublishedOn s.trace (active kube provider cluster kwok_cluster s).1.trace r
  unfolding active
  active-IsPublishedOn s {r} h =
      let fetch : Exec (Sys W C) (Failure E) KwokControlPlane =
        map_err (wrap getting_control_plane_ref)
          (query (kube.control_planes.get (control_plane_key cluster))) in
      let new_helper : Exec (Sys W C) (Failure E) (KwokCluster → Op W E (Unit {0})) =
        map_err (wrap init_patch_helper) (query (kube.kwok_clusters.new_helper kwok_cluster)) in
      let rest = λ (control_plane : KwokControlPlane).
        new_helper >>= check_runtime kube provider control_plane kwok_cluster in
      let (control_plane, fetched, same, h') = >>=-eq_ok fetch rest s h in
      let t = (fetch s).1 in
      let (patch, helper, same', h'') =
        >>=-eq_ok new_helper (check_runtime kube provider control_plane kwok_cluster) t h' in
      let (accepted, known, sent, not_again) =
        check_runtime-sent control_plane patch (new_helper t).1 h'' in
      subst (λ (x : Outcome (Failure E) CtrlResult × Sys W C). IsPublishedOn s.trace x.1.trace r)
        (sym (same ∙ same'))
        (record {
          control_plane = control_plane;
          fetched = (s.world, raw_outcome-eq_ok _ (map_err_outcome-eq_ok _ _ fetched));
          patch = patch;
          helper = (t.world, raw_outcome-eq_ok _ (map_err_outcome-eq_ok _ _ helper));
          accepted = ((new_helper t).1.world, accepted);
          known = known;
          sent = sent;
          not_again = not_again;
        })

  -- With a runtime that is not in the registry `Reconcile` behind its guards fails and sends nothing,
  -- whatever the API server answers.
  unknown_runtime_refused :
      (s : Sys W C)
      → is_some (provider.get (runtime_of kwok_cluster)) ≡ false
      → let (o, t) = active kube provider cluster kwok_cluster s in
        (is_ok o ≡ false) × (t.trace ≡ s.trace)
  unfolding active check_runtime
  unknown_runtime_refused s unknown = ground arith
