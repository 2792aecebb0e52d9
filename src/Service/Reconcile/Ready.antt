-- ===== src/Service/Reconcile/Ready.antt =====
-- When `Service.Reconcile` in pkg/services/kwok/cluster/create.go reports a control plane as ready.
use cluster_api_provider_kwo.Prelude.{
  String, ◌≡◌, refl, ◌⊎◌, inl, inr, Bool, true, false, Option, none, some, if◌then◌else◌,
}
use cluster_api_provider_kwo.Exec.{
  Result, value, error, Outcome, ok, err, panic, out_of_fuel, Exec, pure, attempt, map_err_outcome,
  continue, attempt_outcome, ◌>>=◌,
}
use cluster_api_provider_kwo.Api.Meta.{CtrlResult, done, requeue_after_seconds}
use cluster_api_provider_kwo.Api.Kwok.{KwokControlPlane}
use cluster_api_provider_kwo.Kube.{Kube, Op, Failure, wrap, runtime_not_available}
use cluster_api_provider_kwo.Kube.Session.{Sys, Held, on_sys, raw_outcome}
use cluster_api_provider_kwo.Runtimes.{Runtime, RuntimeProvider}
use cluster_api_provider_kwo.ControlPlaneScope.{Scope, runtime, name, work_dir}
use cluster_api_provider_kwo.Service.Host.{Host}
use cluster_api_provider_kwo.Service.Secrets.{is_kind, reconcile_kind_kubeconfig}
use cluster_api_provider_kwo.Service.Secrets.Keeps.{
  Keeps, Keeps-if, Keeps->>=, reconcile_kind_kubeconfig-Keeps, reconcile_kubeconfig-Keeps,
}
use cluster_api_provider_kwo.Service.Reconcile.{
  mark_ready, reconcile_any_kubeconfig, start_up, check_ready, after_ready, existing,
  early_kubeconfig, install_cluster, first_start, create, after_config, run, after_registry,
  reconcile,
}

module _ {W E C : Type 0} (kube : Kube W E C) (host : Host W E) (scope : Scope W E) where
  -- The runtime has the cluster, and the check of the cluster that follows says that it is ready.
  abbrev pub IsReadyOn : Runtime W E → Sys W C → Type 0
  IsReadyOn rt s =
      let (config, w) = rt.config s.world in
      (config ≡ value tt) × ((check_ready kube host scope rt (record s { world = w })).0 ≡ ok true)

  -- The runtime that the provider builds for the cluster says so.
  pub record WasReady (provider : RuntimeProvider W E) (s : Sys W C) : Type 0 where
    pub build : String → String → Op W E (Runtime W E)
    pub registered : provider.get (runtime scope) ≡ some build
    pub rt : Runtime W E
    pub built : (build (name scope) (work_dir scope) s.world).0 ≡ value rt
    pub is_ready :
        IsReadyOn rt (record s { world = (build (name scope) (work_dir scope) s.world).1 })

  -- The status is as it was, or it is marked ready and there is evidence `P`.
  abbrev IsHonest : Type 0 → KwokControlPlane → KwokControlPlane → Type 0
  IsHonest P o o' = (o'.status ≡ o.status) ⊎ ((o'.status ≡ (mark_ready o).status) × P)

  any-Keeps : Keeps kube host scope (reconcile_any_kubeconfig kube host scope)
  unfolding reconcile_any_kubeconfig
  any-Keeps =
      Keeps-if kube host scope (is_kind kube host scope) _ _
        (reconcile_kind_kubeconfig-Keeps kube host scope)
        (reconcile_kubeconfig-Keeps kube host scope)

  early-Keeps : Keeps kube host scope (early_kubeconfig kube host scope)
  unfolding early_kubeconfig
  early-Keeps =
      Keeps-if kube host scope (is_kind kube host scope) _ _ (λ h. (refl, refl))
        (reconcile_kubeconfig-Keeps kube host scope)

  module _ (rt : Runtime W E) where
    -- The parts that leave the object alone.
    start-Keeps :
        Keeps kube host scope {A = Result (Failure E) (Unit {0})}
          (attempt (on_sys (start_up kube host scope rt)))
    start-Keeps h = (refl, refl)

    create-Keeps : Keeps kube host scope (create kube host scope rt)
    unfolding create
    create-Keeps =
        let first : Exec (Held W C KwokControlPlane) (Failure E) (Unit {0}) =
          on_sys (install_cluster kube host scope rt) in
        let start : Exec (Held W C KwokControlPlane) (Failure E) (Unit {0}) =
          on_sys (first_start kube host scope rt) in
        let last : Exec (Held W C KwokControlPlane) (Failure E) CtrlResult =
          reconcile_any_kubeconfig kube host scope >>= λ _. pure (requeue_after_seconds 5) in
        let early = early_kubeconfig kube host scope in
        Keeps->>= kube host scope first (λ _. early >>= λ _. start >>= λ _. last)
          (λ h. (refl, refl))
          (λ _.
            Keeps->>= kube host scope early (λ _. start >>= λ _. last) early-Keeps
              (λ _.
                Keeps->>= kube host scope start (λ _. last) (λ h. (refl, refl))
                  (λ _.
                    Keeps->>= kube host scope (reconcile_any_kubeconfig kube host scope)
                      (λ _. pure (requeue_after_seconds 5)) any-Keeps (λ _ h. (refl, refl)))))

    failed_check-Keeps :
        (e : Failure E) → Keeps kube host scope (after_ready kube host scope rt (error e))
    unfolding after_ready
    failed_check-Keeps e =
        let start : Exec (Held W C KwokControlPlane) (Failure E) (Result (Failure E) (Unit {0})) =
          attempt (on_sys (start_up kube host scope rt)) in
        let again : Exec (Held W C KwokControlPlane) (Failure E) (Result (Failure E) (Unit {0})) =
          attempt (
            if is_kind kube host scope
            then reconcile_kind_kubeconfig kube host scope
            else pure tt) in
        Keeps->>= kube host scope start (λ _. again >>= λ _. pure (requeue_after_seconds 5))
          start-Keeps
          (λ _.
            Keeps->>= kube host scope again (λ _. pure (requeue_after_seconds 5))
              (Keeps-if kube host scope (is_kind kube host scope) _ _
                (reconcile_kind_kubeconfig-Keeps kube host scope) (λ h. (refl, refl)))
              (λ _ h. (refl, refl)))

    not_ready-Keeps : Keeps kube host scope (after_ready kube host scope rt (value false))
    unfolding after_ready
    not_ready-Keeps =
        Keeps->>= kube host scope (attempt (on_sys (start_up kube host scope rt)))
          (λ _. pure (requeue_after_seconds 5)) start-Keeps (λ _ h. (refl, refl))

    ready_marks :
        (h : Held W C KwokControlPlane)
        → (after_ready kube host scope rt (value true) h).1.object.status
          ≡ (mark_ready h.object).status
    unfolding after_ready
    ready_marks h =
        (Keeps->>= kube host scope (reconcile_any_kubeconfig kube host scope) (λ _. pure done)
          any-Keeps (λ _ h. (refl, refl)) (record h { object = mark_ready h.object })).0

    after_ready-IsHonest :
        {P : Type 0} (o : Outcome (Failure E) Bool) (h : Held W C KwokControlPlane)
        → (o ≡ ok true → P)
        → IsHonest P h.object
            (continue (attempt_outcome o) (after_ready kube host scope rt) h).1.object
    after_ready-IsHonest (ok true) h evidence = inr (ready_marks h, evidence refl)
    after_ready-IsHonest (ok false) h evidence = inl (not_ready-Keeps h).0
    after_ready-IsHonest (err e) h evidence = inl (failed_check-Keeps e h).0
    after_ready-IsHonest panic h evidence = inl refl
    after_ready-IsHonest out_of_fuel h evidence = inl refl

    after_config-IsHonest :
        (r : Result E (Unit {0})) (h : Held W C KwokControlPlane)
        → (rt.config h.sys.world).0 ≡ r
        → IsHonest
            (IsReadyOn rt h.sys)
            h.object
            (after_config kube host scope rt r
              (record h { sys = record h.sys { world = (rt.config h.sys.world).1 } })).1.object
    unfolding after_config existing
    after_config-IsHonest (value _) h found =
        let s = record h.sys { world = (rt.config h.sys.world).1 } in
        let (o, t) = check_ready kube host scope rt s in
        after_ready-IsHonest o (record h { sys = t }) (λ checked. (found, checked))
    after_config-IsHonest (error e) h found =
        inl (create-Keeps (record h { sys = record h.sys { world = (rt.config h.sys.world).1 } })).0

    run-IsHonest :
        (h : Held W C KwokControlPlane)
        → IsHonest (IsReadyOn rt h.sys) h.object (run kube host scope rt h).1.object
    unfolding run
    run-IsHonest h = after_config-IsHonest (rt.config h.sys.world).0 h refl

  module _ (provider : RuntimeProvider W E) (h : Held W C KwokControlPlane) where
    after_registry-IsHonest :
        (found : Option (String → String → Op W E (Runtime W E)))
        → provider.get (runtime scope) ≡ found
        → IsHonest
            (WasReady provider h.sys)
            h.object
            (after_registry kube host scope found h).1.object
    unfolding after_registry
    after_registry-IsHonest none registered = inl refl
    after_registry-IsHonest (some build) registered =
        go (build (name scope) (work_dir scope) h.sys.world).0 refl
      where
        go :
            (r : Result E (Runtime W E))
            → (build (name scope) (work_dir scope) h.sys.world).0 ≡ r
            → let w = (build (name scope) (work_dir scope) h.sys.world).1 in
              IsHonest
                (WasReady provider h.sys)
                h.object
                (continue
                  (map_err_outcome (wrap (runtime_not_available (runtime scope))) (raw_outcome r))
                  (run kube host scope)
                  (record h { sys = record h.sys { world = w } })).1.object
        go (error e) built = inl refl
        go (value rt) built =
            let w = (build (name scope) (work_dir scope) h.sys.world).1 in
            elim (run-IsHonest rt (record h { sys = record h.sys { world = w } })) [
              | inl same ↦ inl same
              | inr (marked, is_ready) ↦ inr (
                marked,
                record {
                  build = build;
                  registered = registered;
                  rt = rt;
                  built = built;
                  is_ready = is_ready;
                },
              )
            ]

    -- `Service.Reconcile` leaves the status of the control plane as it was, or it marks it ready and
    -- initialized; it does the latter only if the runtime that the provider built had the cluster and
    -- the check of the cluster, which is kind's own at kind, said that it is ready.
    pub reconcile-IsHonest :
        let o = (reconcile kube host scope provider h).1.object in
        (o.status ≡ h.object.status)
        ⊎ ((o.status ≡ (mark_ready h.object).status) × WasReady provider h.sys)
    unfolding reconcile
    reconcile-IsHonest = after_registry-IsHonest (provider.get (runtime scope)) refl
