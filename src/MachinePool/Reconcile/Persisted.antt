-- ===== src/MachinePool/Reconcile/Persisted.antt =====
-- `Reconcile` in kwokmachinepool_controller.go reports success only for what it has persisted.
use cluster_api_provider_kwo.Prelude.{◌≡◌, refl, ◌∷◌}
use cluster_api_provider_kwo.Exec.{Result, value, error, ok}
use cluster_api_provider_kwo.Exec.Inversion.{keep_first-eq_ok}
use cluster_api_provider_kwo.Api.Meta.{CtrlResult}
use cluster_api_provider_kwo.Api.Core.{Cluster, MachinePool}
use cluster_api_provider_kwo.Api.Kwok.{KwokMachinePool}
use cluster_api_provider_kwo.Kube.{Kube, Op, patch_pool}
use cluster_api_provider_kwo.Kube.Session.{Sys, Held, raw_outcome, raw_outcome-eq_ok}
use cluster_api_provider_kwo.MachinePool.Reconcile.{dispatch, patch_held, after_helper, patched}

module _ {W E C : Type 0} (kube : Kube W E C) (kwok_pool : KwokMachinePool) (cluster : Cluster)
    (machine_pool : MachinePool) where
  -- The call for the pool, begun in `s`, ended well with `r`; what it left of the pool was sent as the
  -- newest write, and the API accepted it.
  abbrev pub IsPersisted :
      Result E (KwokMachinePool → Op W E (Unit {0})) → Sys W C → Sys W C → CtrlResult → Type 0
  IsPersisted helper s t r =
      let start : Held W C KwokMachinePool = record { sys = s; object = kwok_pool } in
      let (o, end) = dispatch kube cluster machine_pool start in
      (patch : KwokMachinePool → Op W E (Unit {0})) × (helper ≡ value patch)
      × (o ≡ ok r)
      × ((patch end.object end.sys.world).0 ≡ value tt)
      × (t.trace ≡ patch_pool end.object ∷ end.sys.trace)

  after_helper-IsPersisted :
      (helper : Result E (KwokMachinePool → Op W E (Unit {0}))) (s : Sys W C) {r : CtrlResult}
      → (after_helper kube kwok_pool cluster machine_pool helper s).0 ≡ ok r
      → IsPersisted helper s (after_helper kube kwok_pool cluster machine_pool helper s).1 r
  unfolding after_helper patch_held
  after_helper-IsPersisted (error e) s h = absurd (cc)
  after_helper-IsPersisted (value patch) s h =
      let start : Held W C KwokMachinePool = record { sys = s; object = kwok_pool } in
      let (o, end) = dispatch kube cluster machine_pool start in
      let (good, (_, accepted)) =
        keep_first-eq_ok o (raw_outcome (patch end.object end.sys.world).0) h in
      (patch, refl, good, raw_outcome-eq_ok _ accepted, refl)

  -- If `Reconcile` of a pool, behind its guards, returns no error, then the call for the pool ended
  -- well with the same result, the newest write is a patch that has the pool as that call left it, and
  -- the API accepted it.
  pub patched-IsPersisted :
      (s : Sys W C) {r : CtrlResult}
      → (patched kube kwok_pool cluster machine_pool s).0 ≡ ok r
      → let (helper, w) = kube.pools.new_helper kwok_pool s.world in
        IsPersisted helper
          (record s { world = w })
          (patched kube kwok_pool cluster machine_pool s).1
          r
  unfolding patched
  patched-IsPersisted s h =
      let (helper, w) = kube.pools.new_helper kwok_pool s.world in
      after_helper-IsPersisted helper (record s { world = w }) h
