-- ===== src/Service/Delete/Stops.antt =====
-- How `Service.Delete` in pkg/services/kwok/cluster/delete.go ends.
use cluster_api_provider_kwo.Prelude.{◌≡◌, refl, inl, inr, ◌⊎◌, true, false, ◌∷◌, arith}
use cluster_api_provider_kwo.Exec.{Result, value, error, ok, is_ok}
use cluster_api_provider_kwo.Api.Meta.{done}
use cluster_api_provider_kwo.Kube.{down, uninstall}
use cluster_api_provider_kwo.Kube.Session.{Sys}
use cluster_api_provider_kwo.Runtimes.{Runtime, RuntimeProvider}
use cluster_api_provider_kwo.ControlPlaneScope.{Scope, name, work_dir}
use cluster_api_provider_kwo.Service.Delete.{after_load, delete}

module _ {W E C : Type 0} (provider : RuntimeProvider W E) (scope : Scope W E) where
  -- The cluster is on the host no more: the look-up says so, or a runtime that it gave was stopped and
  -- then uninstalled, both without an error and with nothing else sent.
  abbrev pub IsRemoved : Sys W C → Sys W C → Type 0
  IsRemoved s t =
      let (loaded, w) = provider.load (name scope) (work_dir scope) s.world in
      ((e : E) × (loaded ≡ error e) × (provider.is_not_exist e ≡ true) × (t.trace ≡ s.trace))
      ⊎ ((rt : Runtime W E) × (loaded ≡ value rt)
          × ((rt.down w).0 ≡ value tt)
          × ((rt.uninstall (rt.down w).1).0 ≡ value tt)
          × (t.trace ≡ uninstall (name scope) ∷ down (name scope) ∷ s.trace))

  abbrev loaded_state : Sys W C → Sys W C
  loaded_state s = record s { world = (provider.load (name scope) (work_dir scope) s.world).1 }

  after_load-stops :
      (rt : Runtime W E) (s : Sys W C)
      → let (o, t) = after_load provider scope (value rt) s in
        ((o ≡ ok done)
          × ((rt.down s.world).0 ≡ value tt)
          × ((rt.uninstall (rt.down s.world).1).0 ≡ value tt)
          × (t.trace ≡ uninstall (name scope) ∷ down (name scope) ∷ s.trace))
        ⊎ (is_ok o ≡ false)
  unfolding after_load
  after_load-stops rt s = ground arith

  after_load-nothing :
      (e : E) (s : Sys W C)
      → let (o, t) = after_load provider scope (error e) s in
        ((o ≡ ok done) × (provider.is_not_exist e ≡ true) × (t.trace ≡ s.trace)) ⊎ (is_ok o ≡ false)
  unfolding after_load
  after_load-nothing e s = ground arith

  after_load-IsRemoved :
      (r : Result E (Runtime W E)) (s : Sys W C)
      → (provider.load (name scope) (work_dir scope) s.world).0 ≡ r
      → let (o, t) = after_load provider scope r (loaded_state s) in
        ((o ≡ ok done) × IsRemoved s t) ⊎ (is_ok o ≡ false)
  after_load-IsRemoved (error e) s loaded = elim (after_load-nothing e (loaded_state s)) [
    | inl (good, missing, same) ↦ inl (good, inl (e, loaded, missing, same))
    | inr failed ↦ inr failed
  ]
  after_load-IsRemoved (value rt) s loaded = elim (after_load-stops rt (loaded_state s)) [
    | inl (good, stopped, gone, sent) ↦ inl (good, inr (rt, loaded, stopped, gone, sent))
    | inr failed ↦ inr failed
  ]

  -- `Delete` either returns no error, and then the cluster is on the host no more: the look-up says so
  -- and nothing was sent, or the runtime was stopped and then uninstalled; or it fails.
  pub delete-IsRemoved :
      (s : Sys W C)
      → let (o, t) = delete provider scope s in ((o ≡ ok done) × IsRemoved s t) ⊎ (is_ok o ≡ false)
  unfolding delete
  delete-IsRemoved s = after_load-IsRemoved _ s refl
