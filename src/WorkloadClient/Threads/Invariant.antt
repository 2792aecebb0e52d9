-- ===== src/WorkloadClient/Threads/Invariant.antt =====
-- Which clients the goroutines of WorkloadClient/Threads.antt return.
use native.Mathlib.Decide.{ℕ_discrete}
use mathlib.Core.Logic.{if_pos, if_neg}
use cluster_api_provider_kwo.Prelude.{ℕ, subst, ◌≡◌, refl, sym, ◌⊎◌, inl, inr}
use cluster_api_provider_kwo.Prelude.Dict.{lookup}
use cluster_api_provider_kwo.Exec.{ok}
use cluster_api_provider_kwo.Kube.{Kube}
use cluster_api_provider_kwo.WorkloadClient.{new_factory}
use cluster_api_provider_kwo.WorkloadClient.Threads.{
  Request, Pc, idle, calling, returned, asking, advance, System, update, Step, Reach, start, later,
  call_get, call_remove, go_on, call_ends, outside,
}
use cluster_api_provider_kwo.WorkloadClient.Threads.Fine.{
  IsFine, IsFineCache, advance-IsFine, IsBuiltForCluster,
}

module _ {W E C : Type 0} (kube : Kube W E C) where
  -- The run went through the world.
  abbrev pub IsVisited : {w : W} {s : System W E C} → Reach kube w s → W → Type 0
  IsVisited {w} start v = v ≡ w
  IsVisited {s} (later reach step) v = (v ≡ s.shared.sys.world) ⊎ IsVisited reach v

  -- The step is the call with this request.
  abbrev pub IsCall : {s t : System W E C} → Step kube s t → Request → Type 0
  IsCall (call_get i q at no_slash) r = r ≡ q
  IsCall (call_remove i cluster_name namespace at no_slash) r = ⊥
  IsCall (go_on i) r = ⊥
  IsCall (call_ends i q o at) r = ⊥
  IsCall (outside w) r = ⊥

  -- `GetClient` was called with this request in the run.
  abbrev pub IsRequested : {w : W} {s : System W E C} → Reach kube w s → Request → Type 0
  IsRequested start r = ⊥
  IsRequested (later reach step) r = IsCall step r ⊎ IsRequested reach r

  IsVisited-last :
      {w : W} {s : System W E C} (reach : Reach kube w s) → IsVisited reach s.shared.sys.world
  unfolding new_factory
  IsVisited-last start = refl
  IsVisited-last (later reach step) = inl refl

module _ {W E C : Type 0} (kube : Kube W E C) (Seen : W → Type 0) (Asked : Request → Type 0) where
  -- All goroutines and the cache are fine.
  record IsFineSystem (s : System W E C) : Type 0 where
    goroutines : (i : ℕ) → IsFine kube Seen Asked (s.pc i)
    cache : IsFineCache kube Seen Asked s.shared.sys

  update-IsFine :
      (pc : ℕ → Pc E C) (i : ℕ) (p : Pc E C)
      → IsFine kube Seen Asked p
      → ((j : ℕ) → IsFine kube Seen Asked (pc j))
      → (j : ℕ) → IsFine kube Seen Asked (update pc i p j)
  update-IsFine pc i p h k j = elim (ℕ_discrete i j) [
    | yes same ↦ subst (IsFine kube Seen Asked) (sym (if_pos (ℕ_discrete i j) same p (pc j))) h
    | no differ ↦
        subst (IsFine kube Seen Asked) (sym (if_neg (ℕ_discrete i j) differ p (pc j))) (k j)
  ]

  Step-IsFineSystem :
      {s t : System W E C} (step : Step kube s t)
      → Seen s.shared.sys.world
      → ((r : Request) → IsCall kube step r → Asked r)
      → IsFineSystem s
      → IsFineSystem t
  Step-IsFineSystem {s} (call_get i r at no_slash) seen asked fine = record {
    goroutines = update-IsFine s.pc i (calling r) (no_slash, asked r refl) fine.goroutines;
    cache = fine.cache;
  }
  Step-IsFineSystem {s} (call_remove i cluster_name namespace at no_slash) seen asked fine =
      record {
        goroutines = update-IsFine s.pc i (asking cluster_name namespace) tt fine.goroutines;
        cache = fine.cache;
      }
  Step-IsFineSystem {s} (go_on i) seen asked fine =
      let (p, k) =
        advance-IsFine kube Seen Asked i (s.pc i) s.shared seen (fine.goroutines i) fine.cache in
      record {
        goroutines = update-IsFine s.pc i (advance kube i (s.pc i) s.shared).0 p fine.goroutines;
        cache = k;
      }
  Step-IsFineSystem {s} (call_ends i r o at) seen asked fine = record {
    goroutines = update-IsFine s.pc i idle tt fine.goroutines;
    cache = fine.cache;
  }
  Step-IsFineSystem {s} (outside w) seen asked fine = record {
    goroutines = fine.goroutines;
    cache = fine.cache;
  }

  Reach-IsFineSystem :
      {w : W} {s : System W E C} (reach : Reach kube w s)
      → ((v : W) → IsVisited kube reach v → Seen v)
      → ((r : Request) → IsRequested kube reach r → Asked r)
      → IsFineSystem s
  unfolding new_factory lookup
  Reach-IsFineSystem start seen asked = record {
    goroutines = λ i. tt;
    cache = λ key c found. absurd (cc);
  }
  Reach-IsFineSystem (later {s} reach step) seen asked =
      Step-IsFineSystem step (seen s.shared.sys.world (inr (IsVisited-last kube reach)))
        (λ r call. asked r (inl call))
        (Reach-IsFineSystem reach (λ v visited. seen v (inr visited))
          (λ r requested. asked r (inr requested)))

module _ {W E C : Type 0} (kube : Kube W E C) where
  -- However many goroutines call `GetClient` and `RemoveClient` of one factory, in whatever order
  -- they run, and whatever happens outside meanwhile: a client that `GetClient` returns for a cluster
  -- was built, in worlds that the run went through, from a kubeconfig that the API server gave for that
  -- cluster's secret, and for a request for that cluster that was made in the run: it connects to the
  -- endpoint of that request, or where this has none to the host of the kubeconfig; the client of
  -- another cluster is never returned. No namespace that is asked for has a slash.
  pub returned-IsBuiltForCluster :
      (w : W) (s : System W E C) (i : ℕ) (r : Request) (c : C) (reach : Reach kube w s)
      → s.pc i ≡ returned r (ok c)
      → IsBuiltForCluster kube
          (IsVisited kube reach)
          (IsRequested kube reach)
          r.cluster_name
          r.namespace
          c
  returned-IsBuiltForCluster w s i r c reach at =
      let Seen = IsVisited kube reach in
      let Asked = IsRequested kube reach in
      let fine : IsFine kube Seen Asked (returned r (ok c)) = subst (IsFine kube Seen Asked) at (
        (Reach-IsFineSystem kube Seen Asked reach (λ v visited. visited)
            (λ r requested. requested)).goroutines
          i) in
      fine c refl
