-- ===== src/MachinePool/Scale/Up.antt =====
-- What the loop that scales up in kwokmachinepool_controller.go creates.
use cluster_api_provider_kwo.Prelude.{
  ℕ, zero, suc, ◌+◌, ◌≤◌, ◌<◌, ◌≡◌, refl, ◌⊎◌, inl, inr, true, List, ◌∷◌, arith, Bool-cases,
}
use cluster_api_provider_kwo.Exec.{
  Result, value, error, Outcome, ok, err, panic, out_of_fuel, continue,
}
use cluster_api_provider_kwo.Api.Core.{Cluster, MachinePool}
use cluster_api_provider_kwo.Api.Kwok.{KwokMachine, KwokMachinePool}
use cluster_api_provider_kwo.Kube.{Kube, Failure, Write, create_machine}
use cluster_api_provider_kwo.Kube.Session.{Sys}
use cluster_api_provider_kwo.MachinePool.Child.{child_key, new_child}
use cluster_api_provider_kwo.MachinePool.Scale.{create_child, after_check, ensure_child, scale_up}

module _ {W E C : Type 0} (kube : Kube W E C) (cluster : Cluster) (machine_pool : MachinePool)
    (pool : KwokMachinePool) where
  -- The name with number `j` was found to be free.
  abbrev pub IsFree : ℕ → Type 0
  IsFree j =
      (w : W) × (e : E) × ((kube.machines.get (child_key pool j) w).0 ≡ error e)
      × (kube.is_not_found e ≡ true)

  -- `new` is `old` with children created on it, whose numbers lie from `i` on and below `k`, in
  -- rising order, each under a name that was found to be free.
  pub data Creates (old : List Write) (i : ℕ) : ℕ → List Write → Type 0 where
    nothing : {k : ℕ} → Creates old i k old
    one_more :
        {k : ℕ} {t : List Write} (j : ℕ)
        → Creates old i j t
        → i ≤ j
        → j < k
        → IsFree j
        → Creates old i k (create_machine (new_child kube cluster machine_pool pool j) ∷ t)

  Creates-widen :
      {old new : List Write} {i k k' : ℕ} → k ≤ k' → Creates old i k new → Creates old i k' new
  Creates-widen h nothing = nothing
  Creates-widen h (one_more j c l m f) = one_more j c l (omega arith) f

  abbrev AtMostOne : ℕ → List Write → List Write → Type 0
  AtMostOne i old new =
      (new ≡ old)
      ⊎ ((new ≡ create_machine (new_child kube cluster machine_pool pool i) ∷ old) × IsFree i)

  trace-after_check :
      (i : ℕ) (w : W) (r : Result E KwokMachine) (s : Sys W C)
      → (kube.machines.get (child_key pool i) w).0 ≡ r
      → AtMostOne i s.trace (after_check kube cluster machine_pool pool i r s).1.trace
  unfolding after_check create_child
  trace-after_check i w (value existing) s found = inl refl
  trace-after_check i w (error e) s missing = elim (Bool-cases (kube.is_not_found e)) [
    | inl free ↦ inr (ground arith, (w, e, missing, free))
    | inr other ↦ inl (ground arith)
  ]

  trace-ensure_child :
      (i : ℕ) (s : Sys W C)
      → AtMostOne i s.trace (ensure_child kube cluster machine_pool pool i s).1.trace
  unfolding ensure_child
  trace-ensure_child i s =
      let (found, w) = kube.machines.get (child_key pool i) s.world in
      trace-after_check i s.world found (record s { world = w }) refl

  Creates-ensure_child :
      {old : List Write} (i k : ℕ) (s : Sys W C)
      → i ≤ k
      → Creates old i k s.trace
      → Creates old i (k + 1) (ensure_child kube cluster machine_pool pool k s).1.trace
  Creates-ensure_child {old} i k s h c = elim (trace-ensure_child k s) [
    | inl same ↦ rw same (Creates-widen (omega arith) c)
    | inr (created, free) ↦ rw created (one_more k c h (omega arith) free)
  ]

  Creates-scale_up :
      {old : List Write} (i rounds k : ℕ) (s : Sys W C)
      → i ≤ k
      → Creates old i k s.trace
      → Creates old i (k + rounds) (scale_up kube cluster machine_pool pool rounds k s).1.trace
  unfolding scale_up
  Creates-scale_up i zero k s h c = Creates-widen (omega arith) c
  Creates-scale_up {old} i (suc rounds) k s h c =
      let (o, t) = ensure_child kube cluster machine_pool pool k s in
      go o t (Creates-ensure_child i k s h c)
        (λ c'. Creates-scale_up i rounds (k + 1) t (omega arith) c')
    where
      go :
          (o : Outcome (Failure E) (Unit {0})) (t : Sys W C)
          → Creates old i (k + 1) t.trace
          → (Creates old i (k + 1) t.trace
              → Creates old i
                  (k + 1 + rounds)
                  (scale_up kube cluster machine_pool pool rounds (k + 1) t).1.trace)
          → Creates old i
              (k + suc rounds)
              (continue o (λ _. scale_up kube cluster machine_pool pool rounds (k + 1)) t).1.trace
      go (ok a) t c' rest = Creates-widen (omega arith) (rest c')
      go (err e) t c' rest = Creates-widen (omega arith) c'
      go panic t c' rest = Creates-widen (omega arith) c'
      go out_of_fuel t c' rest = Creates-widen (omega arith) c'

  -- The loop that scales up sends nothing but the creation of children: their numbers rise from the
  -- first one, stay below the last one, and each name was found to be free just before.
  pub scale_up-Creates :
      (rounds i : ℕ) (s : Sys W C)
      → Creates s.trace i (i + rounds) (scale_up kube cluster machine_pool pool rounds i s).1.trace
  scale_up-Creates rounds i s = Creates-scale_up i rounds i s (omega arith) nothing
