-- ===== src/MachinePool/Scale/Bounds.antt =====
-- The 32-bit counts by which reconcileNormal in kwokmachinepool_controller.go scales a pool down.
use cluster_api_provider_kwo.Prelude.{
  ℕ, ◌+◌, ◌-◌, ◌^◌, ◌≤◌, ◌<◌, ◌≡◌, ap, ◌∙◌, true, false, List, length, take, reverse, ltb,
  if◌then◌else◌, arith,
}
use cluster_api_provider_kwo.Prelude.Int.{ℤ, pos, negsuc, pos_part, neg_part, ltb_int, int_ltb}
use cluster_api_provider_kwo.Api.Core.{Cluster, MachinePool}
use cluster_api_provider_kwo.Api.Kwok.{KwokMachine, KwokMachinePool}
use cluster_api_provider_kwo.Kube.{Kube}
use cluster_api_provider_kwo.Kube.Session.{Sys}
use cluster_api_provider_kwo.MachinePool.Scale.{rounds_down, scale_down, scale}
use cluster_api_provider_kwo.MachinePool.Scale.Down.{delete_each, scale_down_last}

abbrev pub IsInt32 : ℤ → Type 0
IsInt32 z = (neg_part z ≤ 2 ^ 31) × (pos_part z < 2 ^ 31)

-- The children above the wanted number, and all of them for a negative number; but none where the
-- difference does not fit.
abbrev pub excess : ℕ → ℤ → ℕ
excess n z = if ltb (n + neg_part z) (2 ^ 31) then n - pos_part z else 0

is_not_fewer : (n : ℕ) (z : ℤ) → pos_part z < n + neg_part z → ltb_int n z ≡ false
is_not_fewer n (pos m) h = ground arith
is_not_fewer n (negsuc m) h = ground arith

module _ {W E C : Type 0} (kube : Kube W E C) where
  pub rounds_down-excess :
      (n : ℕ) (z : ℤ)
      → IsInt32 z
      → n < 2 ^ 31
      → pos_part z < n + neg_part z
      → rounds_down kube n z ≡ excess n z
  unfolding rounds_down
  rounds_down-excess n (pos m) fits small less = ground arith
  rounds_down-excess n (negsuc m) fits small less = ground arith

  -- Where a pool has more children than it wants, at most `2 ^ 31 - 1` of them, the two loops
  -- together delete the last children in the list, the last one first: as many as are too many, and
  -- all of them where a negative number is wanted; but where the difference of the two numbers does
  -- not fit into an `int32` they delete none.
  pub scale-excess :
      (cluster : Cluster) (machine_pool : MachinePool) (pool : KwokMachinePool) (desired : ℤ)
      (items : List KwokMachine) (s : Sys W C)
      → IsInt32 desired
      → length items < 2 ^ 31
      → pos_part desired < length items + neg_part desired
      → scale kube cluster machine_pool pool desired items s
        ≡ delete_each kube (take (excess (length items) desired) (reverse items)) s
  unfolding scale
  scale-excess cluster machine_pool pool desired items s fits small less =
      let n = length items in
      let not_below : ltb_int n desired ≡ false = is_not_fewer n desired less in
      let is_above : int_ltb desired n ≡ true = ground arith in
      let few : excess n desired ≤ n = ground arith in
      rw (not_below, is_above)
        (ap (λ k. scale_down kube items k 0 s) (rounds_down-excess n desired fits small less)
          ∙ scale_down_last kube items (excess n desired) s few)
