-- ===== src/MachinePool/Scale.antt =====
-- The loops of reconcileNormal in kwokmachinepool_controller.go that scale a pool up and down.
pub mod Up
pub mod Down
pub mod Bounds
use cluster_api_provider_kwo.Prelude.{
  ℕ, zero, suc, ◌+◌, ◌-◌, String, Option, none, some, List, length, get_elem?, leb, if◌then◌else◌,
}
use cluster_api_provider_kwo.Prelude.Int.{ℤ, pos_part, sub32, ltb_int, int_ltb}
use cluster_api_provider_kwo.Exec.{Result, value, error, Exec, pure, raise, panics, ◌>>=◌, ◌>>◌}
use cluster_api_provider_kwo.Api.Core.{Cluster, MachinePool}
use cluster_api_provider_kwo.Api.Kwok.{KwokMachine, KwokMachinePool}
use cluster_api_provider_kwo.Kube.{
  Kube, Failure, raw, Context, wrap, create_machine, delete_machine, checking_existing,
  creating_child, deleting_excess,
}
use cluster_api_provider_kwo.Kube.Session.{Sys, try_query, try_request}
use cluster_api_provider_kwo.MachinePool.Child.{child_key, new_child}

module _ {W E C : Type 0} (kube : Kube W E C) where
  -- `r.Create` of a child: one that exists already is no error.
  unfoldable pub after_create :
      String → Result E KwokMachine → Exec (Sys W C) (Failure E) (Unit {0})
  after_create name (value _) = pure tt
  after_create name (error e) =
      if kube.is_already_exists e then pure tt else raise (wrap (creating_child name) (raw e))

  unfoldable pub create_child : KwokMachine → Exec (Sys W C) (Failure E) (Unit {0})
  unfolding after_create
  create_child child =
      try_request (create_machine child) (kube.machines.create child)
      >>= after_create child.metadata.name

  module _ (cluster : Cluster) (machine_pool : MachinePool) (pool : KwokMachinePool) where
    unfoldable pub after_check : ℕ → Result E KwokMachine → Exec (Sys W C) (Failure E) (Unit {0})
    after_check i (value existing) = pure tt
    after_check i (error e) =
        if kube.is_not_found e
        then create_child (new_child kube cluster machine_pool pool i)
        else raise (wrap checking_existing (raw e))

    -- One round of the loop that scales up.
    unfoldable pub ensure_child : ℕ → Exec (Sys W C) (Failure E) (Unit {0})
    unfolding after_check
    ensure_child i = try_query (kube.machines.get (child_key pool i)) >>= after_check i

    -- `for i := …; i < desiredReplicas; i++`, with the rounds that are left.
    unfoldable pub scale_up : ℕ → ℕ → Exec (Sys W C) (Failure E) (Unit {0})
    scale_up zero i = pure tt
    scale_up (suc rounds) i = ensure_child i >>= λ _. scale_up rounds (i + 1)

  -- `r.Delete` of a child: one that is gone already is no error.
  unfoldable pub after_delete :
      Context → Result E (Unit {0}) → Exec (Sys W C) (Failure E) (Unit {0})
  after_delete context (value _) = pure tt
  after_delete context (error e) =
      if kube.is_not_found e then pure tt else raise (wrap context (raw e))

  unfoldable pub delete_child :
      (String → Context) → KwokMachine → Exec (Sys W C) (Failure E) (Unit {0})
  unfolding after_delete
  delete_child context child =
      try_request (delete_machine child) (kube.machines.delete child)
      >>= after_delete (context child.metadata.name)

  -- `machineToDelete := &Items[len(Items)-1-i]`: an index behind the end panics.
  delete_at : Option KwokMachine → Exec (Sys W C) (Failure E) (Unit {0})
  delete_at none = panics
  delete_at (some child) = delete_child deleting_excess child

  -- `for i := 0; i < toDelete && i < len(Items); i++`, with the rounds that are left.
  unfoldable pub scale_down : List KwokMachine → ℕ → ℕ → Exec (Sys W C) (Failure E) (Unit {0})
  unfolding delete_at
  scale_down items zero i = pure tt
  scale_down items (suc rounds) i =
      delete_at (get_elem? items (length items - 1 - i)) >>= λ _. scale_down items rounds (i + 1)

  -- The rounds of that loop, `min(toDelete, len(Items))`: none where `toDelete`, which is
  -- `currentReplicas - desiredReplicas` as an `int32`, is negative.
  unfoldable pub rounds_down : ℕ → ℤ → ℕ
  rounds_down current desired =
      let to_delete = pos_part (sub32 current desired) in
      if leb to_delete current then to_delete else current

  -- The two ifs over the list of children.
  unfoldable pub scale :
      Cluster
      → MachinePool
      → KwokMachinePool
      → ℤ
      → List KwokMachine
      → Exec (Sys W C) (Failure E) (Unit {0})
  scale cluster machine_pool pool desired items = do
    let current = length items
    if ltb_int current desired
        then scale_up cluster machine_pool pool (pos_part desired - current) current
        else pure tt
    if int_ltb desired current then scale_down items (rounds_down current desired) 0 else pure tt
