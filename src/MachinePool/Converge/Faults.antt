-- ===== src/MachinePool/Converge/Faults.antt =====
-- Scaling up a pool of kwokmachinepool_controller.go at an API server whose calls may fail.
use cluster_api_provider_kwo.Prelude.{
  ℕ, String, zero, suc, ◌+◌, ◌≤◌, ◌≡◌, refl, ap, sym, subst, ◌⊎◌, inl, inr, false, List, ◌∷◌,
  length, arith, Bool-cases,
}
use cluster_api_provider_kwo.Exec.Inversion.{continue-keeps}
use cluster_api_provider_kwo.Exec.{Result, value, error, Outcome, ok}
use cluster_api_provider_kwo.Api.Core.{Cluster, MachinePool}
use cluster_api_provider_kwo.Api.Kwok.{KwokMachine, KwokMachinePool}
use cluster_api_provider_kwo.Kube.{Kube, Failure, create_machine}
use cluster_api_provider_kwo.Kube.Session.{Sys}
use cluster_api_provider_kwo.MachinePool.Child.{child_key, child_labels, machine_name, new_child}
use cluster_api_provider_kwo.MachinePool.Scale.{
  after_create, create_child, after_check, ensure_child, scale_up,
}
use cluster_api_provider_kwo.MachinePool.Converge.Numbers.{number_is_free, cons-IsNumberedBelow}
use cluster_api_provider_kwo.MachinePool.Converge.{HasName, IsNumberedBelow}
use cluster_api_provider_kwo.MachinePool.Converge.Numbers.{number_is_free, cons-IsNumberedBelow}

-- An API server that may answer any call with an error. Where it answers, a list is as long as the
-- children are many, an object under a child's name is a child, and an object under a name that was
-- free is there once its creation, or that there is one already, was answered; a creation that
-- failed may have been made all the same.
pub record IsFaithful {W E C : Type 0} (kube : Kube W E C) (cluster : Cluster)
    (machine_pool : MachinePool) (pool : KwokMachinePool) (Holds : List KwokMachine → W → Type 0)
    : Type 0 where
  pub lists :
      (children : List KwokMachine) (w : W)
      → Holds children w
      → let (r, w') =
          kube.machines.list pool.metadata.namespace (child_labels kube cluster machine_pool) w in
        Holds children w'
        × ((items : List KwokMachine) → r ≡ value items → length items ≡ length children)
  pub gets :
      (children : List KwokMachine) (i : ℕ) (w : W)
      → Holds children w
      → let (r, w') = kube.machines.get (child_key pool i) w in
        Holds children w' × ((child : KwokMachine) → r ≡ value child → HasName pool i children)
  pub creates :
      (children : List KwokMachine) (i : ℕ) (w : W)
      → Holds children w
      → ¬ HasName pool i children
      → let (r, w') = kube.machines.create (new_child kube cluster machine_pool pool i) w in
        ((child : KwokMachine) × (child.metadata.name ≡ machine_name pool i)
          × Holds (child ∷ children) w')
        ⊎ (Holds children w' × ((e : E) × (r ≡ error e) × (kube.is_already_exists e ≡ false)))

-- The world has children of the pool, numbered without a gap: at least `n` and at most `m` of them.
pub record IsGapless {W : Type 0} (pool : KwokMachinePool) (Holds : List KwokMachine → W → Type 0)
    (n m : ℕ) (w : W) : Type 0 where
  pub children : List KwokMachine
  pub held : Holds children w
  pub numbered : IsNumberedBelow pool (length children) children
  pub at_least : n ≤ length children
  pub at_most : length children ≤ m

module _ {W : Type 0} (pool : KwokMachinePool) {Holds : List KwokMachine → W → Type 0} where
  pub IsGapless-widen :
      {n m n' m' : ℕ} {w : W}
      → n' ≤ n
      → m ≤ m'
      → IsGapless pool Holds n m w
      → IsGapless pool Holds n' m' w
  IsGapless-widen low high gapless = record {
    children = gapless.children;
    held = gapless.held;
    numbered = gapless.numbered;
    at_least = omega (arith, low, gapless.at_least);
    at_most = omega (arith, high, gapless.at_most);
  }

module _ {W E C : Type 0} (kube : Kube W E C) (cluster : Cluster) (machine_pool : MachinePool)
    (pool : KwokMachinePool) {Holds : List KwokMachine → W → Type 0}
    (server : IsFaithful kube cluster machine_pool pool Holds) where
  -- After an attempt at number `n`, where the children have the numbers below it.
  abbrev IsTried : ℕ → Outcome (Failure E) (Unit {0}) → W → Type 0
  IsTried n o w =
      IsGapless pool Holds (suc n) (suc n) w ⊎ (IsGapless pool Holds n n w × ¬ (o ≡ ok tt))

  unchanged :
      (n : ℕ) (children : List KwokMachine) (s : Sys W C)
      → Holds children s.world
      → length children ≡ n
      → IsNumberedBelow pool n children
      → IsGapless pool Holds n n s.world
  unchanged n children s holds many below = record {
    children = children;
    held = holds;
    numbered = subst (λ k. IsNumberedBelow pool k children) (sym many) below;
    at_least = omega (arith, many);
    at_most = omega (arith, many);
  }

  after_create-IsTried :
      (n : ℕ) (name : String) (r : Result E KwokMachine) (s : Sys W C)
      → IsGapless pool Holds (suc n) (suc n) s.world
        ⊎ (IsGapless pool Holds n n s.world
            × ((e : E) × (r ≡ error e) × (kube.is_already_exists e ≡ false)))
      → let (o, t) = after_create kube name r s in IsTried n o t.world
  unfolding after_create
  after_create-IsTried n name (value child) s (inl made) = inl made
  after_create-IsTried n name (value child) s (inr (same, failure)) =
      let (e, failed, other) = failure in absurd (cc)
  after_create-IsTried n name (error e) s (inl made) =
      elim (Bool-cases (kube.is_already_exists e)) [
        | inl taken ↦ rw taken (inl made)
        | inr other ↦ rw other (inl made)
      ]
  after_create-IsTried n name (error e) s (inr (same, failure)) =
      let (e', failed, other) = failure in
      let other' : kube.is_already_exists e ≡ false = cc (failed, other) in
      rw other' (inr (same, λ good. absurd (cc)))

  create_child-IsTried :
      (n : ℕ) (children : List KwokMachine) (s : Sys W C)
      → Holds children s.world
      → length children ≡ n
      → IsNumberedBelow pool n children
      → let (o, t) = create_child kube (new_child kube cluster machine_pool pool n) s in
        IsTried n o t.world
  unfolding create_child
  create_child-IsTried n children s holds many below =
      let new = new_child kube cluster machine_pool pool n in
      let (r, w) = kube.machines.create new s.world in
      after_create-IsTried n new.metadata.name r
        (record s { world = w; trace = create_machine new ∷ s.trace })
        (elim (server.creates children n s.world holds (number_is_free pool n children below)) [
          | inl (child, name, holds') ↦ inl (
              unchanged (suc n) (child ∷ children) (record s { world = w }) holds' (ap suc many)
                (cons-IsNumberedBelow pool n child children name below))
          | inr (holds', failed) ↦
              inr (unchanged n children (record s { world = w }) holds' many below, failed)
        ])

  after_check-IsTried :
      (n : ℕ) (children : List KwokMachine) (r : Result E KwokMachine) (s : Sys W C)
      → Holds children s.world
      → length children ≡ n
      → IsNumberedBelow pool n children
      → ((child : KwokMachine) → r ≡ value child → HasName pool n children)
      → let (o, t) = after_check kube cluster machine_pool pool n r s in IsTried n o t.world
  unfolding after_check
  after_check-IsTried n children (value child) s holds many below named =
      absurd (number_is_free pool n children below (named child refl))
  after_check-IsTried n children (error e) s holds many below named =
      elim (Bool-cases (kube.is_not_found e)) [
        | inl missing ↦ rw missing (create_child-IsTried n children s holds many below)
        | inr other ↦ rw other (inr (unchanged n children s holds many below, λ good. absurd (cc)))
      ]

  ensure_child-IsTried :
      (n : ℕ) (children : List KwokMachine) (s : Sys W C)
      → Holds children s.world
      → length children ≡ n
      → IsNumberedBelow pool n children
      → let (o, t) = ensure_child kube cluster machine_pool pool n s in IsTried n o t.world
  unfolding ensure_child
  ensure_child-IsTried n children s holds many below =
      let (holds', named) = server.gets children n s.world holds in
      let (r, w) = kube.machines.get (child_key pool n) s.world in
      after_check-IsTried n children r (record s { world = w }) holds' many below named

  pub scale_up-IsGapless :
      (rounds n : ℕ) (s : Sys W C)
      → IsGapless pool Holds n n s.world
      → IsGapless pool Holds n
          (n + rounds)
          (scale_up kube cluster machine_pool pool rounds n s).1.world
  unfolding scale_up
  scale_up-IsGapless zero n s gapless = IsGapless-widen pool (omega arith) (omega arith) gapless
  scale_up-IsGapless (suc rounds) n s gapless =
      let many : length gapless.children ≡ n = omega (arith, gapless.at_least, gapless.at_most) in
      let (o, t) = ensure_child kube cluster machine_pool pool n s in
      let tried =
        ensure_child-IsTried n gapless.children s gapless.held many
          (subst (λ k. IsNumberedBelow pool k gapless.children) many gapless.numbered) in
      continue-keeps (λ u. IsGapless pool Holds n (n + suc rounds) u.world) o
        (λ _. scale_up kube cluster machine_pool pool rounds (n + 1)) t
        (elim tried [
          | inl next ↦ IsGapless-widen pool (omega arith) (omega arith) next
          | inr (same, failed) ↦ IsGapless-widen pool (omega arith) (omega arith) same
        ])
        (λ a good. elim tried [
          | inl next ↦ IsGapless-widen pool (omega arith) (omega arith) (
              scale_up-IsGapless rounds (n + 1) t
                (IsGapless-widen pool (omega arith) (omega arith) next))
          | inr (same, failed) ↦ absurd (failed good)
        ])
