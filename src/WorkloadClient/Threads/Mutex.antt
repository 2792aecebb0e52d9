-- ===== src/WorkloadClient/Threads/Mutex.antt =====
-- The mutex of workload_client.go among the goroutines of WorkloadClient/Threads.antt.
use native.Mathlib.Decide.{ℕ_discrete}
use mathlib.Core.Logic.{if_pos, if_neg}
use cluster_api_provider_kwo.Prelude.{
  ℕ, ◌<◌, Option, none, some, ◌≡◌, refl, ap, sym, ◌∙◌, ◌⊎◌, inl, inr, Bool, true, false, arith,
}
use cluster_api_provider_kwo.Prelude.Dict.{lookup}
use cluster_api_provider_kwo.Exec.{Outcome, ok, err, panic, out_of_fuel}
use cluster_api_provider_kwo.Kube.{Kube, RestConfig, Failure}
use cluster_api_provider_kwo.WorkloadClient.{fetch_config, connect}
use cluster_api_provider_kwo.WorkloadClient.Threads.{
  Request, key_of, Pc, idle, calling, looking, fetching, connecting, waiting, storing, returned,
  asking, removing, after_lookup, after_fetch, after_connect, Shared, lock, unlock, advance, System,
  update,
}

module _ {E C : Type 0} where
  -- The goroutine is between `f.mu.Lock()` and `f.mu.Unlock()`.
  abbrev pub inside : Pc E C → Bool
  inside idle = false
  inside (calling r) = false
  inside (looking r) = true
  inside (fetching r) = false
  inside (connecting r config) = false
  inside (waiting r c) = false
  inside (storing r c) = true
  inside (returned r o) = false
  inside (asking cluster_name namespace) = false
  inside (removing cluster_name namespace) = true

  -- The steps that a call has left at most.
  abbrev pub left : Pc E C → ℕ
  left idle = 0
  left (calling r) = 6
  left (looking r) = 5
  left (fetching r) = 4
  left (connecting r config) = 3
  left (waiting r c) = 2
  left (storing r c) = 1
  left (returned r o) = 0
  left (asking cluster_name namespace) = 2
  left (removing cluster_name namespace) = 1

  pub update_self : (pc : ℕ → Pc E C) (i : ℕ) (p : Pc E C) → update pc i p i ≡ p
  update_self pc i p = if_pos (ℕ_discrete i i) refl p (pc i)

  pub update_other : (pc : ℕ → Pc E C) (i j : ℕ) (p : Pc E C) → ¬ (i ≡ j) → update pc i p j ≡ pc j
  update_other pc i j p h = if_neg (ℕ_discrete i j) h p (pc j)

  -- What a step of goroutine `i` does to the mutex, and to the steps that are left.
  abbrev Waits : ℕ → Pc E C → Option ℕ → Pc E C → Option ℕ → Type 0
  Waits i p m q m' =
      (q ≡ p) × (m' ≡ m) × (inside p ≡ false) × ((left p ≡ 0) ⊎ ((j : ℕ) × (m ≡ some j)))

  abbrev Computes : ℕ → Pc E C → Option ℕ → Pc E C → Option ℕ → Type 0
  Computes i p m q m' = (m' ≡ m) × (inside p ≡ false) × (inside q ≡ false) × (left q < left p)

  abbrev Locks : ℕ → Pc E C → Option ℕ → Pc E C → Option ℕ → Type 0
  Locks i p m q m' =
      (m ≡ none) × (m' ≡ some i) × (inside p ≡ false) × (inside q ≡ true) × (left q < left p)

  abbrev Unlocks : ℕ → Pc E C → Option ℕ → Pc E C → Option ℕ → Type 0
  Unlocks i p m q m' = (m' ≡ none) × (inside p ≡ true) × (inside q ≡ false) × (left q < left p)

  abbrev pub Moves : ℕ → Pc E C → Option ℕ → Pc E C → Option ℕ → Type 0
  Moves i p m q m' = Waits i p m q m' ⊎ Computes i p m q m' ⊎ Locks i p m q m' ⊎ Unlocks i p m q m'

module _ {W E C : Type 0} where
  -- The mutex is held by the goroutine that is between its `Lock` and `Unlock`, and by no other.
  pub record IsExclusive (s : System W E C) : Type 0 where
    pub holds : (i : ℕ) → inside (s.pc i) ≡ true → s.shared.mutex ≡ some i
    pub held : (i : ℕ) → s.shared.mutex ≡ some i → inside (s.pc i) ≡ true

  lock-Moves :
      (i : ℕ) (m : Option ℕ) (p q : Pc E C) (s : Shared W C)
      → s.mutex ≡ m
      → inside p ≡ false
      → inside q ≡ true
      → left q < left p
      → Moves i p s.mutex (lock i m p q s).0 (lock i m p q s).1.mutex
  unfolding lock
  lock-Moves i none p q s free out within less = inr (inr (inl (free, refl, out, within, less)))
  lock-Moves i (some j) p q s taken out within less = inl (refl, refl, out, inr (j, taken))

-- What a step makes of who holds the mutex.
module _ {E C : Type 0} {i : ℕ} {p q : Pc E C} {m m' : Option ℕ} where
  pub self-holds : Moves i p m q m' → inside q ≡ true → m' ≡ some i
  self-holds (inl (same, _, out, _)) within = absurd (cc (ap inside same, out, within))
  self-holds (inr (inl (_, _, out, _))) within = absurd (cc (out, within))
  self-holds (inr (inr (inl (_, locked, _, _, _)))) within = locked
  self-holds (inr (inr (inr (_, _, out, _)))) within = absurd (cc (out, within))

  pub self-held : Moves i p m q m' → (m ≡ some i → inside p ≡ true) → m' ≡ some i → inside q ≡ true
  self-held (inl (_, same, out, _)) h has = absurd (cc (h (sym same ∙ has), out))
  self-held (inr (inl (same, out, _, _))) h has = absurd (cc (h (sym same ∙ has), out))
  self-held (inr (inr (inl (_, _, _, within, _)))) h has = within
  self-held (inr (inr (inr (free, _, _, _)))) h has = absurd (cc (free, has))

  pub other-holds :
      (j : ℕ)
      → Moves i p m q m'
      → (inside p ≡ true → m ≡ some i)
      → ¬ (i ≡ j)
      → m ≡ some j
      → m' ≡ some j
  other-holds j (inl (_, same, _, _)) h differ has = same ∙ has
  other-holds j (inr (inl (same, _, _, _))) h differ has = same ∙ has
  other-holds j (inr (inr (inl (free, _, _, _, _)))) h differ has = absurd (cc (free, has))
  other-holds j (inr (inr (inr (_, within, _, _)))) h differ has =
      absurd (differ (cc (h within, has)))

  pub other-held : (j : ℕ) → Moves i p m q m' → ¬ (i ≡ j) → m' ≡ some j → m ≡ some j
  other-held j (inl (_, same, _, _)) differ has = sym same ∙ has
  other-held j (inr (inl (same, _, _, _))) differ has = sym same ∙ has
  other-held j (inr (inr (inl (_, locked, _, _, _)))) differ has =
      absurd (differ (cc (locked, has)))
  other-held j (inr (inr (inr (free, _, _, _)))) differ has = absurd (cc (free, has))

module _ {W E C : Type 0} (kube : Kube W E C) where
  after_lookup-Moves :
      (r : Request) (o : Option C)
      → (inside {E = E} {C = C} (after_lookup r o) ≡ false)
        × (left {E = E} {C = C} (after_lookup r o) < 5)
  after_lookup-Moves r none = (refl, omega arith)
  after_lookup-Moves r (some c) = (refl, omega arith)

  after_fetch-Moves :
      (r : Request) (o : Outcome (Failure E) RestConfig)
      → (inside {E = E} {C = C} (after_fetch r o) ≡ false)
        × (left {E = E} {C = C} (after_fetch r o) < 4)
  after_fetch-Moves r (ok config) = (refl, omega arith)
  after_fetch-Moves r (err e) = (refl, omega arith)
  after_fetch-Moves r panic = (refl, omega arith)
  after_fetch-Moves r out_of_fuel = (refl, omega arith)

  after_connect-Moves :
      (r : Request) (o : Outcome (Failure E) C)
      → (inside {E = E} {C = C} (after_connect r o) ≡ false)
        × (left {E = E} {C = C} (after_connect r o) < 3)
  after_connect-Moves r (ok c) = (refl, omega arith)
  after_connect-Moves r (err e) = (refl, omega arith)
  after_connect-Moves r panic = (refl, omega arith)
  after_connect-Moves r out_of_fuel = (refl, omega arith)

  pub advance-Moves :
      (i : ℕ) (p : Pc E C) (s : Shared W C)
      → Moves i p s.mutex (advance kube i p s).0 (advance kube i p s).1.mutex
  unfolding advance unlock
  advance-Moves i idle s = inl (refl, refl, refl, inl refl)
  advance-Moves i (calling r) s =
      lock-Moves i s.mutex (calling r) (looking r) s refl refl refl (omega arith)
  advance-Moves i (looking r) s =
      let (out, less) = after_lookup-Moves r (lookup (key_of r) s.sys.clients) in
      inr (inr (inr (refl, refl, out, less)))
  advance-Moves i (fetching r) s =
      let (out, less) =
        after_fetch-Moves r (fetch_config kube r.cluster_name r.namespace s.sys).0 in
      inr (inl (refl, refl, out, less))
  advance-Moves i (connecting r config) s =
      let (out, less) = after_connect-Moves r (connect kube r.endpoint config s.sys).0 in
      inr (inl (refl, refl, out, less))
  advance-Moves i (waiting r c) s =
      lock-Moves i s.mutex (waiting r c) (storing r c) s refl refl refl (omega arith)
  advance-Moves i (storing r c) s = inr (inr (inr (refl, refl, refl, omega arith)))
  advance-Moves i (returned r o) s = inl (refl, refl, refl, inl refl)
  advance-Moves i (asking cluster_name namespace) s =
      lock-Moves i s.mutex (asking cluster_name namespace) (removing cluster_name namespace) s refl
        refl refl (omega arith)
  advance-Moves i (removing cluster_name namespace) s =
      inr (inr (inr (refl, refl, refl, omega arith)))
