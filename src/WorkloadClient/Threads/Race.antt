-- ===== src/WorkloadClient/Threads/Race.antt =====
-- `RemoveClient` during a call of `GetClient`, in WorkloadClient/Threads.antt.
use cluster_api_provider_kwo.Prelude.{ℕ, none, some, ◌≡◌, ap, ◌∙◌, sym}
use cluster_api_provider_kwo.Prelude.Dict.{lookup, lookup-insert_self, lookup-erase_self}
use cluster_api_provider_kwo.Kube.{Kube}
use cluster_api_provider_kwo.WorkloadClient.{remember, remove_client}
use cluster_api_provider_kwo.WorkloadClient.Key.{NoSlash}
use cluster_api_provider_kwo.WorkloadClient.Threads.Mutex.{update_self, update_other}
use cluster_api_provider_kwo.WorkloadClient.Threads.{
  Request, key_of, Pc, idle, waiting, storing, asking, removing, Shared, lock, unlock, advance,
  System, update, gone_on, Reach, later, call_remove, go_on,
}

module _ {W E C : Type 0} (kube : Kube W E C) where
  -- The system after goroutine `j` has called `RemoveClient` for the cluster.
  abbrev pub asked : System W E C → ℕ → Request → System W E C
  asked s j r = record s { pc = update s.pc j (asking r.cluster_name r.namespace) }

  -- The system after goroutine `j` has called `RemoveClient` for the cluster and has come back: it
  -- locks the mutex, removes the client and unlocks.
  abbrev pub removed : System W E C → ℕ → Request → System W E C
  removed s j r = gone_on kube (gone_on kube (asked s j r) j) j

  -- With the mutex free, what the two steps make.
  removed-steps :
      (s : System W E C) (i j : ℕ) (r : Request)
      → ¬ (i ≡ j)
      → s.shared.mutex ≡ none
      → let t = removed s j r in
        (t.pc j ≡ idle)
        × (t.pc i ≡ s.pc i)
        × (t.shared
            ≡ record { sys = remove_client r.cluster_name r.namespace s.shared.sys; mutex = none })
  unfolding advance lock unlock
  removed-steps s i j r differ free =
      let a = asked s j r in
      let b = gone_on kube a j in
      let ask = asking r.cluster_name r.namespace in
      let remove = removing r.cluster_name r.namespace in
      let apart = λ (same : j ≡ i). differ (sym same) in
      let locks : advance kube j ask s.shared ≡ (remove, record s.shared { mutex = some j }) =
        ap (λ m. lock j m ask remove s.shared) free in
      let first : advance kube j (a.pc j) s.shared ≡ (remove, record s.shared { mutex = some j }) =
        ap (λ p. advance kube j p s.shared) (update_self s.pc j ask) ∙ locks in
      let inside : b.pc j ≡ remove =
        update_self a.pc j (advance kube j (a.pc j) s.shared).0
        ∙ ap (λ (x : Pc E C × Shared W C). x.0) first in
      let second : advance kube j (b.pc j) b.shared
          ≡ advance kube j remove (record s.shared { mutex = some j }) =
        ap (λ p. advance kube j p b.shared) inside
        ∙ ap (λ (x : Pc E C × Shared W C). advance kube j remove x.1) first in
      (
        update_self b.pc j (advance kube j (b.pc j) b.shared).0
            ∙ ap (λ (x : Pc E C × Shared W C). x.0) second,
        update_other b.pc j i (advance kube j (b.pc j) b.shared).0 apart
            ∙ update_other a.pc j i (advance kube j (a.pc j) s.shared).0 apart
            ∙ update_other s.pc j i ask apart,
        ap (λ (x : Pc E C × Shared W C). x.1) second,
      )

  stores :
      (t : System W E C) (i : ℕ) (r : Request) (c : C)
      → t.shared.mutex ≡ none
      → t.pc i ≡ waiting r c
      → lookup (key_of r) (gone_on kube (gone_on kube t i) i).shared.sys.clients ≡ some c
  unfolding advance lock unlock remember
  stores t i r c free at =
      let b = gone_on kube t i in
      let first : advance kube i (t.pc i) t.shared
          ≡ (storing r c, record t.shared { mutex = some i }) =
        ap (λ p. advance kube i p t.shared) at
        ∙ ap (λ m. lock i m (waiting r c) (storing r c) t.shared) free in
      let inside : b.pc i ≡ storing r c =
        update_self t.pc i (advance kube i (t.pc i) t.shared).0
        ∙ ap (λ (x : Pc E C × Shared W C). x.0) first in
      ap (λ p. lookup (key_of r) (advance kube i p b.shared).1.sys.clients) inside
      ∙ ap
          (λ (x : Pc E C × Shared W C).
            lookup (key_of r) (advance kube i (storing r c) x.1).1.sys.clients)
          first
      ∙ lookup-insert_self (key_of r) c t.shared.sys.clients

  -- A removal during a call of `GetClient` does not last: where a goroutine has built a client and has
  -- not stored it yet, and no goroutine holds the mutex, another one can call `RemoveClient` for the
  -- same cluster and come back, with no client of the cluster in the cache; then the first one goes
  -- on, and the client that was built before the removal stands in the cache, for every later call to
  -- find.
  pub removal_undone :
      (w : W) (s : System W E C) (i j : ℕ) (r : Request) (c : C)
      → Reach kube w s
      → ¬ (i ≡ j)
      → s.pc i ≡ waiting r c
      → s.pc j ≡ idle
      → s.shared.mutex ≡ none
      → NoSlash r.namespace
      → let t = removed s j r in
        let u = gone_on kube (gone_on kube t i) i in
        Reach kube w t
        × (t.pc j ≡ idle)
        × (lookup (key_of r) t.shared.sys.clients ≡ none)
        × Reach kube w u
        × (lookup (key_of r) u.shared.sys.clients ≡ some c)
  unfolding remove_client
  removal_undone w s i j r c reach differ at at' free no_slash =
      let reach' =
        later
          (later (later reach (call_remove j r.cluster_name r.namespace at' no_slash)) (go_on j))
          (go_on j) in
      let (back, kept, same) = removed-steps s i j r differ free in
      (
        reach',
        back,
        ap (λ (x : Shared W C). lookup (key_of r) x.sys.clients) same
            ∙ lookup-erase_self (key_of r) s.shared.sys.clients,
        later (later reach' (go_on i)) (go_on i),
        stores (removed s j r) i r c (ap (λ (x : Shared W C). x.mutex) same) (kept ∙ at),
      )
