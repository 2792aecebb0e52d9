-- ===== src/WorkloadClient/Threads/Progress.antt =====
-- No goroutine of WorkloadClient/Threads.antt is stuck, and two are never between `Lock` and `Unlock`.
use native.Mathlib.Decide.{ℕ_discrete}
use cluster_api_provider_kwo.Prelude.{
  ℕ, ◌<◌, none, some, ◌≡◌, refl, ap, subst, sym, ◌∙◌, ◌⊎◌, inl, inr, true, false, arith,
}
use cluster_api_provider_kwo.Kube.{Kube}
use cluster_api_provider_kwo.WorkloadClient.{new_factory}
use cluster_api_provider_kwo.WorkloadClient.Threads.Mutex.{
  inside, left, update_self, update_other, IsExclusive, Moves, advance-Moves, self-holds, self-held,
  other-holds, other-held,
}
use cluster_api_provider_kwo.WorkloadClient.Threads.{
  Pc, idle, calling, asking, advance, System, update, gone_on, call_get, call_remove, go_on,
  call_ends, outside, Reach, start, later,
}

module _ {W E C : Type 0} where
  -- A goroutine that is not inside goes where it is not inside either, and leaves the mutex alone.
  quiet-IsExclusive :
      (s : System W E C) (i : ℕ) (p : Pc E C)
      → inside (s.pc i) ≡ false
      → inside p ≡ false
      → IsExclusive s
      → IsExclusive (record s { pc = update s.pc i p })
  quiet-IsExclusive s i p out out' e = record {
    holds = λ j within. elim (ℕ_discrete i j) [
      | yes same ↦ absurd (
          cc (
            subst (λ k. inside (update s.pc i p k) ≡ true) (sym same) within,
            update_self s.pc i p,
            out',
          ))
      | no differ ↦ e.holds j (ap inside (sym (update_other s.pc i j p differ)) ∙ within)
    ];
    held = λ j has. elim (ℕ_discrete i j) [
      | yes same ↦ absurd (cc (e.held j has, same, out))
      | no differ ↦ ap inside (update_other s.pc i j p differ) ∙ e.held j has
    ];
  }

module _ {W E C : Type 0} (kube : Kube W E C) where
  Moves-IsExclusive :
      (s : System W E C) (i : ℕ)
      → IsExclusive s
      → Moves i
          (s.pc i)
          s.shared.mutex
          (advance kube i (s.pc i) s.shared).0
          (advance kube i (s.pc i) s.shared).1.mutex
      → IsExclusive (gone_on kube s i)
  Moves-IsExclusive s i e moves =
      let q = (advance kube i (s.pc i) s.shared).0 in
      let self = update_self s.pc i q in
      record {
        holds = λ j within. elim (ℕ_discrete i j) [
          | yes same ↦
              let within' : inside q ≡ true =
                ap inside (sym self)
                ∙ subst (λ k. inside (update s.pc i q k) ≡ true) (sym same) within in
              self-holds moves within' ∙ ap some same
          | no differ ↦
              let before = e.holds j (ap inside (sym (update_other s.pc i j q differ)) ∙ within) in
              other-holds j moves (e.holds i) differ before
        ];
        held = λ j has. elim (ℕ_discrete i j) [
          | yes same ↦
              let now = has ∙ ap some (sym same) in
              subst (λ k. inside (update s.pc i q k) ≡ true) same
                (ap inside self ∙ self-held moves (e.held i) now)
          | no differ ↦
              ap inside (update_other s.pc i j q differ) ∙ e.held j (other-held j moves differ has)
        ];
      }

  Reach-IsExclusive : {w : W} {s : System W E C} → Reach kube w s → IsExclusive s
  unfolding new_factory
  Reach-IsExclusive start = record { holds = λ i within. absurd (cc); held = λ i has. absurd (cc) }
  Reach-IsExclusive (later {s} reach (call_get i r at no_slash)) =
      quiet-IsExclusive s i (calling r) (ap inside at) refl (Reach-IsExclusive reach)
  Reach-IsExclusive (later {s} reach (call_remove i cluster_name namespace at no_slash)) =
      quiet-IsExclusive s i (asking cluster_name namespace) (ap inside at) refl
        (Reach-IsExclusive reach)
  Reach-IsExclusive (later {s} reach (go_on i)) =
      Moves-IsExclusive s i (Reach-IsExclusive reach) (advance-Moves kube i (s.pc i) s.shared)
  Reach-IsExclusive (later {s} reach (call_ends i r o at)) =
      quiet-IsExclusive s i idle (ap inside at) refl (Reach-IsExclusive reach)
  Reach-IsExclusive (later {s} reach (outside w)) =
      let e = Reach-IsExclusive reach in record { holds = e.holds; held = e.held }

  moves_on :
      (s : System W E C) (i : ℕ)
      → left (advance kube i (s.pc i) s.shared).0 < left (s.pc i)
      → left ((gone_on kube s i).pc i) < left (s.pc i)
  moves_on s i less =
      subst (λ p. left p < left (s.pc i))
        (sym (update_self s.pc i (advance kube i (s.pc i) s.shared).0)) less

  -- With the mutex free a call goes on.
  free_goes_on :
      (s : System W E C) (i : ℕ)
      → s.shared.mutex ≡ none
      → 0 < left (s.pc i)
      → left ((gone_on kube s i).pc i) < left (s.pc i)
  free_goes_on s i free busy = moves_on s i (elim (advance-Moves kube i (s.pc i) s.shared) [
    | inl (_, _, _, why) ↦ elim why [
      | inl ended ↦ absurd (omega (arith, ended, busy))
      | inr (j, taken) ↦ absurd (cc (free, taken))
    ]
    | inr rest ↦ elim rest [
      | inl (_, _, _, less) ↦ less
      | inr rest' ↦ elim rest' [ inl (_, _, _, _, less) ↦ less | inr (_, _, _, less) ↦ less ]
    ]
  ])

  -- The goroutine that holds the mutex gives it back in its next step.
  holder_unlocks :
      (s : System W E C) (j : ℕ) → inside (s.pc j) ≡ true → (gone_on kube s j).shared.mutex ≡ none
  holder_unlocks s j within = elim (advance-Moves kube j (s.pc j) s.shared) [
    | inl (_, _, out, _) ↦ absurd (cc (out, within))
    | inr rest ↦ elim rest [
      | inl (_, out, _, _) ↦ absurd (cc (out, within))
      | inr rest' ↦ elim rest' [
        | inl (_, _, out, _, _) ↦ absurd (cc (out, within))
        | inr (free, _, _, _) ↦ free
      ]
    ]
  ]

  -- No call is ever stuck: however the goroutines have run, a call of `GetClient` or `RemoveClient`
  -- that has not ended either comes nearer to its end in the next step of its goroutine, or another
  -- goroutine holds the mutex, and after one step of that one it does. A call has at most six steps.
  pub never_stuck :
      (w : W) (s : System W E C) (i : ℕ)
      → Reach kube w s
      → 0 < left (s.pc i)
      → (left ((gone_on kube s i).pc i) < left (s.pc i))
        ⊎ ((j : ℕ) × (inside (s.pc j) ≡ true)
            × (left ((gone_on kube (gone_on kube s j) i).pc i) < left (s.pc i)))
  never_stuck w s i reach busy = elim (advance-Moves kube i (s.pc i) s.shared) [
    | inl (_, _, out, why) ↦ elim why [
      | inl ended ↦ absurd (omega (arith, ended, busy))
      | inr (j, taken) ↦
          let within = (Reach-IsExclusive reach).held j taken in
          let t = gone_on kube s j in
          let apart = λ (same : j ≡ i). absurd (cc (same, within, out)) in
          let stays : t.pc i ≡ s.pc i =
            update_other s.pc j i (advance kube j (s.pc j) s.shared).0 apart in
          inr (
            j,
            within,
            subst (λ n. left ((gone_on kube t i).pc i) < n) (ap left stays)
                (free_goes_on t i (holder_unlocks s j within)
                  (subst (λ p. 0 < left p) (sym stays) busy)),
          )
    ]
    | inr rest ↦ elim rest [
      | inl (_, _, _, less) ↦ inl (moves_on s i less)
      | inr rest' ↦ elim rest' [
        | inl (_, _, _, _, less) ↦ inl (moves_on s i less)
        | inr (_, _, _, less) ↦ inl (moves_on s i less)
      ]
    ]
  ]
