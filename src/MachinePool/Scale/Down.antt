-- ===== src/MachinePool/Scale/Down.antt =====
-- Which children the loop that scales down in kwokmachinepool_controller.go deletes.
use native.Mathlib.Decide.{dec_lt}
use native.Mathlib.Numerals.{add-one}
use mathlib.Core.Path.{fun_ext}
use mathlib.Core.List.{◌++◌, reverse-cons}
use cluster_api_provider_kwo.Prelude.{
  ℕ, zero, suc, ◌+◌, ◌-◌, ◌≤◌, ◌<◌, ◌≡◌, refl, sym, ap, ◌∙◌, some, List, [], ◌∷◌, reverse, arith,
  length, take, drop, get_elem?,
}
use cluster_api_provider_kwo.Exec.{Exec, pure, ◌>>=◌}
use cluster_api_provider_kwo.Api.Kwok.{KwokMachine}
use cluster_api_provider_kwo.Kube.{Kube, Failure, deleting_excess}
use cluster_api_provider_kwo.Kube.Session.{Sys}
use cluster_api_provider_kwo.MachinePool.Scale.{delete_child, delete_at, scale_down}

module _ {ℓ} {A : Type ℓ} where
  get_elem?-append_left :
      (xs ys : List A) (i : ℕ) → i < length xs → get_elem? (xs ++ ys) i ≡ get_elem? xs i
  get_elem?-append_left [] ys i h = absurd (omega arith)
  get_elem?-append_left (x ∷ xs) ys zero h = refl
  get_elem?-append_left (x ∷ xs) ys (suc i) h = get_elem?-append_left xs ys i (omega arith)

  get_elem?-append_right :
      (xs ys : List A) (i : ℕ)
      → length xs ≤ i
      → get_elem? (xs ++ ys) i ≡ get_elem? ys (i - length xs)
  get_elem?-append_right [] ys i h = ap (get_elem? ys) (omega arith)
  get_elem?-append_right (x ∷ xs) ys zero h = absurd (omega arith)
  get_elem?-append_right (x ∷ xs) ys (suc i) h =
      get_elem?-append_right xs ys i (omega arith) ∙ ap (get_elem? ys) (omega arith)

  length-append : (xs ys : List A) → length (xs ++ ys) ≡ length xs + length ys
  length-append [] ys = omega arith
  length-append (x ∷ xs) ys = omega (arith, length-append xs ys)

  pub length-reverse : (xs : List A) → length (reverse xs) ≡ length xs
  length-reverse [] = refl
  length-reverse (x ∷ xs) =
      rw reverse-cons (omega (arith, length-append (reverse xs) (x ∷ []), length-reverse xs))

  get_elem?-reverse :
      (xs : List A) (i : ℕ)
      → i < length xs
      → get_elem? (reverse xs) i ≡ get_elem? xs (length xs - 1 - i)
  get_elem?-reverse [] i h = absurd (omega arith)
  get_elem?-reverse (x ∷ xs) i h = elim (dec_lt i (length xs)) [
    | yes before ↦
        ap (λ l. get_elem? l i) (reverse-cons x xs)
        ∙ get_elem?-append_left (reverse xs) (x ∷ []) i (omega (arith, length-reverse xs))
        ∙ get_elem?-reverse xs i before
        ∙ ap (get_elem? (x ∷ xs)) (shift before)
    | no behind ↦
        ap (λ l. get_elem? l i) (reverse-cons x xs)
        ∙ get_elem?-append_right (reverse xs) (x ∷ []) i (omega (arith, length-reverse xs))
        ∙ ap (get_elem? (x ∷ [])) (first behind)
        ∙ ap (get_elem? (x ∷ xs)) (last behind)
  ]
    where
      shift : i < length xs → suc (length xs - 1 - i) ≡ length (x ∷ xs) - 1 - i
      shift before = omega arith

      first : ¬ (i < length xs) → i - length (reverse xs) ≡ 0
      first behind = omega (arith, length-reverse xs)

      last : ¬ (i < length xs) → 0 ≡ length (x ∷ xs) - 1 - i
      last behind = omega arith

  get_elem?-some : (xs : List A) (i : ℕ) → i < length xs → (x : A) × (get_elem? xs i ≡ some x)
  get_elem?-some [] i h = absurd (omega arith)
  get_elem?-some (x ∷ xs) zero h = (x, refl)
  get_elem?-some (x ∷ xs) (suc i) h = get_elem?-some xs i (omega arith)

  take-drop-suc :
      (xs : List A) (i n : ℕ) {x : A}
      → get_elem? xs i ≡ some x
      → take (suc n) (drop i xs) ≡ x ∷ take n (drop (suc i) xs)
  take-drop-suc [] i n h = absurd (cc)
  take-drop-suc (y ∷ ys) zero n h = cc
  take-drop-suc (y ∷ ys) (suc i) n h = take-drop-suc ys i n h

module _ {W E C : Type 0} (kube : Kube W E C) where
  -- Deletes the children of a list, one after another, and stops at the first error.
  abbrev pub delete_each : List KwokMachine → Exec (Sys W C) (Failure E) (Unit {0})
  delete_each [] = pure tt
  delete_each (child ∷ children) =
      delete_child kube deleting_excess child >>= λ _. delete_each children

  scale_down-delete_each :
      (items : List KwokMachine) (rounds i : ℕ)
      → i + rounds ≤ length items
      → (s : Sys W C)
      → scale_down kube items rounds i s ≡ delete_each (take rounds (drop i (reverse items))) s
  unfolding scale_down
  scale_down-delete_each items zero i h s = refl
  scale_down-delete_each items (suc rounds) i h s =
      let (child, found) = get_elem?-some (reverse items) i (omega (arith, length-reverse items)) in
      let at_end = sym (get_elem?-reverse items i (omega arith)) ∙ found in
      let rest = λ (t : Sys W C).
        scale_down-delete_each items rounds (i + 1) (omega arith) t
        ∙ ap (λ k. delete_each (take rounds (drop k (reverse items))) t) (add-one i) in
      ap (λ o. (delete_at kube o >>= λ _. scale_down kube items rounds (i + 1)) s) at_end
      ∙ ap
          (λ (k : Exec (Sys W C) (Failure E) (Unit {0})).
            (delete_child kube deleting_excess child >>= λ _. k) s)
          (fun_ext rest)
      ∙ ap (λ l. delete_each l s) (sym (take-drop-suc (reverse items) i rounds found))

  -- The loop that scales down, which counts indices from the end, deletes the last children of the
  -- list, the last one first, as many as there are rounds; no index lies outside the list.
  pub scale_down_last :
      (items : List KwokMachine) (rounds : ℕ) (s : Sys W C)
      → rounds ≤ length items
      → scale_down kube items rounds 0 s ≡ delete_each (take rounds (reverse items)) s
  scale_down_last items rounds s h = scale_down-delete_each items rounds 0 (omega arith) s
