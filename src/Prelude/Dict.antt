-- ===== src/Prelude/Dict.antt =====
-- Go's `map[string]V` as an association list: reading, assigning and `delete`. The source never
-- ranges over such a map, so the order of its entries means nothing.
use Prim.Native.String.{String}
use mathlib.Core.Path.{◌≡◌}
use mathlib.Core.Logic.{◌⊎◌, inl, inr}
use mathlib.Core.Option.{Option, none, some}
use mathlib.Core.List.{List, [], ◌∷◌}
use native.Mathlib.Omega.{arith}
use text.Mathlib.Text.{◌==◌}
use text.Mathlib.TextEquality.{eq_iff}
use text.Mathlib.TextPositions.{eq_refl}
use cluster_api_provider_kwo.Prelude.Tests.{if◌then◌else◌, Bool-cases}

module _ {ℓ} {V : Type ℓ} where
  unfoldable pub lookup : String → List (String × V) → Option V
  lookup key [] = none
  lookup key (entry ∷ entries) =
      let rest = lookup key entries in if key == entry.0 then some entry.1 else rest

  -- `delete(m, key)`
  unfoldable pub erase : String → List (String × V) → List (String × V)
  erase key [] = []
  erase key (entry ∷ entries) =
      let rest = erase key entries in if key == entry.0 then rest else entry ∷ rest

  -- `m[key] = v`: the new entry takes the place of an older one.
  unfoldable pub insert : String → V → List (String × V) → List (String × V)
  insert key v entries = (key, v) ∷ erase key entries

  pub lookup-erase :
      (key other : String) (entries : List (String × V))
      → lookup other (erase key entries) ≡ (if key == other then none else lookup other entries)
  unfolding lookup erase
  lookup-erase key other [] = ground arith
  lookup-erase key other (entry ∷ entries) =
      let (k, _) = entry in
      ground (arith, lookup-erase key other entries, eq_iff key k, eq_iff other k, eq_iff key other)

  pub lookup-insert_self :
      (key : String) (v : V) (entries : List (String × V))
      → lookup key (insert key v entries) ≡ some v
  unfolding lookup insert
  lookup-insert_self key v entries = simp eq_refl

  pub lookup-erase_self :
      (key : String) (entries : List (String × V)) → lookup key (erase key entries) ≡ none
  lookup-erase_self key entries =
      ground (arith, lookup-erase key key entries, eq_iff key key, eq_refl key)

  -- What is found after `delete` was there before.
  pub lookup-erase-some :
      (key other : String) (entries : List (String × V)) {v : V}
      → lookup other (erase key entries) ≡ some v
      → lookup other entries ≡ some v
  lookup-erase-some key other entries h = ground (arith, lookup-erase key other entries)

  -- What is found after an assignment was assigned, or was there before.
  pub lookup-insert-some :
      (key other : String) (v : V) (entries : List (String × V)) {v' : V}
      → lookup other (insert key v entries) ≡ some v'
      → ((key ≡ other) × (v ≡ v')) ⊎ (lookup other entries ≡ some v')
  unfolding lookup insert
  lookup-insert-some key other v entries h = elim (Bool-cases (other == key)) [
    | inl same ↦ inl (ground (arith, eq_iff other key))
    | inr differ ↦ inr (ground (arith, lookup-erase key other entries))
  ]
