-- ===== src/MachinePool/Converge/Numbers.antt =====
-- Children of a pool that are numbered without a gap.
use cluster_api_provider_kwo.Prelude.{ℕ, suc, ◌≡◌, ap, sym, ◌∙◌, inl, inr, List, ◌∷◌, arith}
use cluster_api_provider_kwo.Api.Kwok.{KwokMachine, KwokMachinePool}
use cluster_api_provider_kwo.MachinePool.Child.{machine_name}
use cluster_api_provider_kwo.MachinePool.Child.Names.{machine_name-injective}
use cluster_api_provider_kwo.MachinePool.Converge.{HasName, IsNumberedBelow}

module _ (pool : KwokMachinePool) where
  pub number_is_free :
      (n : ℕ) (children : List KwokMachine)
      → IsNumberedBelow pool n children
      → ¬ HasName pool n children
  number_is_free n children below (child, has, name) =
      let (i, less, name') = below child has in
      let same : i ≡ n = machine_name-injective pool i n (sym name' ∙ name) in
      absurd (omega (arith, same, less))

  pub cons-IsNumberedBelow :
      (n : ℕ) (child : KwokMachine) (children : List KwokMachine)
      → child.metadata.name ≡ machine_name pool n
      → IsNumberedBelow pool n children
      → IsNumberedBelow pool (suc n) (child ∷ children)
  cons-IsNumberedBelow n child children name below other (inl same) =
      (n, omega arith, ap (λ (c : KwokMachine). c.metadata.name) same ∙ name)
  cons-IsNumberedBelow n child children name below other (inr has) =
      let (i, less, name') = below other has in (i, omega (arith, less), name')
