-- ===== src/MachinePool/Status/Collect.antt =====
-- The loop over the children in kwokmachinepool_controller.go against what it is to compute.
use mathlib.Core.List.{◌++◌, append_assoc, append-nil}
use cluster_api_provider_kwo.Prelude.{
  String, Bool, true, false, ◌&&◌, ◌≡◌, List, [], ◌∷◌, arith, str_eq, if◌then◌else◌,
}
use cluster_api_provider_kwo.Api.Kwok.{KwokMachine}
use cluster_api_provider_kwo.MachinePool.Status.{collect}

-- The provider IDs that are set, in the order of the children.
abbrev pub provider_ids : List KwokMachine → List String
provider_ids [] = []
provider_ids (child ∷ children) =
    let rest = provider_ids children in
    if str_eq child.spec.provider_id "" then rest else child.spec.provider_id ∷ rest

-- Every child has a provider ID.
abbrev pub all_set : List KwokMachine → Bool
all_set [] = true
all_set (child ∷ children) =
    let rest = all_set children in if str_eq child.spec.provider_id "" then false else rest

-- The loop over the children collects, behind what it has, the provider IDs that are set, in
-- order, and finds whether every child has one.
pub collect_lem :
    (ids : List String) (all : Bool) (children : List KwokMachine)
    → collect ids all children ≡ (ids ++ provider_ids children, all && all_set children)
unfolding collect
collect_lem ids true [] = simp append-nil
collect_lem ids false [] = simp append-nil
collect_lem ids all (child ∷ children) =
    let id = child.spec.provider_id in
    ground (
      arith,
      collect_lem ids false children,
      collect_lem (ids ++ id ∷ []) all children,
      append_assoc ids (id ∷ []) (provider_ids children),
    )
