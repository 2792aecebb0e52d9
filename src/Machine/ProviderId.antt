-- ===== src/Machine/ProviderId.antt =====
-- Provider IDs of machines, `kwok:////<node name>`.
use Prim.Native.String.{◌++◌, len}
use text.Mathlib.TextPositions.{len-append, slice-append_right}
use cluster_api_provider_kwo.Prelude.{
  String, ◌≡◌, sym, ap, ◌∙◌, Option, some, none, false, inl, inr, arith, ◌<◌, str_eq, eq_iff,
  Bool-cases,
}
use cluster_api_provider_kwo.Prelude.Text.{slice_from}

abbrev pub prefix : String
prefix = "kwok:////"

-- `fmt.Sprintf("kwok:////%s", nodeName)`
unfoldable pub provider_id_of : String → String
provider_id_of node_name = prefix ++ node_name

-- `ProviderID[len("kwok:////"):]`, in two places: `none` is the run-time panic of a slice that
-- begins behind the end.
unfoldable pub node_name_of : String → Option String
node_name_of provider_id = slice_from provider_id (len prefix)

-- The slice of a provider ID that the code has built is the name of the node.
pub node_name_of-provider_id_of : (n : String) → node_name_of (provider_id_of n) ≡ some n
unfolding node_name_of provider_id_of slice_from
node_name_of-provider_id_of n = ground (arith, len-append prefix n, slice-append_right prefix n)

none_is_some : (n : String) → node_name_of "" ≡ some n → ⊥
unfolding node_name_of slice_from
none_is_some n h = cc

-- A provider ID that the code builds is never empty.
pub str_eq-provider_id_of : (n : String) → str_eq (provider_id_of n) "" ≡ false
str_eq-provider_id_of n = elim (Bool-cases (str_eq (provider_id_of n) "")) [
  | inl same ↦ absurd (not_empty ((eq_iff (provider_id_of n) "").0 same))
  | inr differ ↦ differ
]
  where
    not_empty : provider_id_of n ≡ "" → ⊥
    not_empty e = none_is_some n (sym (ap node_name_of e) ∙ node_name_of-provider_id_of n)

-- Text that is shorter than the prefix panics.
pub node_name_of_short : (s : String) → len s < 9 → node_name_of s ≡ none
unfolding node_name_of slice_from
node_name_of_short s h = ground arith
