-- ===== src/Prelude/Numbers.antt =====
-- Texts that the source takes apart: a decimal number and space around a text.
use Prim.Native.Nat.{ℕ, ◌+◌, ◌-◌, ◌*◌}
use Prim.Native.Char.{code}
use Prim.Native.String.{String}
use mathlib.Core.Path.{◌≡◌, refl}
use mathlib.Core.Bool.{Bool, ◌&&◌, ◌||◌}
use mathlib.Core.Option.{Option, none, some}
use text.Mathlib.Text.{◌==◌ as str_eq}
use cluster_api_provider_kwo.Prelude.Tests.{if◌then◌else◌, leb, ◌==◌}

unfoldable pub digits_from : ℕ → String → Option ℕ
digits_from n String.[] = some n
digits_from n (String.◌∷◌ c s) =
    let rest = digits_from (n * 10 + (code c - 48)) s in
    if leb 48 (code c) && leb (code c) 57 then rest else none

-- `port, _ := strconv.Atoi(text)`: 0 where the text is no number. A text with a sign is not read,
-- since `net/url` lets none through.
unfoldable pub atoi_or_zero : String → ℕ
unfolding digits_from
atoi_or_zero text = elim (digits_from 0 text) [ none ↦ 0 | some n ↦ n ]

-- `unicode.IsSpace` on the characters below 128: tab to carriage return, and space.
is_space : ℕ → Bool
is_space c = (leb 9 c && leb c 13) || (c == 32)

trim_left : String → String
trim_left String.[] = ""
trim_left (String.◌∷◌ c s) =
    let rest = trim_left s in if is_space (code c) then rest else String.◌∷◌ c s

trim_right : String → String
trim_right String.[] = ""
trim_right (String.◌∷◌ c s) =
    let rest = trim_right s in if is_space (code c) && str_eq rest "" then "" else String.◌∷◌ c rest

-- `strings.TrimSpace`
unfoldable pub trim_space : String → String
unfolding trim_left trim_right is_space
trim_space text = trim_right (trim_left text)

trim_space_test : trim_space "  10.0.0.2 \n" ≡ "10.0.0.2"
unfolding trim_space
trim_space_test = refl

atoi_or_zero_test : atoi_or_zero "32766" ≡ 32766
unfolding atoi_or_zero
atoi_or_zero_test = refl
