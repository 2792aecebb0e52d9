-- ===== src/Prelude/Decimal.antt =====
-- Numbers that Go prints with `%d` are read back by `strconv.Atoi`.
use Prim.Native.Nat.{ℕ, zero, suc, ◌+◌, ◌*◌, ◌/◌, ◌%◌, ◌<◌}
use Prim.Native.Char.{Char}
use Prim.Native.String.{String, ◌++◌}
use mathlib.Core.Path.{◌≡◌, ap, sym, ◌∙◌}
use mathlib.Core.Option.{none, some}
use native.Mathlib.Omega.{arith}
use native.Mathlib.Decide.{dec_lt}
use text.Mathlib.TextLemmas.{nil-append, cons-append}
use cluster_api_provider_kwo.Prelude.Text.{digit, decimal_from, decimal}
use cluster_api_provider_kwo.Prelude.Numbers.{digits_from, atoi_or_zero}

single-append : (c : Char) (rest : String) → String.◌∷◌ c "" ++ rest ≡ String.◌∷◌ c rest
single-append c rest = cons-append c "" rest ∙ ap (String.◌∷◌ c) (nil-append rest)

digits_from-digit :
    (d n : ℕ) (rest : String)
    → d < 10
    → digits_from n (digit d ++ rest) ≡ digits_from (n * 10 + d) rest
unfolding digits_from
digits_from-digit zero n rest h = ap (digits_from n) (single-append "0" rest)
digits_from-digit (suc zero) n rest h = ap (digits_from n) (single-append "1" rest)
digits_from-digit (suc (suc zero)) n rest h = ap (digits_from n) (single-append "2" rest)
digits_from-digit (suc (suc (suc zero))) n rest h = ap (digits_from n) (single-append "3" rest)
digits_from-digit (suc (suc (suc (suc zero)))) n rest h =
    ap (digits_from n) (single-append "4" rest)
digits_from-digit (suc (suc (suc (suc (suc zero))))) n rest h =
    ap (digits_from n) (single-append "5" rest)
digits_from-digit (suc (suc (suc (suc (suc (suc zero)))))) n rest h =
    ap (digits_from n) (single-append "6" rest)
digits_from-digit (suc (suc (suc (suc (suc (suc (suc zero))))))) n rest h =
    ap (digits_from n) (single-append "7" rest)
digits_from-digit (suc (suc (suc (suc (suc (suc (suc (suc zero)))))))) n rest h =
    ap (digits_from n) (single-append "8" rest)
digits_from-digit (suc (suc (suc (suc (suc (suc (suc (suc (suc zero))))))))) n rest h =
    ap (digits_from n) (single-append "9" rest)
digits_from-digit (suc (suc (suc (suc (suc (suc (suc (suc (suc (suc d)))))))))) n rest h =
    absurd (omega arith)

-- `suc n` rounds print `n` so that its digits are read back before the rest.
digits_from-decimal_from :
    (fuel n : ℕ) (rest : String)
    → n < fuel
    → digits_from 0 (decimal_from fuel n rest) ≡ digits_from n rest
unfolding decimal_from
digits_from-decimal_from zero n rest h = absurd (omega arith)
digits_from-decimal_from (suc fuel) n rest h = elim (dec_lt n 10) [
  | yes small ↦ ground (arith, digits_from-digit n 0 rest small)
  | no large ↦ ground (
    arith,
    digits_from-decimal_from fuel (n / 10) (digit (n % 10) ++ rest),
    digits_from-digit (n % 10) (n / 10) rest,
  )
]

-- What `strconv.Itoa` prints, `strconv.Atoi` reads.
pub atoi_or_zero-decimal : (n : ℕ) → atoi_or_zero (decimal n) ≡ n
unfolding atoi_or_zero decimal digits_from
atoi_or_zero-decimal n =
    ap (λ o. elim o as (λ _. ℕ) [ none ↦ 0 | some k ↦ k ])
      (digits_from-decimal_from (suc n) n "" (omega arith))

pub decimal-injective : (n m : ℕ) → decimal n ≡ decimal m → n ≡ m
decimal-injective n m e = sym (atoi_or_zero-decimal n) ∙ ap atoi_or_zero e ∙ atoi_or_zero-decimal m
