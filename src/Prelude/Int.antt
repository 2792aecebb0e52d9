-- ===== src/Prelude/Int.antt =====
-- Signed integers over the native numbers, as far as the source compares and subtracts them.
use Prim.Native.Nat.{ℕ, suc, ◌+◌, ◌-◌, ◌%◌, ◌^◌}
use mathlib.Core.Path.{◌≡◌, refl}
use mathlib.Core.Bool.{Bool, false}
use cluster_api_provider_kwo.Prelude.Tests.{ltb, ◌==◌, if◌then◌else◌}

-- `negsuc n` is -(n + 1).
pub data ℤ : Type 0 where
  pos : ℕ → ℤ
  negsuc : ℕ → ℤ

abbrev pub pos_part : ℤ → ℕ
pos_part (pos n) = n
pos_part (negsuc n) = 0

abbrev pub neg_part : ℤ → ℕ
neg_part (pos n) = 0
neg_part (negsuc n) = suc n

-- `n < z` and `z < n` for a number `n` that is not negative.
abbrev pub ltb_int : ℕ → ℤ → Bool
ltb_int n z = ltb n (pos_part z)

abbrev pub int_ltb : ℤ → ℕ → Bool
int_ltb z n = ltb (pos_part z) (n + neg_part z)

abbrev pub eqb_int : ℕ → ℤ → Bool
eqb_int n (pos m) = n == m
eqb_int n (negsuc m) = false

-- An `int32` as the number that its bits stand for, where the bits are those of `w`.
abbrev pub signed32 : ℕ → ℤ
signed32 w =
    let bits = w % 2 ^ 32 in if ltb bits (2 ^ 31) then pos bits else negsuc (2 ^ 32 - bits - 1)

-- The difference of two `int32`, the first one not negative: it wraps around.
abbrev pub sub32 : ℕ → ℤ → ℤ
sub32 n z = signed32 (n + neg_part z + (2 ^ 32 - pos_part z))

sub32_test_small : sub32 7 (pos 3) ≡ pos 4
sub32_test_small = refl

sub32_test_negative : sub32 7 (negsuc 2) ≡ pos 10
sub32_test_negative = refl

sub32_test_wraps : sub32 7 (negsuc (2 ^ 31 - 1)) ≡ negsuc (2 ^ 31 - 8)
sub32_test_wraps = refl
