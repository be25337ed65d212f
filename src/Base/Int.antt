-- ===== src/Base/Int.antt =====
-- Signed integers, for `std::int16_t` values and the comparisons on them.
use Prim.Native.Nat.{ℕ, suc, ◌+◌, ◌-◌, ◌%◌, ◌≤◌, ◌<◌, ◌^◌}
use mathlib.Core.Bool.{Bool}
use apogee_fc.Base.Tests.{ltb}

-- `negsuc n` is -(n + 1).
pub data ℤ : Type 0 where
  pos : ℕ → ℤ
  negsuc : ℕ → ℤ

abbrev pub pos_part : ℤ → ℕ
pos_part (pos n) = n
pos_part (negsuc n) = 0

abbrev pub neg_part : ℤ → ℕ
neg_part (pos n) = 0
neg_part (negsuc n) = suc n

infix 50 ◌<ℤ◌ ◌≤ℤ◌
abbrev pub ◌<ℤ◌ : ℤ → ℤ → Type 0
a <ℤ b = pos_part a + neg_part b < pos_part b + neg_part a

abbrev pub ◌≤ℤ◌ : ℤ → ℤ → Type 0
a ≤ℤ b = pos_part a + neg_part b ≤ pos_part b + neg_part a

-- The test `a < b`.
abbrev pub ltb_ℤ : ℤ → ℤ → Bool
ltb_ℤ a b = ltb (pos_part a + neg_part b) (pos_part b + neg_part a)

-- The range of `std::int16_t`.
abbrev pub IsInt16 : ℤ → Type 0
IsInt16 t = (negsuc 32767 ≤ℤ t) × (t ≤ℤ pos 32767)

-- `static_cast<std::uint16_t>` of an `std::int16_t`: the value modulo 2 ^ 16.
abbrev pub int16_to_u16 : ℤ → ℕ
int16_to_u16 (pos n) = n % 2 ^ 16
int16_to_u16 (negsuc n) = 65535 - n % 2 ^ 16
