-- ===== src/Base/Bits.antt =====
-- `|` of disjoint fields and `&` with a mask, as arithmetic.
use Prim.Native.Nat.{
  ℕ, zero, suc, ◌+◌, ◌-◌, ◌*◌, ◌/◌, ◌%◌, ◌^◌, ◌<◌, min, max, bit_and, bit_or, bit_and-bitwise,
  bit_or-bitwise,
}
use mathlib.Core.Path.{◌≡◌, ap}
use native.Mathlib.Nat.{pow-suc, one-le-pow}
use native.Mathlib.Omega.{arith}
use apogee_fc.Base.Digits.{bitwise_lowest}
use apogee_fc.Base.Words.{◌<<<◌}

pub bit_and_lowest : (a b : ℕ) → bit_and a b ≡ bit_and (a / 2) (b / 2) * 2 + min (a % 2) (b % 2)
bit_and_lowest zero b = simp bit_and-bitwise (omega arith)
bit_and_lowest (suc a) b = simp bit_and-bitwise (bitwise_lowest (λ y. 0) min a b)

bit_or_lowest : (a b : ℕ) → bit_or a b ≡ bit_or (a / 2) (b / 2) * 2 + max (a % 2) (b % 2)
bit_or_lowest zero b = simp bit_or-bitwise (omega arith)
bit_or_lowest (suc a) b = simp bit_or-bitwise (bitwise_lowest (λ y. y) max a b)

double_shift : (q k : ℕ) → q * 2 ^ suc k ≡ 2 * (q * 2 ^ k)
double_shift q k = omega (arith, ap (λ (t : ℕ). q * t) (pow-suc 2 k))

-- `lo | (hi << k)` is a sum when `lo` fits in `k` bits.
pub bit_or_shifted : (k lo hi : ℕ) → lo < 2 ^ k → bit_or lo (hi * 2 ^ k) ≡ lo + hi * 2 ^ k
bit_or_shifted zero zero hi h = omega (arith, bit_or-bitwise 0 (hi * 1))
bit_or_shifted zero (suc lo) hi h = absurd (omega arith)
bit_or_shifted (suc k) lo hi h = ground (
  arith,
  bit_or_lowest lo (hi * 2 ^ suc k),
  double_shift hi k,
  pow-suc 2 k,
  bit_or_shifted k (lo / 2) hi,
)

bit_and-nothing : (bound a : ℕ) → a < bound → 0 ≡ bit_and a 0
bit_and-nothing zero a h = absurd (omega arith)
bit_and-nothing (suc bound) zero h = omega (arith, bit_and-bitwise 0 0)
bit_and-nothing (suc bound) (suc a) h =
    ground (arith, bit_and_lowest (suc a) 0, bit_and-nothing bound (suc a / 2))

bit_and_low_part : (k hi lo : ℕ) → lo < 2 ^ k → bit_and (lo + hi * 2 ^ k) (2 ^ k - 1) ≡ lo
bit_and_low_part zero hi lo h =
    omega (arith, bit_and-nothing (suc (lo + hi * 1)) (lo + hi * 1) (omega arith))
bit_and_low_part (suc k) hi lo h = ground (
  arith,
  bit_and_lowest (lo + hi * 2 ^ suc k) (2 ^ suc k - 1),
  double_shift hi k,
  pow-suc 2 k,
  bit_and_low_part k hi (lo / 2),
)

-- A mask of the `k` low bits keeps the remainder by `2 ^ k`.
pub bit_and_low : (k a : ℕ) → bit_and a (2 ^ k - 1) ≡ a % 2 ^ k
bit_and_low k a = ground (arith, one-le-pow k 2, bit_and_low_part k (a / 2 ^ k) (a % 2 ^ k))

-- `a & 0xFF`.
pub bit_and_byte : (a : ℕ) → bit_and a 0xff ≡ a % 256
bit_and_byte a = bit_and_low 8 a

-- `a & ~7` over `std::uint32_t`.
pub bit_and_above_three : (a : ℕ) → a < 2 ^ 32 → bit_and a 0xffff_fff8 ≡ a / 8 * 8
bit_and_above_three a h = omega (
  arith,
  bit_and_lowest a 0xffff_fff8,
  bit_and_lowest (a / 2) 0x7fff_fffc,
  bit_and_lowest (a / 2 / 2) 0x3fff_fffe,
  bit_and_low 29 (a / 2 / 2 / 2),
)

-- The little-endian reads: the fields of `|` do not overlap.
pub read_u16_sum : (a b : ℕ) → a < 256 → bit_or a (b <<< 8) ≡ a + b * 256
read_u16_sum a b ha = bit_or_shifted 8 a b ha

pub read_u32_sum :
    (a b c d : ℕ)
    → a < 256
    → b < 256
    → c < 256
    → bit_or (bit_or (bit_or a (b <<< 8)) (c <<< 16)) (d <<< 24)
      ≡ a + b * 256 + c * 65536 + d * 16777216
read_u32_sum a b c d ha hb hc =
    rw
      (
        bit_or_shifted 8 a b ha,
        bit_or_shifted 16 (a + b * 256) c (omega arith),
        bit_or_shifted 24 (a + b * 256 + c * 65536) d (omega arith),
      )
      (omega arith)
