-- ===== src/Base/Xor.antt =====
-- `^` of words, and `&` with their top bit.
use Prim.Native.Nat.{
  ℕ, zero, suc, ◌+◌, ◌*◌, ◌/◌, ◌%◌, ◌^◌, ◌<◌, bit_and, bit_xor, bit_xor-bitwise, differ,
}
use mathlib.Core.Path.{◌≡◌, refl, ap, sym, ◌∙◌}
use native.Mathlib.Nat.{
  pow-suc, pow-succ', one-le-pow, div-add-mod, mul_assoc, div-div-eq-div-mul, mul-add-mod_self_left,
  mod-eq_of_lt, mod-lt,
}
use native.Mathlib.Omega.{arith}
use apogee_fc.Base.Digits.{bitwise_lowest}
use apogee_fc.Base.Bits.{bit_and_lowest, bit_and_low}

bit_xor_lowest : (a b : ℕ) → bit_xor a b ≡ bit_xor (a / 2) (b / 2) * 2 + differ (a % 2) (b % 2)
bit_xor_lowest zero b = simp bit_xor-bitwise (omega arith)
bit_xor_lowest (suc a) b = simp bit_xor-bitwise (bitwise_lowest (λ y. y) differ a b)

differ_bits : (x y : ℕ) → x < 2 → y < 2 → differ x y ≡ (x + y) % 2
differ_bits zero y h k = omega arith
differ_bits (suc zero) zero h k = refl
differ_bits (suc zero) (suc zero) h k = refl
differ_bits (suc zero) (suc (suc y)) h k = absurd (omega arith)
differ_bits (suc (suc x)) y h k = absurd (omega arith)

-- The lowest digit of `a ^ b`, and those above it.
bit_xor_digits : (a b : ℕ) → bit_xor a b ≡ bit_xor (a / 2) (b / 2) * 2 + (a % 2 + b % 2) % 2
bit_xor_digits a b =
    bit_xor_lowest a b
    ∙ ap (λ d. bit_xor (a / 2) (b / 2) * 2 + d)
        (differ_bits (a % 2) (b % 2) (omega arith) (omega arith))

-- The low digits of a number, by the lowest.
mod_double : (m n : ℕ) → 0 < m → n % (2 * m) ≡ (n / 2 % m) * 2 + n % 2
mod_double m n h =
    let q = n / 2 / m in
    let r = (n / 2 % m) * 2 + n % 2 in
    let parts : n ≡ 2 * m * q + r = omega (arith, div-add-mod (n / 2) m, mul_assoc 2 m q) in
    ap (λ t. t % (2 * m)) parts
    ∙ mul-add-mod_self_left (2 * m) q r
    ∙ mod-eq_of_lt (omega (arith, mod-lt (n / 2) h))

mod_pow_suc : (k n : ℕ) → n % 2 ^ suc k ≡ (n / 2 % 2 ^ k) * 2 + n % 2
mod_pow_suc k n =
    ap (λ m. n % m) (pow-succ' 2 k) ∙ mod_double (2 ^ k) n (one-le-pow k 2 (omega arith))

-- Numbers with the same low digits.
low_digits :
    (k x y : ℕ) → x % 2 ^ suc k ≡ y % 2 ^ suc k → (x / 2 % 2 ^ k ≡ y / 2 % 2 ^ k) × (x % 2 ≡ y % 2)
low_digits k x y e = (
  omega (arith, mod_pow_suc k x, mod_pow_suc k y),
  omega (arith, mod_pow_suc k x, mod_pow_suc k y),
)

bit_xor_half : (a b : ℕ) → bit_xor a b / 2 ≡ bit_xor (a / 2) (b / 2)
bit_xor_half a b = omega (arith, bit_xor_digits a b)

pub bit_xor_parity : (a b : ℕ) → bit_xor a b % 2 ≡ (a % 2 + b % 2) % 2
bit_xor_parity a b = omega (arith, bit_xor_digits a b)

-- The low digits of `a ^ c` and of either operand give those of the other.
pub bit_xor_cancel_right :
    (k a b c : ℕ) → bit_xor a c % 2 ^ k ≡ bit_xor b c % 2 ^ k → a % 2 ^ k ≡ b % 2 ^ k
bit_xor_cancel_right zero a b c e = omega arith
bit_xor_cancel_right (suc k) a b c e =
    let (half, parity) = low_digits k (bit_xor a c) (bit_xor b c) e in
    let high =
      bit_xor_cancel_right k (a / 2) (b / 2) (c / 2)
        (rw (← bit_xor_half a c, ← bit_xor_half b c) half) in
    let low : a % 2 ≡ b % 2 = omega (arith, bit_xor_parity a c, bit_xor_parity b c, parity) in
    omega (arith, mod_pow_suc k a, mod_pow_suc k b, high, low)

pub bit_xor_cancel_left :
    (k a b c : ℕ) → bit_xor c a % 2 ^ k ≡ bit_xor c b % 2 ^ k → a % 2 ^ k ≡ b % 2 ^ k
bit_xor_cancel_left zero a b c e = omega arith
bit_xor_cancel_left (suc k) a b c e =
    let (half, parity) = low_digits k (bit_xor c a) (bit_xor c b) e in
    let high =
      bit_xor_cancel_left k (a / 2) (b / 2) (c / 2)
        (rw (← bit_xor_half c a, ← bit_xor_half c b) half) in
    let low : a % 2 ≡ b % 2 = omega (arith, bit_xor_parity c a, bit_xor_parity c b, parity) in
    omega (arith, mod_pow_suc k a, mod_pow_suc k b, high, low)

-- `&` with a mask whose low digits are zero.
bit_and_double : (a m : ℕ) → bit_and a (m * 2) ≡ bit_and (a / 2) m * 2
bit_and_double a m = ground (arith, bit_and_lowest a (m * 2))

bit_and_shifted : (k a m : ℕ) → bit_and a (m * 2 ^ k) ≡ bit_and (a / 2 ^ k) m * 2 ^ k
bit_and_shifted zero a m = ground arith
bit_and_shifted (suc k) a m =
    let mask : m * 2 ^ suc k ≡ m * 2 ^ k * 2 =
      ap (λ p. m * p) (pow-suc 2 k) ∙ sym (mul_assoc m (2 ^ k) 2) in
    let quotient : a / 2 / 2 ^ k ≡ a / 2 ^ suc k =
      div-div-eq-div-mul a 2 (2 ^ k) ∙ ap (λ p. a / p) (sym (pow-succ' 2 k)) in
    ap (bit_and a) mask
    ∙ bit_and_double a (m * 2 ^ k)
    ∙ ap (λ b. b * 2) (bit_and_shifted k (a / 2) m)
    ∙ ap (λ q. bit_and q m * 2 ^ k * 2) quotient
    ∙ mul_assoc (bit_and (a / 2 ^ suc k) m) (2 ^ k) 2
    ∙ ap (λ p. bit_and (a / 2 ^ suc k) m * p) (sym (pow-suc 2 k))

-- `a & 0x8000` of a word.
pub bit_and_top : (a : ℕ) → bit_and a 0x8000 ≡ a / 32768 % 2 * 32768
bit_and_top a = bit_and_shifted 15 a 1 ∙ ap (λ b. b * 32768) (bit_and_low 1 (a / 32768))
