-- ===== src/Frame/Checksum.antt =====
-- The rounds of `crc16_ccitt_false`, undone.
use apogee_fc.Base.{
  ℕ, zero, suc, ◌*◌, ◌%◌, ◌^◌, ◌≤◌, ◌<◌, ◌≡◌, ◌≢◌, ◌⊎◌, sym, ◌∙◌, arith, List, [], ◌∷◌, inl, inr,
  Bool-cases, ltb, ltb→lt, ltb→le, bit_xor, u16, ◌<<<◌, length, get_or, set, AreBytes,
  bit_xor_cancel_right, bit_xor_cancel_left, bit_xor_parity, bit_and_top,
}
use apogee_fc.Frame.Crc.{polynomial, crc_bit, crc_bits, crc_byte, crc_from, crc_bit-lt, crc_byte-lt}

-- The two branches of a round.
crc_bit-low : (c : ℕ) → c < 32768 → crc_bit c ≡ c * 2
unfolding crc_bit
crc_bit-low c h = ground (arith, bit_and_top c)

crc_bit-high : (c : ℕ) → 32768 ≤ c → c < 65536 → crc_bit c ≡ bit_xor (c * 2) polynomial % 2 ^ 16
unfolding crc_bit
crc_bit-high c h k = ground (arith, bit_and_top c)

-- The polynomial is odd, so that the two branches have different results.
crc_bit-parity : (c : ℕ) → bit_xor (c * 2) polynomial % 2 ^ 16 % 2 ≡ 1
crc_bit-parity c = omega (arith, bit_xor_parity (c * 2) polynomial)

-- A word below the top bit, or with it.
halves : (c : ℕ) → (c < 32768) ⊎ (32768 ≤ c)
halves c = elim (Bool-cases (ltb c 32768)) [
  | inl e ↦ inl (ltb→lt c 32768 e)
  | inr e ↦ inr (ltb→le c 32768 e)
]

low_ne_high : (c d : ℕ) → c < 32768 → 32768 ≤ d → d < 65536 → crc_bit c ≢ crc_bit d
low_ne_high c d h k l e =
    absurd (omega (arith, crc_bit-low c h, crc_bit-high d k l, crc_bit-parity d, e))

high_injective :
    (c d : ℕ) → 32768 ≤ c → c < 65536 → 32768 ≤ d → d < 65536 → crc_bit c ≡ crc_bit d → c ≡ d
high_injective c d h k h' k' e = omega (
  arith,
  bit_xor_cancel_right 16 (c * 2) (d * 2) polynomial
      (sym (crc_bit-high c h k) ∙ e ∙ crc_bit-high d h' k'),
)

-- A round can be undone.
crc_bit_injective : (c d : ℕ) → c < 65536 → d < 65536 → crc_bit c ≡ crc_bit d → c ≡ d
crc_bit_injective c d hc hd e = elim (halves c) [
  | inl h ↦ elim (halves d) [
    | inl k ↦ omega (arith, crc_bit-low c h, crc_bit-low d k, e)
    | inr k ↦ absurd (low_ne_high c d h k hd e)
  ]
  | inr h ↦ elim (halves d) [
    | inl k ↦ absurd (low_ne_high d c k h hc (sym e))
    | inr k ↦ high_injective c d h hc k hd e
  ]
]

crc_bits_injective : (n c d : ℕ) → c < 65536 → d < 65536 → crc_bits n c ≡ crc_bits n d → c ≡ d
unfolding crc_bits
crc_bits_injective zero c d hc hd e = e
crc_bits_injective (suc n) c d hc hd e =
    crc_bit_injective c d hc hd
      (crc_bits_injective n (crc_bit c) (crc_bit d) (crc_bit-lt c) (crc_bit-lt d) e)

-- The checksum after a byte tells the one before it, and the byte.
crc_byte_injective :
    (c d byte : ℕ) → c < 65536 → d < 65536 → crc_byte c byte ≡ crc_byte d byte → c ≡ d
unfolding crc_byte
crc_byte_injective c d byte hc hd e =
    let shifted = u16 (byte <<< 8) in
    let mixed =
      crc_bits_injective 8 (u16 (bit_xor c shifted)) (u16 (bit_xor d shifted)) (omega arith)
        (omega arith) e in
    omega (arith, bit_xor_cancel_right 16 c d shifted mixed)

crc_byte_tells : (c a b : ℕ) → a < 256 → b < 256 → crc_byte c a ≡ crc_byte c b → a ≡ b
unfolding crc_byte
crc_byte_tells c a b ha hb e =
    let mixed =
      crc_bits_injective 8 (u16 (bit_xor c (u16 (a <<< 8)))) (u16 (bit_xor c (u16 (b <<< 8))))
        (omega arith) (omega arith) e in
    omega (arith, bit_xor_cancel_left 16 (u16 (a <<< 8)) (u16 (b <<< 8)) c mixed)

crc_from_injective :
    (c d : ℕ) (bytes : List ℕ) → c < 65536 → d < 65536 → crc_from c bytes ≡ crc_from d bytes → c ≡ d
unfolding crc_from
crc_from_injective c d [] hc hd e = e
crc_from_injective c d (byte ∷ bytes) hc hd e = crc_byte_injective c d byte hc hd (
    crc_from_injective (crc_byte c byte) (crc_byte d byte) bytes (crc_byte-lt c byte)
      (crc_byte-lt d byte) e)

-- One byte that is overwritten without a change of the checksum was the same.
pub crc_from-set :
    (c : ℕ) (bytes : List ℕ) (i v : ℕ)
    → AreBytes bytes
    → v < 256
    → i < length bytes
    → crc_from c (set bytes i v) ≡ crc_from c bytes
    → v ≡ get_or bytes i 0
unfolding crc_from
crc_from-set c [] i v h k l e = absurd (omega arith)
crc_from-set c (byte ∷ bytes) zero v h k l e = crc_byte_tells c v byte k h.0 (
    crc_from_injective (crc_byte c v) (crc_byte c byte) bytes (crc_byte-lt c v) (crc_byte-lt c byte)
      e)
crc_from-set c (byte ∷ bytes) (suc i) v h k l e =
    crc_from-set (crc_byte c byte) bytes i v h.1 k (omega arith) e
