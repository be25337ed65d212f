-- ===== src/Frame/Crc.antt =====
-- `crc16_ccitt_false` of common/include/apogee/frame_codec.hpp.
use apogee_fc.Base.{
  ℕ, zero, suc, ◌<◌, ◌≡◌, refl, arith, not, List, [], ◌∷◌, bit_and, bit_xor, u16, ◌<<<◌, ◌==◌,
  if◌then◌else◌,
}

abbrev pub polynomial : ℕ
polynomial = 0x1021

-- One round of the inner loop. The shift is done in `int` or `unsigned`; the cast cuts it.
unfoldable pub crc_bit : ℕ → ℕ
crc_bit crc =
    if not (bit_and crc 0x8000 == 0) then u16 (bit_xor (crc <<< 1) polynomial) else u16 (crc <<< 1)

unfoldable pub crc_bits : ℕ → ℕ → ℕ
crc_bits zero crc = crc
crc_bits (suc left) crc = crc_bits left (crc_bit crc)

unfoldable pub crc_byte : ℕ → ℕ → ℕ
unfolding crc_bits crc_bit
crc_byte crc byte = crc_bits 8 (u16 (bit_xor crc (u16 (byte <<< 8))))

unfoldable pub crc_from : ℕ → List ℕ → ℕ
crc_from crc [] = crc
crc_from crc (byte ∷ bytes) = crc_from (crc_byte crc byte) bytes

unfoldable pub crc16_ccitt_false : List ℕ → ℕ
unfolding crc_from crc_byte
crc16_ccitt_false bytes = crc_from 0xffff bytes

pub crc_bit-lt : (crc : ℕ) → crc_bit crc < 65536
unfolding crc_bit
crc_bit-lt crc = ground arith

crc_bits-lt : (n crc : ℕ) → crc < 65536 → crc_bits n crc < 65536
unfolding crc_bits
crc_bits-lt zero crc h = h
crc_bits-lt (suc n) crc h = crc_bits-lt n (crc_bit crc) (crc_bit-lt crc)

pub crc_byte-lt : (crc byte : ℕ) → crc_byte crc byte < 65536
unfolding crc_byte
crc_byte-lt crc byte = crc_bits-lt 8 (u16 (bit_xor crc (u16 (byte <<< 8)))) (omega arith)

crc_from-lt : (crc : ℕ) (bytes : List ℕ) → crc < 65536 → crc_from crc bytes < 65536
unfolding crc_from
crc_from-lt crc [] h = h
crc_from-lt crc (byte ∷ bytes) h = crc_from-lt (crc_byte crc byte) bytes (crc_byte-lt crc byte)

pub crc16-lt : (bytes : List ℕ) → crc16_ccitt_false bytes < 65536
unfolding crc16_ccitt_false
crc16-lt bytes = crc_from-lt 0xffff bytes (omega arith)

-- The check value of CRC-16/CCITT-FALSE, over "123456789".
check_value :
    crc16_ccitt_false (0x31 ∷ 0x32 ∷ 0x33 ∷ 0x34 ∷ 0x35 ∷ 0x36 ∷ 0x37 ∷ 0x38 ∷ 0x39 ∷ []) ≡ 0x29b1
unfolding crc16_ccitt_false
check_value = refl
