-- ===== src/TelemetryCodec/Payload.antt =====
-- The fields of a telemetry payload, written and read back.
use apogee_fc.Base.{
  ℕ, ◌+◌, ◌*◌, ◌%◌, ◌^◌, ◌<◌, ◌≡◌, arith, bit_or, bit_and, bit_or_shifted, bit_and_above_three,
  ◌>>>◌, replicate,
}
use apogee_fc.Base.Int.{ℤ, pos, negsuc, int16_to_u16, IsInt16}
use apogee_fc.Base.{[], ◌∷◌, ◌↔◌}
use apogee_fc.Frame.Wire.{low_byte}
use apogee_fc.Frame.Accept.{read_u16_split}
use apogee_fc.TelemetryCodec.{
  read_u16_le, write_u16_le, read_u32_le, write_u32_le, read_u64_le, write_u64_le,
  decode_temperature, unknown_fault_mask,
}

-- Reading back the two bytes of a signed temperature gives the temperature.
pub decode_temperature-int16_to_u16 : (t : ℤ) → IsInt16 t → decode_temperature (int16_to_u16 t) ≡ t
decode_temperature-int16_to_u16 (pos n) h = ground arith
decode_temperature-int16_to_u16 (negsuc n) h = ground arith

-- No bit above the three known ones is set exactly if the mask is below 8.
pub unknown_bits_iff :
    (mask : ℕ) → mask < 2 ^ 32 → (bit_and mask unknown_fault_mask ≡ 0) ↔ (mask < 8)
unknown_bits_iff mask h = ground (arith, bit_and_above_three mask h)

pub read_u16-write_u16 : (v : ℕ) → v < 2 ^ 16 → read_u16_le (write_u16_le (0 ∷ 0 ∷ []) 0 v) 0 ≡ v
read_u16-write_u16 v h = simp low_byte (read_u16_split v h)

u64_fields :
    (a b c d e f g h : ℕ)
    → a < 256
    → b < 256
    → c < 256
    → d < 256
    → e < 256
    → f < 256
    → g < 256
    → let low =
        bit_or (bit_or (bit_or (bit_or 0 (a * 2 ^ 0)) (b * 2 ^ 8)) (c * 2 ^ 16)) (d * 2 ^ 24) in
      bit_or (bit_or (bit_or (bit_or low (e * 2 ^ 32)) (f * 2 ^ 40)) (g * 2 ^ 48)) (h * 2 ^ 56)
      ≡ a + b * 2 ^ 8 + c * 2 ^ 16 + d * 2 ^ 24 + e * 2 ^ 32 + f * 2 ^ 40 + g * 2 ^ 48 + h * 2 ^ 56
u64_fields a b c d e f g h ha hb hc hd he hf hg =
    rw
      (
        bit_or_shifted 0 0 a (omega arith),
        bit_or_shifted 8 (0 + a * 2 ^ 0) b (omega arith),
        bit_or_shifted 16 (0 + a * 2 ^ 0 + b * 2 ^ 8) c (omega arith),
        bit_or_shifted 24 (0 + a * 2 ^ 0 + b * 2 ^ 8 + c * 2 ^ 16) d (omega arith),
        bit_or_shifted 32 (0 + a * 2 ^ 0 + b * 2 ^ 8 + c * 2 ^ 16 + d * 2 ^ 24) e (omega arith),
        bit_or_shifted 40 (0 + a * 2 ^ 0 + b * 2 ^ 8 + c * 2 ^ 16 + d * 2 ^ 24 + e * 2 ^ 32) f
            (omega arith),
        bit_or_shifted 48
            (0 + a * 2 ^ 0 + b * 2 ^ 8 + c * 2 ^ 16 + d * 2 ^ 24 + e * 2 ^ 32 + f * 2 ^ 40) g
            (omega arith),
        bit_or_shifted 56
            (0
              + a * 2 ^ 0
              + b * 2 ^ 8
              + c * 2 ^ 16
              + d * 2 ^ 24
              + e * 2 ^ 32
              + f * 2 ^ 40
              + g * 2 ^ 48)
            h (omega arith),
      )
      (omega arith)

u32_fields :
    (a b c d : ℕ)
    → a < 256
    → b < 256
    → c < 256
    → bit_or (bit_or (bit_or (bit_or 0 (a * 2 ^ 0)) (b * 2 ^ 8)) (c * 2 ^ 16)) (d * 2 ^ 24)
      ≡ a + b * 2 ^ 8 + c * 2 ^ 16 + d * 2 ^ 24
u32_fields a b c d ha hb hc =
    rw
      (
        bit_or_shifted 0 0 a (omega arith),
        bit_or_shifted 8 (0 + a * 2 ^ 0) b (omega arith),
        bit_or_shifted 16 (0 + a * 2 ^ 0 + b * 2 ^ 8) c (omega arith),
        bit_or_shifted 24 (0 + a * 2 ^ 0 + b * 2 ^ 8 + c * 2 ^ 16) d (omega arith),
      )
      (omega arith)

pub read_u32-write_u32 : (v : ℕ) → v < 2 ^ 32 → read_u32_le (write_u32_le (replicate 4 0) 0 v) 0 ≡ v
read_u32-write_u32 v h = simp low_byte (
    omega (
      arith,
      u32_fields ((v >>> 0) % 256) ((v >>> 8) % 256) ((v >>> 16) % 256) ((v >>> 24) % 256)
          (omega arith) (omega arith) (omega arith),
    ))

pub read_u64-write_u64 : (v : ℕ) → v < 2 ^ 64 → read_u64_le (write_u64_le (replicate 8 0) 0 v) 0 ≡ v
read_u64-write_u64 v h = simp low_byte (
    omega (
      arith,
      u64_fields ((v >>> 0) % 256) ((v >>> 8) % 256) ((v >>> 16) % 256) ((v >>> 24) % 256)
          ((v >>> 32) % 256) ((v >>> 40) % 256) ((v >>> 48) % 256) ((v >>> 56) % 256) (omega arith)
          (omega arith) (omega arith) (omega arith) (omega arith) (omega arith) (omega arith),
    ))

pub int16_to_u16-lt : (t : ℤ) → int16_to_u16 t < 2 ^ 16
int16_to_u16-lt (pos n) = omega arith
int16_to_u16-lt (negsuc n) = omega arith
