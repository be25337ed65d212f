-- ===== src/Frame/Fields.antt =====
-- The fields of a span of bytes, and the bytes that they stand for.
use apogee_fc.Base.{
  ℕ, suc, ◌+◌, ◌/◌, ◌%◌, ◌≤◌, ◌<◌, ◌≡◌, refl, arith, List, ◌∷◌, length, take, drop, bit_or,
  AreBytes, read_u16_sum, read_u32_sum, get_or-lt, u16, ◌<<<◌,
}
use apogee_fc.Frame.{Frame, byte_at, read_u16_le}
use apogee_fc.Frame.Wire.{covered}

-- What is read as two bytes splits into those bytes.
pub read_u16_parts :
    (bytes : List ℕ) (i : ℕ)
    → AreBytes bytes
    → (read_u16_le bytes i % 256 ≡ byte_at bytes i)
      × (read_u16_le bytes i / 256 % 256 ≡ byte_at bytes (i + 1))
      × (read_u16_le bytes i < 65536)
read_u16_parts bytes i h =
    parts (byte_at bytes i) (byte_at bytes (i + 1)) (get_or-lt bytes i h)
      (get_or-lt bytes (i + 1) h)
  where
    parts :
        (a b : ℕ)
        → a < 256
        → b < 256
        → (u16 (bit_or a (u16 (b <<< 8))) % 256 ≡ a)
          × (u16 (bit_or a (u16 (b <<< 8))) / 256 % 256 ≡ b)
          × (u16 (bit_or a (u16 (b <<< 8))) < 65536)
    parts a b ha hb =
        let small : u16 (b <<< 8) ≡ b <<< 8 = omega arith in
        rw (small, read_u16_sum a b ha) (omega arith)

pub read_u32_parts :
    (a b c d : ℕ)
    → a < 256
    → b < 256
    → c < 256
    → d < 256
    → let v = bit_or (bit_or (bit_or a (b <<< 8)) (c <<< 16)) (d <<< 24) in
      (v % 256 ≡ a)
      × (v / 256 % 256 ≡ b)
      × (v / 65536 % 256 ≡ c)
      × (v / 16777216 % 256 ≡ d)
      × (v < 4294967296)
read_u32_parts a b c d ha hb hc hd = rw (read_u32_sum a b c d ha hb hc) (omega arith)

pub first_ten :
    (bytes : List ℕ)
    → 10 ≤ length bytes
    → bytes
      ≡ byte_at bytes 0
        ∷ byte_at bytes 1
        ∷ byte_at bytes 2
        ∷ byte_at bytes 3
        ∷ byte_at bytes 4
        ∷ byte_at bytes 5
        ∷ byte_at bytes 6
        ∷ byte_at bytes 7
        ∷ byte_at bytes 8
        ∷ byte_at bytes 9
        ∷ drop 10 bytes
first_ten (a ∷ b ∷ c ∷ d ∷ e ∷ f ∷ g ∷ h ∷ i ∷ j ∷ rest) p = refl
first_ten _ p = absurd (omega arith)

pub covered_eq :
    (g : Frame) (t b2 b4 b5 b6 b7 b8 b9 : ℕ) (body : List ℕ)
    → g.version ≡ b2
    → g.payload_length % 256 ≡ b4
    → g.payload_length / 256 % 256 ≡ b5
    → g.sequence % 256 ≡ b6
    → g.sequence / 256 % 256 ≡ b7
    → g.sequence / 65536 % 256 ≡ b8
    → g.sequence / 16777216 % 256 ≡ b9
    → take g.payload_length g.payload ≡ body
    → covered g t ≡ b2 ∷ t ∷ b4 ∷ b5 ∷ b6 ∷ b7 ∷ b8 ∷ b9 ∷ body
covered_eq g t b2 b4 b5 b6 b7 b8 b9 body e2 e4 e5 e6 e7 e8 e9 e = cc

pub take_eight :
    (n a b c d e f g h : ℕ) (rest : List ℕ)
    → take (8 + n) (a ∷ b ∷ c ∷ d ∷ e ∷ f ∷ g ∷ h ∷ rest)
      ≡ a ∷ b ∷ c ∷ d ∷ e ∷ f ∷ g ∷ h ∷ take n rest
take_eight n a b c d e f g h rest =
    let eight : 8 + n ≡ suc (suc (suc (suc (suc (suc (suc (suc n))))))) = omega arith in rw eight
