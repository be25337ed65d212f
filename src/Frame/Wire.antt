-- ===== src/Frame/Wire.antt =====
-- The byte sequence of a frame, against the writes of `encode`.
use apogee_fc.Base.{
  ℕ, zero, suc, ◌+◌, ◌-◌, ◌/◌, ◌%◌, ◌≤◌, ◌≡◌, refl, sym, ap, ap₂, length-replicate, ◌∙◌, arith,
  List, [], ◌∷◌, ◌++◌, append_assoc, append-nil, length, take, drop, replicate, bit_and,
  bit_and_byte, length-append, length-drop, length-take, set-append, take-append, drop-cons, u8,
}
use native.Mathlib.Nat.{suc-add, zero-add}
use apogee_fc.Frame.{Frame, byte_at, span, write_u16_le, empty_frame}
use apogee_fc.Frame.Crc.{crc16_ccitt_false}
use apogee_fc.Frame.Encode.{copy_payload, write_header, write_frame}

-- Two and four bytes, the lowest first.
abbrev pub u16_bytes : ℕ → List ℕ
u16_bytes n = n % 256 ∷ n / 256 % 256 ∷ []

abbrev pub u32_bytes : ℕ → List ℕ
u32_bytes n = n % 256 ∷ n / 256 % 256 ∷ n / 65536 % 256 ∷ n / 16777216 % 256 ∷ []

-- What the checksum covers: version, type, length, sequence and payload.
abbrev pub covered : Frame → ℕ → List ℕ
covered f encoded_type =
    (f.version ∷ encoded_type ∷ u16_bytes f.payload_length ++ u32_bytes f.sequence)
    ++ take f.payload_length f.payload

-- Sync bytes, covered bytes, checksum.
abbrev pub wire : Frame → ℕ → List ℕ
wire f encoded_type =
    0xa5 ∷ 0x5a ∷ (covered f encoded_type ++ u16_bytes (crc16_ccitt_false (covered f encoded_type)))

-- A cast of a masked value is its low byte.
pub low_byte : (v : ℕ) → u8 (bit_and v 0xff) ≡ v % 256
low_byte v = omega (arith, bit_and_byte v)

header_bytes :
    (f : Frame) (t : ℕ)
    → write_header f t (empty_frame.bytes)
      ≡ (0xa5 ∷ 0x5a ∷ f.version ∷ t ∷ u16_bytes f.payload_length ++ u32_bytes f.sequence)
        ++ replicate 66 0
header_bytes f t = simp low_byte

-- The copy loop, started behind a prefix of `10 + i` bytes, writes `payload[i .. i + left)` there.
copy_payload_lem :
    (left i : ℕ) (payload pre old : List ℕ)
    → length pre ≡ 10 + i
    → i + left ≤ length payload
    → left ≤ length old
    → copy_payload left i payload (pre ++ old)
      ≡ (pre ++ take left (drop i payload)) ++ drop left old
unfolding copy_payload
copy_payload_lem zero i payload pre old p q r = rw append-nil
copy_payload_lem (suc left) i payload pre [] p q r = absurd (omega arith)
copy_payload_lem (suc left) i payload pre (y ∷ ys) p q r = rw (
  set-append (10 + i) pre ys y (byte_at payload i) p,
  drop-cons i payload 0 (omega arith),
  ← append_assoc pre (byte_at payload i ∷ []) ys,
  copy_payload_lem left (suc i) payload (pre ++ (byte_at payload i ∷ [])) ys
      (omega (arith, length-append pre (byte_at payload i ∷ []))) (omega arith) (omega arith),
  append_assoc pre (byte_at payload i ∷ []) (take left (drop (suc i) payload)),
)

-- Two bytes written just behind a prefix.
write_u16_behind :
    (n : ℕ) (pre old : List ℕ) (v : ℕ)
    → length pre ≡ n
    → 2 ≤ length old
    → write_u16_le (pre ++ old) n v ≡ pre ++ (u16_bytes v ++ drop 2 old)
write_u16_behind n pre [] v p q = absurd (omega arith)
write_u16_behind n pre (x ∷ []) v p q = absurd (omega arith)
write_u16_behind zero [] (x ∷ y ∷ old) v p q = simp low_byte
write_u16_behind zero (a ∷ pre) (x ∷ y ∷ old) v p q = absurd (omega arith)
write_u16_behind (suc n) [] (x ∷ y ∷ old) v p q = absurd (omega arith)
write_u16_behind (suc n) (a ∷ pre) (x ∷ y ∷ old) v p q =
    rw (suc-add n 1)
      (ap (λ r. a ∷ r) (write_u16_behind n pre (x ∷ y ∷ old) v (omega arith) (omega arith)))

-- Header and payload in the array, before the checksum is written.
copied_bytes :
    (f : Frame) (t : ℕ)
    → length f.payload ≡ 64
    → f.payload_length ≤ 64
    → copy_payload f.payload_length 0 f.payload (write_header f t (empty_frame.bytes))
      ≡ (0xa5 ∷ 0x5a ∷ covered f t) ++ drop f.payload_length (replicate 66 0)
copied_bytes f t p h = rw (header_bytes f t) (
    copy_payload_lem f.payload_length 0 f.payload
      (0xa5 ∷ 0x5a ∷ f.version ∷ t ∷ u16_bytes f.payload_length ++ u32_bytes f.sequence)
      (replicate 66 0) refl (omega arith) (omega arith))

pub length-covered :
    (f : Frame) (t : ℕ)
    → length f.payload ≡ 64
    → f.payload_length ≤ 64
    → length (covered f t) ≡ 8 + f.payload_length
length-covered f t p h = omega (arith, length-take f.payload_length f.payload)

-- The checksum over the bytes from 2 on, written behind them.
checksum_behind :
    (n a b : ℕ) (cov rest bytes : List ℕ)
    → bytes ≡ (a ∷ b ∷ cov) ++ rest
    → length cov ≡ 8 + n
    → 2 ≤ length rest
    → write_u16_le bytes (10 + n) (crc16_ccitt_false (take (8 + n) (drop 2 bytes)))
      ≡ (a ∷ b ∷ cov) ++ (u16_bytes (crc16_ccitt_false cov) ++ drop 2 rest)
checksum_behind n a b cov rest bytes e p q =
    rw (e, take-append (8 + n) cov rest p)
      (write_u16_behind (10 + n) (a ∷ b ∷ cov) rest (crc16_ccitt_false cov) (omega arith) q)

drop-replicate : (m n : ℕ) → drop m (replicate (m + n) 0) ≡ replicate {A = ℕ} n 0
drop-replicate zero n = rw zero-add
drop-replicate (suc m) n = rw (suc-add m n) (drop-replicate m n)

-- The zeros behind the payload, and behind the checksum.
zeros_behind : (n : ℕ) → n ≤ 64 → drop n (replicate 66 0) ≡ 0 ∷ 0 ∷ replicate {A = ℕ} (64 - n) 0
zeros_behind n h =
    let all : n + suc (suc (64 - n)) ≡ 66 = omega arith in
    ap (λ k. drop n (replicate {A = ℕ} k 0)) (sym all) ∙ drop-replicate n (suc (suc (64 - n)))

pub write_frame-bytes :
    (f : Frame) (t : ℕ)
    → length f.payload ≡ 64
    → f.payload_length ≤ 64
    → ((write_frame f t).bytes ≡ wire f t ++ replicate (64 - f.payload_length) 0)
      × (length (write_frame f t).bytes ≡ 76)
      × ((write_frame f t).size ≡ length (wire f t))
unfolding write_frame
write_frame-bytes f t p h =
    let n = f.payload_length in
    let rest = drop n (replicate {A = ℕ} 66 0) in
    let crc = u16_bytes (crc16_ccitt_false (covered f t)) in
    let filled =
      checksum_behind n 0xa5 0x5a (covered f t) rest
        (copy_payload n 0 f.payload (write_header f t (empty_frame.bytes))) (copied_bytes f t p h)
        (length-covered f t p h) (omega (arith, length-drop n (replicate {A = ℕ} 66 0)))
      ∙ ap (λ z. (0xa5 ∷ 0x5a ∷ covered f t) ++ (crc ++ drop 2 z)) (zeros_behind n h)
      ∙ ap (λ z. 0xa5 ∷ 0x5a ∷ z) (sym (append_assoc (covered f t) crc (replicate (64 - n) 0))) in
    (
      filled,
      ap length filled
          ∙ omega (
            arith,
            length-append (wire f t) (replicate (64 - n) 0),
            length-append (covered f t) crc,
            length-covered f t p h,
            length-replicate {A = ℕ} (64 - n) 0,
          ),
      omega (arith, length-append (covered f t) crc, length-covered f t p h),
    )

-- The bytes of the frame that `encode` writes are the frame's byte sequence.
pub write_frame-wire :
    (f : Frame) (t : ℕ)
    → length f.payload ≡ 64
    → f.payload_length ≤ 64
    → span (write_frame f t) ≡ wire f t
write_frame-wire f t p h =
    let (filled, _, size) = write_frame-bytes f t p h in
    ap₂ take size filled
    ∙ take-append (length (wire f t)) (wire f t) (replicate (64 - f.payload_length) 0) refl
