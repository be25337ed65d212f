-- ===== src/Frame/Accept.antt =====
-- When `decode` accepts a span, and what it makes of it.
use apogee_fc.Base.{
  ℕ, zero, suc, ◌+◌, ◌*◌, ◌/◌, ◌%◌, ◌≤◌, ◌<◌, ◌≡◌, refl, arith, true, some, inl, inr, Option-cases,
  List, [], ◌∷◌, ◌++◌, append_assoc, append-nil, length, take, drop, replicate, bit_or,
  read_u16_sum, read_u32_sum, u16, ◌<<<◌, length-append, set-append, drop-cons,
}
use native.Mathlib.Nat.{suc-add, add-suc}
use apogee_fc.Frame.{
  MessageType, DecodeStatus, DecodeResult, decode_message_type, decode_ok, byte_at, read_u16_le,
}
use apogee_fc.Frame.Crc.{crc16_ccitt_false}
use apogee_fc.Frame.Decode.{decode, read_frame, read_payload}
use apogee_fc.Frame.Wire.{u16_bytes}

-- The guards of `decode`, all passed.
pub record IsAccepted (bytes : List ℕ) (message_type : MessageType) : Type 0 where
  pub long : 12 ≤ length bytes
  pub sync_first : byte_at bytes 0 ≡ 0xa5
  pub sync_second : byte_at bytes 1 ≡ 0x5a
  pub version : byte_at bytes 2 ≡ 1
  pub kind : decode_message_type (byte_at bytes 3) ≡ some message_type
  pub fits : read_u16_le bytes 4 ≤ 64
  pub exact : length bytes ≡ 12 + read_u16_le bytes 4
  pub checksum :
      crc16_ccitt_false (take (8 + read_u16_le bytes 4) (drop 2 bytes))
      ≡ read_u16_le bytes (10 + read_u16_le bytes 4)

abbrev pub accepted : List ℕ → MessageType → DecodeResult
accepted bytes message_type = record {
  status = DecodeStatus.ok;
  frame = read_frame bytes message_type;
}

pub decode_of_IsAccepted :
    (bytes : List ℕ) (m : MessageType) → IsAccepted bytes m → decode bytes ≡ accepted bytes m
unfolding decode
decode_of_IsAccepted bytes m h = ground arith

pub IsAccepted_of_ok :
    (bytes : List ℕ)
    → decode_ok (decode bytes).status ≡ true
    → (m : MessageType) × IsAccepted bytes m × (decode bytes ≡ accepted bytes m)
unfolding decode
IsAccepted_of_ok bytes h = elim (Option-cases (decode_message_type (byte_at bytes 3))) [
  | inl e ↦ absurd (ground arith)
  | inr (m, e) ↦ (m, ground arith, ground arith)
]

pub read_u16_split : (v : ℕ) → v < 65536 → u16 (bit_or (v % 256) (u16 (v / 256 % 256 * 256))) ≡ v
read_u16_split v h =
    let small : u16 (v / 256 % 256 * 256) ≡ (v / 256 % 256) <<< 8 = omega arith in
    rw small (omega (arith, read_u16_sum (v % 256) (v / 256 % 256) (omega arith)))

pub read_u32_split :
    (v : ℕ)
    → v < 4294967296
    → bit_or
        (bit_or (bit_or (v % 256) (v / 256 % 256 * 256)) (v / 65536 % 256 * 65536))
        (v / 16777216 % 256 * 16777216)
      ≡ v
read_u32_split v h = omega (
  arith,
  read_u32_sum (v % 256) (v / 256 % 256) (v / 65536 % 256) (v / 16777216 % 256) (omega arith)
      (omega arith) (omega arith),
)

-- Two bytes read just behind a prefix.
pub read_u16_behind :
    (n : ℕ) (pre rest : List ℕ) (v : ℕ)
    → length pre ≡ n
    → v < 65536
    → read_u16_le (pre ++ (u16_bytes v ++ rest)) n ≡ v
read_u16_behind zero [] rest v p h = read_u16_split v h
read_u16_behind zero (a ∷ pre) rest v p h = absurd (omega arith)
read_u16_behind (suc n) [] rest v p h = absurd (omega arith)
read_u16_behind (suc n) (a ∷ pre) rest v p h =
    rw (suc-add n 1) (read_u16_behind n pre rest v (omega arith) h)

-- The copy loop, started behind a prefix of `i` bytes, writes `bytes[10 + i .. 10 + i + left)` there.
pub read_payload_lem :
    (left i : ℕ) (bytes pre old : List ℕ)
    → length pre ≡ i
    → 10 + i + left ≤ length bytes
    → left ≤ length old
    → read_payload left i bytes (pre ++ old)
      ≡ (pre ++ take left (drop (10 + i) bytes)) ++ drop left old
unfolding read_payload
read_payload_lem zero i bytes pre old p q r = rw append-nil
read_payload_lem (suc left) i bytes pre [] p q r = absurd (omega arith)
read_payload_lem (suc left) i bytes pre (y ∷ ys) p q r = rw (
  set-append i pre ys y (byte_at bytes (10 + i)) p,
  drop-cons (10 + i) bytes 0 (omega arith),
  ← append_assoc pre (byte_at bytes (10 + i) ∷ []) ys,
  read_payload_lem left (suc i) bytes (pre ++ (byte_at bytes (10 + i) ∷ [])) ys
      (omega (arith, length-append pre (byte_at bytes (10 + i) ∷ []))) (omega arith) (omega arith),
  append_assoc pre (byte_at bytes (10 + i) ∷ []) (take left (drop (10 + suc i) bytes)),
  add-suc 10 i,
)

pub read_payload-zero :
    (n : ℕ) (bytes : List ℕ)
    → n ≤ 64
    → 10 + n ≤ length bytes
    → read_payload n 0 bytes (replicate 64 0) ≡ take n (drop 10 bytes) ++ drop n (replicate 64 0)
read_payload-zero n bytes h k = read_payload_lem n 0 bytes [] (replicate 64 0) refl (omega arith) h
