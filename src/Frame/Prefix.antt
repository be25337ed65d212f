-- ===== src/Frame/Prefix.antt =====
-- `decode` on a part of a frame.
use apogee_fc.Base.{
  ℕ, ◌≤◌, ◌<◌, ◌≡◌, ap, ap₂, ◌∙◌, arith, true, List, inl, inr, Bool-cases, ltb, ltb→lt, ltb→le,
  bit_or, u16, ◌<<<◌, length, take, length-take, get_or-take,
}
use apogee_fc.Frame.{
  MessageType, DecodeStatus, byte_at, read_u16_le, decode_ok, decode_message_type,
}
use apogee_fc.Frame.Decode.{decode}
use apogee_fc.Frame.Accept.{IsAccepted, IsAccepted_of_ok}

-- The first `k` bytes of an accepted span, with its header in them.
module _ (k : ℕ) (bytes : List ℕ) (m : MessageType) (a : IsAccepted bytes m) where
  same_byte : (i : ℕ) → i < k → byte_at (take k bytes) i ≡ byte_at bytes i
  same_byte i h = get_or-take k i bytes 0 h

  same_length : 12 ≤ k → read_u16_le (take k bytes) 4 ≡ read_u16_le bytes 4
  same_length h =
      ap₂ (λ x y. u16 (bit_or x (u16 (y <<< 8)))) (same_byte 4 (omega arith))
        (same_byte 5 (omega arith))

  short_truncated : k < 12 → (decode (take k bytes)).status ≡ DecodeStatus.truncated
  unfolding decode
  short_truncated h = ground (arith, length-take k bytes)

  long_truncated :
      12 ≤ k → k < length bytes → (decode (take k bytes)).status ≡ DecodeStatus.truncated
  unfolding decode
  long_truncated h l =
      let kind = ap decode_message_type (same_byte 3 (omega arith)) ∙ a.kind in
      let first = same_byte 0 (omega arith) ∙ a.sync_first in
      let second = same_byte 1 (omega arith) ∙ a.sync_second in
      let version = same_byte 2 (omega arith) ∙ a.version in
      ground
        (arith, length-take k bytes, kind, first, second, version, same_length h, a.fits, a.exact)

-- Of a span that `decode` accepts, every shorter prefix is refused as truncated.
pub decode_prefix :
    (k : ℕ) (bytes : List ℕ)
    → decode_ok (decode bytes).status ≡ true
    → k < length bytes
    → (decode (take k bytes)).status ≡ DecodeStatus.truncated
decode_prefix k bytes ok l =
    let (m, a, _) = IsAccepted_of_ok bytes ok in
    elim (Bool-cases (ltb k 12)) [
      | inl short ↦ short_truncated k bytes m a (ltb→lt k 12 short)
      | inr long ↦ long_truncated k bytes m a (ltb→le k 12 long) l
    ]
