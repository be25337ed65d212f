-- ===== src/Frame/Canonical.antt =====
-- `encode` after `decode`.
use apogee_fc.Base.{
  ℕ, ◌+◌, ◌/◌, ◌%◌, ◌<◌, ◌≡◌, refl, sym, ap, ap₂, ◌∙◌, arith, true, some, List, ◌∷◌, ◌++◌, length,
  take, drop, replicate, length-append, take-append, AreBytes, length-take, length-drop,
  get_or-drop, last_two, get_or-lt, AreBytes-append, AreBytes-take, AreBytes-drop,
}
use native.Mathlib.Nat.{add_assoc}
use apogee_fc.Frame.{
  MessageType, encode_message_type, decode_ok, byte_at, span, read_u16_le, read_u32_le,
}
use apogee_fc.Frame.Crc.{crc16_ccitt_false}
use apogee_fc.Frame.Encode.{encode}
use apogee_fc.Frame.Decode.{decode, read_frame, read_payload}
use apogee_fc.Frame.Wire.{covered, wire, u16_bytes}
use apogee_fc.Frame.Accept.{IsAccepted, IsAccepted_of_ok, read_payload-zero}
use apogee_fc.Frame.RoundTrip.{IsSendable, span-encode}
use apogee_fc.Frame.Fields.{read_u16_parts, read_u32_parts, first_ten, covered_eq, take_eight}

module _ (bytes : List ℕ) (m : MessageType) (valid : AreBytes bytes) (h : IsAccepted bytes m) where
  abbrev length_field : ℕ
  length_field = read_u16_le bytes 4

  tail_bytes :
      drop 10 bytes
      ≡ take length_field (drop 10 bytes) ++ u16_bytes (read_u16_le bytes (10 + length_field))
  tail_bytes =
      rw
        (
          (read_u16_parts bytes (10 + length_field) valid).0,
          (read_u16_parts bytes (10 + length_field) valid).1,
          add_assoc 10 length_field 1,
          ← get_or-drop 10 length_field bytes 0,
          ← get_or-drop 10 (length_field + 1) bytes 0,
        )
        (last_two length_field (drop 10 bytes) 0 (omega (arith, h.exact, length-drop 10 bytes)))

  payload_bytes :
      take length_field (read_payload length_field 0 bytes (replicate 64 0))
      ≡ take length_field (drop 10 bytes)
  payload_bytes = rw (read_payload-zero length_field bytes h.fits (omega (arith, h.exact))) (
      take-append length_field (take length_field (drop 10 bytes))
        (drop length_field (replicate 64 0))
        (omega (arith, h.exact, length-take length_field (drop 10 bytes), length-drop 10 bytes)))

  sequence_parts :
      let v = read_u32_le bytes 6 in
      (v % 256 ≡ byte_at bytes 6)
      × (v / 256 % 256 ≡ byte_at bytes 7)
      × (v / 65536 % 256 ≡ byte_at bytes 8)
      × (v / 16777216 % 256 ≡ byte_at bytes 9)
      × (v < 4294967296)
  sequence_parts =
      read_u32_parts (byte_at bytes 6) (byte_at bytes 7) (byte_at bytes 8) (byte_at bytes 9)
        (get_or-lt bytes 6 valid) (get_or-lt bytes 7 valid) (get_or-lt bytes 8 valid)
        (get_or-lt bytes 9 valid)

  covered_parts :
      covered (read_frame bytes m) (byte_at bytes 3)
      ≡ byte_at bytes 2
        ∷ byte_at bytes 3
        ∷ byte_at bytes 4
        ∷ byte_at bytes 5
        ∷ byte_at bytes 6
        ∷ byte_at bytes 7
        ∷ byte_at bytes 8
        ∷ byte_at bytes 9
        ∷ take length_field (drop 10 bytes)
  unfolding read_frame
  covered_parts =
      covered_eq (read_frame bytes m) (byte_at bytes 3) (byte_at bytes 2) (byte_at bytes 4)
        (byte_at bytes 5) (byte_at bytes 6) (byte_at bytes 7) (byte_at bytes 8) (byte_at bytes 9)
        (take length_field (drop 10 bytes)) refl (read_u16_parts bytes 4 valid).0
        (read_u16_parts bytes 4 valid).1 sequence_parts.0 sequence_parts.1 sequence_parts.2
        sequence_parts.3 payload_bytes

  covered-read_frame :
      covered (read_frame bytes m) (byte_at bytes 3) ≡ take (8 + length_field) (drop 2 bytes)
  covered-read_frame =
      covered_parts
      ∙ sym (
          ap (λ xs. take (8 + length_field) (drop 2 xs)) (first_ten bytes (omega (arith, h.exact)))
          ∙ take_eight length_field (byte_at bytes 2) (byte_at bytes 3) (byte_at bytes 4)
              (byte_at bytes 5) (byte_at bytes 6) (byte_at bytes 7) (byte_at bytes 8)
              (byte_at bytes 9) (drop 10 bytes))

  checksum_field :
      crc16_ccitt_false (covered (read_frame bytes m) (byte_at bytes 3))
      ≡ read_u16_le bytes (10 + length_field)
  checksum_field = ap crc16_ccitt_false covered-read_frame ∙ h.checksum

  -- An accepted span is the byte sequence of the frame read from it.
  pub wire-read_frame : wire (read_frame bytes m) (byte_at bytes 3) ≡ bytes
  wire-read_frame =
      ap (λ k. 0xa5 ∷ 0x5a ∷ (covered (read_frame bytes m) (byte_at bytes 3) ++ u16_bytes k))
        checksum_field
      ∙ ap (λ c. 0xa5 ∷ 0x5a ∷ (c ++ u16_bytes (read_u16_le bytes (10 + length_field))))
          covered_parts
      ∙ ap
          (λ r.
            0xa5
            ∷ 0x5a
            ∷ byte_at bytes 2
            ∷ byte_at bytes 3
            ∷ byte_at bytes 4
            ∷ byte_at bytes 5
            ∷ byte_at bytes 6
            ∷ byte_at bytes 7
            ∷ byte_at bytes 8
            ∷ byte_at bytes 9
            ∷ r)
          (sym tail_bytes)
      ∙ ap₂
          (λ a b.
            a
            ∷ b
            ∷ byte_at bytes 2
            ∷ byte_at bytes 3
            ∷ byte_at bytes 4
            ∷ byte_at bytes 5
            ∷ byte_at bytes 6
            ∷ byte_at bytes 7
            ∷ byte_at bytes 8
            ∷ byte_at bytes 9
            ∷ drop 10 bytes)
          (sym h.sync_first) (sym h.sync_second)
      ∙ sym (first_ten bytes (omega (arith, h.exact)))

  encode-decode_message_type : encode_message_type m ≡ some (byte_at bytes 3)
  encode-decode_message_type = ground (arith, h.kind)

  read_payload-AreBytes : AreBytes (read_payload length_field 0 bytes (replicate 64 0))
  read_payload-AreBytes =
      rw (read_payload-zero length_field bytes h.fits (omega (arith, h.exact))) (
        AreBytes-append (take length_field (drop 10 bytes)) (drop length_field (replicate 64 0))
          (AreBytes-take length_field (drop 10 bytes) (AreBytes-drop 10 bytes valid))
          (AreBytes-drop length_field (replicate 64 0) (omega arith)))

  length-read_payload : length (read_payload length_field 0 bytes (replicate 64 0)) ≡ 64
  length-read_payload = rw (read_payload-zero length_field bytes h.fits (omega (arith, h.exact))) (
      omega (
        arith,
        h.fits,
        h.exact,
        length-append (take length_field (drop 10 bytes)) (drop length_field (replicate 64 0)),
        length-take length_field (drop 10 bytes),
        length-drop 10 bytes,
        length-drop length_field (replicate {A = ℕ} 64 0),
      ))

  pub read_frame-IsSendable : IsSendable (read_frame bytes m) (byte_at bytes 3)
  unfolding read_frame
  read_frame-IsSendable = record {
    frame = record {
      version_fits = get_or-lt bytes 2 valid;
      length_fits = (read_u16_parts bytes 4 valid).2;
      sequence_fits = sequence_parts.4;
      payload_size = length-read_payload;
      payload_bytes = read_payload-AreBytes;
    };
    version = h.version;
    kind = encode-decode_message_type;
    fits = h.fits;
  }

-- Every span of bytes that `decode` accepts is what `encode` writes for the decoded frame, which is
-- of the current version, of a known type and at most 64 payload bytes long.
pub encode-decode :
    (bytes : List ℕ)
    → AreBytes bytes
    → decode_ok (decode bytes).status ≡ true
    → (t : ℕ) × IsSendable (decode bytes).frame t
      × (span (encode (decode bytes).frame).frame ≡ bytes)
encode-decode bytes valid ok =
    let (m, h, e) = IsAccepted_of_ok bytes ok in
    let sendable = read_frame-IsSendable bytes m valid h in
    (
      byte_at bytes 3,
      rw e sendable,
      rw e (
          span-encode (read_frame bytes m) (byte_at bytes 3) sendable
          ∙ wire-read_frame bytes m valid h),
    )
