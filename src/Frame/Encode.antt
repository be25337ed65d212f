-- ===== src/Frame/Encode.antt =====
-- `encode` of common/include/apogee/frame_codec.hpp.
use apogee_fc.Base.{
  ℕ, zero, suc, ◌+◌, not, none, some, List, ◌==◌, ltb, if◌then◌else◌, set, take, drop,
}
use apogee_fc.Frame.{
  Frame, EncodedFrame, empty_frame, EncodeStatus, EncodeResult, encode_message_type, byte_at,
  write_u16_le, write_u32_le, protocol_version, maximum_payload_size,
}
use apogee_fc.Frame.Crc.{crc16_ccitt_false}

-- The copy loop at `index`, with `left` rounds to go.
unfoldable pub copy_payload : ℕ → ℕ → List ℕ → List ℕ → List ℕ
copy_payload zero index payload bytes = bytes
copy_payload (suc left) index payload bytes =
    copy_payload left (suc index) payload (set bytes (10 + index) (byte_at payload index))

-- The bytes before the payload.
abbrev pub write_header : Frame → ℕ → List ℕ → List ℕ
write_header f encoded_type bytes =
    let sync = set (set bytes 0 0xa5) 1 0x5a in
    let kind = set (set sync 2 f.version) 3 encoded_type in
    write_u32_le (write_u16_le kind 4 f.payload_length) 6 f.sequence

-- What `encode` does once its guards have passed.
unfoldable pub write_frame : Frame → ℕ → EncodedFrame
unfolding copy_payload
write_frame f encoded_type =
    let n = f.payload_length in
    let header = write_header f encoded_type empty_frame.bytes in
    let bytes = copy_payload n 0 f.payload header in
    let crc_offset = 10 + n in
    let crc = crc16_ccitt_false (take (8 + n) (drop 2 bytes)) in
    record { bytes = write_u16_le bytes crc_offset crc; size = crc_offset + 2 }

abbrev failed : EncodeStatus → EncodeResult
failed status = record { status = status; frame = empty_frame }

unfoldable pub encode : Frame → EncodeResult
encode f =
    if not (f.version == protocol_version)
    then failed EncodeStatus.unsupported_version
    else elim (encode_message_type f.message_type) [
      | none ↦ failed EncodeStatus.unsupported_message_type
      | some encoded_type ↦
          if ltb maximum_payload_size f.payload_length
          then failed EncodeStatus.payload_too_large
          else record { status = EncodeStatus.ok; frame = write_frame f encoded_type }
    ]
