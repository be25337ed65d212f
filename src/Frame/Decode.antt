-- ===== src/Frame/Decode.antt =====
-- `decode` of common/include/apogee/frame_codec.hpp.
use apogee_fc.Base.{
  ℕ, zero, suc, ◌+◌, not, ◌||◌, none, some, List, ◌==◌, ltb, if◌then◌else◌, set, take, drop, length,
}
use apogee_fc.Frame.{
  Frame, default_frame, DecodeStatus, DecodeResult, MessageType, decode_message_type, byte_at,
  read_u16_le, read_u32_le, protocol_version, maximum_payload_size, minimum_frame_size,
}
use apogee_fc.Frame.Crc.{crc16_ccitt_false}

-- The copy loop at `index`, with `left` rounds to go.
unfoldable pub read_payload : ℕ → ℕ → List ℕ → List ℕ → List ℕ
read_payload zero index bytes payload = payload
read_payload (suc left) index bytes payload =
    read_payload left (suc index) bytes (set payload index (byte_at bytes (10 + index)))

-- What `decode` does once its guards have passed.
unfoldable pub read_frame : List ℕ → MessageType → Frame
unfolding read_payload
read_frame bytes message_type =
    let n = read_u16_le bytes 4 in
    record {
      version = byte_at bytes 2;
      message_type = message_type;
      payload_length = n;
      sequence = read_u32_le bytes 6;
      payload = read_payload n 0 bytes default_frame.payload;
    }

abbrev failed : DecodeStatus → DecodeResult
failed status = record { status = status; frame = default_frame }

-- The checksum test and what follows it.
abbrev check_crc : List ℕ → MessageType → DecodeResult
check_crc bytes message_type =
    let n = read_u16_le bytes 4 in
    let expected_crc = read_u16_le bytes (10 + n) in
    let actual_crc = crc16_ccitt_false (take (8 + n) (drop 2 bytes)) in
    if not (actual_crc == expected_crc)
    then failed DecodeStatus.crc_mismatch
    else record { status = DecodeStatus.ok; frame = read_frame bytes message_type }

-- The tests of the length fields, from the read of `payload_length` on.
abbrev check_length : List ℕ → MessageType → DecodeResult
check_length bytes message_type =
    let n = read_u16_le bytes 4 in
    let expected_size = minimum_frame_size + n in
    if ltb maximum_payload_size n
    then failed DecodeStatus.payload_too_large
    else if ltb (length bytes) expected_size
    then failed DecodeStatus.truncated
    else if not (length bytes == expected_size)
    then failed DecodeStatus.length_mismatch
    else check_crc bytes message_type

unfoldable pub decode : List ℕ → DecodeResult
decode bytes =
    if ltb (length bytes) minimum_frame_size
    then failed DecodeStatus.truncated
    else if not (byte_at bytes 0 == 0xa5) || not (byte_at bytes 1 == 0x5a)
    then failed DecodeStatus.bad_sync
    else if not (byte_at bytes 2 == protocol_version)
    then failed DecodeStatus.unsupported_version
    else elim (decode_message_type (byte_at bytes 3)) [
      | none ↦ failed DecodeStatus.unsupported_message_type
      | some message_type ↦ check_length bytes message_type
    ]
