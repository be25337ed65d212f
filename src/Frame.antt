-- ===== src/Frame.antt =====
-- common/include/apogee/frame_codec.hpp: frames, results, and the little-endian helpers. A
-- `std::array` is a list of its fixed length; a span is the list of its bytes.
pub mod Crc
pub mod Encode
pub mod Decode
pub mod Wire
pub mod Accept
pub mod RoundTrip
pub mod Fields
pub mod Canonical
pub mod Checksum
pub mod Detection
pub mod Prefix
use apogee_fc.Base.{
  ℕ, zero, suc, ◌+◌, ◌*◌, ◌<◌, ◌≤◌, ◌≡◌, Bool, true, false, List, get_or, set, replicate, length,
  bit_and, bit_or, u8, u16, ◌<<<◌, ◌>>>◌, AreBytes, Option, none, some, ◌==◌, if◌then◌else◌, take,
}

abbrev pub protocol_version : ℕ
protocol_version = 1

abbrev pub maximum_payload_size : ℕ
maximum_payload_size = 64

abbrev pub maximum_frame_size : ℕ
maximum_frame_size = 76

abbrev pub minimum_frame_size : ℕ
minimum_frame_size = 12

-- `unlisted n` is a value of the underlying type that no enumerator names.
pub data MessageType : Type 0 where
  telemetry command command_ack : MessageType
  unlisted : ℕ → MessageType

pub record Frame : Type 0 where
  pub version : ℕ  -- uint8
  pub message_type : MessageType
  pub payload_length : ℕ  -- uint16
  pub sequence : ℕ  -- uint32
  pub payload : List ℕ  -- 64 bytes

-- `Frame{}`.
abbrev pub default_frame : Frame
default_frame = record {
  version = protocol_version;
  message_type = telemetry;
  payload_length = 0;
  sequence = 0;
  payload = replicate maximum_payload_size 0;
}

-- The ranges of the fields' types.
pub record IsFrame (f : Frame) : Type 0 where
  pub version_fits : f.version < 256
  pub length_fits : f.payload_length < 65536
  pub sequence_fits : f.sequence < 4294967296
  pub payload_size : length f.payload ≡ 64
  pub payload_bytes : AreBytes f.payload

pub record EncodedFrame : Type 0 where
  pub bytes : List ℕ  -- 76 bytes
  pub size : ℕ

-- `EncodedFrame{}`.
abbrev pub empty_frame : EncodedFrame
empty_frame = record { bytes = replicate maximum_frame_size 0; size = 0 }

-- The span of the first `size` bytes, which the callers pass on.
abbrev pub span : EncodedFrame → List ℕ
span e = take e.size e.bytes

pub data EncodeStatus : Type 0 where
  ok unsupported_version unsupported_message_type payload_too_large : EncodeStatus

pub record EncodeResult : Type 0 where
  pub status : EncodeStatus
  pub frame : EncodedFrame

pub data DecodeStatus : Type 0 where
  ok truncated bad_sync unsupported_version unsupported_message_type payload_too_large
        length_mismatch crc_mismatch :
      DecodeStatus

pub record DecodeResult : Type 0 where
  pub status : DecodeStatus
  pub frame : Frame

-- `EncodeResult::ok` and `DecodeResult::ok`.
abbrev pub encode_ok : EncodeStatus → Bool
encode_ok EncodeStatus.ok = true
encode_ok _ = false

abbrev pub decode_ok : DecodeStatus → Bool
decode_ok DecodeStatus.ok = true
decode_ok _ = false

-- `none` is the result false, at which no caller reads the output parameter.
abbrev pub encode_message_type : MessageType → Option ℕ
encode_message_type telemetry = some 0x01
encode_message_type command = some 0x10
encode_message_type command_ack = some 0x11
encode_message_type (unlisted _) = none

abbrev pub decode_message_type : ℕ → Option MessageType
decode_message_type encoded =
    if encoded == 0x01
    then some telemetry
    else if encoded == 0x10
    then some command
    else if encoded == 0x11
    then some command_ack
    else none

-- `bytes[index]`.
abbrev pub byte_at : List ℕ → ℕ → ℕ
byte_at bytes index = get_or bytes index 0

abbrev pub write_u16_le : List ℕ → ℕ → ℕ → List ℕ
write_u16_le bytes offset value =
    set (set bytes offset (u8 (bit_and value 0xff))) (offset + 1) (u8 (bit_and (value >>> 8) 0xff))

abbrev pub write_u32_le : List ℕ → ℕ → ℕ → List ℕ
write_u32_le bytes offset value =
    let b0 = set bytes offset (u8 (bit_and value 0xff)) in
    let b1 = set b0 (offset + 1) (u8 (bit_and (value >>> 8) 0xff)) in
    let b2 = set b1 (offset + 2) (u8 (bit_and (value >>> 16) 0xff)) in
    set b2 (offset + 3) (u8 (bit_and (value >>> 24) 0xff))

abbrev pub read_u16_le : List ℕ → ℕ → ℕ
read_u16_le bytes offset =
    u16 (bit_or (byte_at bytes offset) (u16 (byte_at bytes (offset + 1) <<< 8)))

abbrev pub read_u32_le : List ℕ → ℕ → ℕ
read_u32_le bytes offset =
    bit_or
      (bit_or (bit_or (byte_at bytes offset) (byte_at bytes (offset + 1) <<< 8))
        (byte_at bytes (offset + 2) <<< 16))
      (byte_at bytes (offset + 3) <<< 24)
