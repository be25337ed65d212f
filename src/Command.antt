-- ===== src/Command.antt =====
-- common/include/apogee/command_codec.hpp: commands, acknowledgements, and their byte codes.
pub mod Codec
pub mod Ack
pub mod RoundTrip
pub mod AckRoundTrip
pub mod Known
use apogee_fc.Base.{ℕ, List, Bool, true, false, Option, none, some, ◌==◌, if◌then◌else◌}
use apogee_fc.Frame.{
  Frame, EncodedFrame, EncodeStatus, DecodeStatus, write_u32_le as put_u32_le,
  read_u32_le as get_u32_le,
}

-- `unlisted n` is a value of the underlying type that no enumerator names.
pub data CommandId : Type 0 where
  ping enter_safe_mode set_telemetry_period : CommandId
  unlisted : ℕ → CommandId

pub data CommandAckStatus : Type 0 where
  accepted invalid_command invalid_argument rejected_by_state : CommandAckStatus
  unlisted : ℕ → CommandAckStatus

pub record CommandMessage : Type 0 where
  pub sequence : ℕ  -- uint32
  pub command : CommandId
  pub period_ms : ℕ  -- uint32

-- `CommandMessage{}`.
abbrev pub default_message : CommandMessage
default_message = record { sequence = 0; command = ping; period_ms = 0 }

pub record CommandAckMessage : Type 0 where
  pub sequence : ℕ  -- uint32
  pub command : CommandId
  pub status : CommandAckStatus

-- `CommandAckMessage{}`.
abbrev pub default_ack : CommandAckMessage
default_ack = record { sequence = 0; command = ping; status = accepted }

pub data CommandEncodeStatus : Type 0 where
  ok unknown_command frame_encode_failure : CommandEncodeStatus

pub record CommandEncodeResult : Type 0 where
  pub status : CommandEncodeStatus
  pub frame_status : EncodeStatus
  pub frame : EncodedFrame

pub data CommandDecodeStatus : Type 0 where
  ok frame_decode_failure incorrect_message_type invalid_payload_length unknown_command :
      CommandDecodeStatus

pub record CommandDecodeResult : Type 0 where
  pub status : CommandDecodeStatus
  pub frame_status : DecodeStatus
  pub message : CommandMessage

pub data CommandAckEncodeStatus : Type 0 where
  ok unknown_command unknown_status frame_encode_failure : CommandAckEncodeStatus

pub record CommandAckEncodeResult : Type 0 where
  pub status : CommandAckEncodeStatus
  pub frame_status : EncodeStatus
  pub frame : EncodedFrame

pub data CommandAckDecodeStatus : Type 0 where
  ok frame_decode_failure incorrect_message_type invalid_payload_length unknown_command
        unknown_status :
      CommandAckDecodeStatus

pub record CommandAckDecodeResult : Type 0 where
  pub status : CommandAckDecodeStatus
  pub frame_status : DecodeStatus
  pub message : CommandAckMessage

-- `none` is the result false, at which the output parameter is left alone.
abbrev pub encode_command_id : CommandId → Option ℕ
encode_command_id ping = some 0x01
encode_command_id enter_safe_mode = some 0x02
encode_command_id set_telemetry_period = some 0x03
encode_command_id (unlisted _) = none

abbrev pub decode_command_id : ℕ → Option CommandId
decode_command_id encoded =
    if encoded == 0x01
    then some ping
    else if encoded == 0x02
    then some enter_safe_mode
    else if encoded == 0x03
    then some set_telemetry_period
    else none

abbrev pub encode_ack_status : CommandAckStatus → Option ℕ
encode_ack_status accepted = some 0
encode_ack_status invalid_command = some 1
encode_ack_status invalid_argument = some 2
encode_ack_status rejected_by_state = some 3
encode_ack_status (unlisted _) = none

abbrev pub decode_ack_status : ℕ → Option CommandAckStatus
decode_ack_status encoded =
    if encoded == 0
    then some accepted
    else if encoded == 1
    then some invalid_command
    else if encoded == 2
    then some invalid_argument
    else if encoded == 3
    then some rejected_by_state
    else none

-- `command_detail::write_u32_le` and `command_detail::read_u32_le`, on the payload of a frame.
abbrev pub write_u32_le : Frame → ℕ → ℕ → Frame
write_u32_le frame offset value = record frame { payload = put_u32_le frame.payload offset value }

abbrev pub read_u32_le : Frame → ℕ → ℕ
read_u32_le frame offset = get_u32_le frame.payload offset

-- The test `command == CommandId::SetTelemetryPeriod`.
abbrev pub is_set_period : CommandId → Bool
is_set_period set_telemetry_period = true
is_set_period _ = false
