-- ===== src/Command/Codec.antt =====
-- `encode_command` and `decode_command` of common/include/apogee/command_codec.hpp.
use apogee_fc.Base.{ℕ, List, set, Bool, not, none, some, ◌==◌, ltb, if◌then◌else◌}
use apogee_fc.Frame.{
  Frame, MessageType, default_frame, empty_frame, EncodeStatus, DecodeStatus, encode_ok, decode_ok,
  byte_at,
}
use apogee_fc.Frame.Encode.{encode}
use apogee_fc.Frame.Decode.{decode}
use apogee_fc.Command.{
  CommandId, CommandMessage, default_message, CommandEncodeStatus, CommandEncodeResult,
  CommandDecodeStatus, CommandDecodeResult, encode_command_id, decode_command_id, write_u32_le,
  read_u32_le, is_set_period,
}

-- The frame that `encode_command` hands to `encode`.
unfoldable pub command_frame : CommandMessage → ℕ → Frame
command_frame message command_id =
    let frame = record default_frame {
      message_type = MessageType.command;
      payload_length = 1;
      sequence = message.sequence;
      payload = set default_frame.payload 0 command_id;
    } in
    if is_set_period message.command
    then write_u32_le (record frame { payload_length = 5 }) 1 message.period_ms
    else frame

unfoldable pub encode_command : CommandMessage → CommandEncodeResult
encode_command message = elim (encode_command_id message.command) [
  | none ↦ record {
    status = CommandEncodeStatus.unknown_command;
    frame_status = EncodeStatus.ok;
    frame = empty_frame;
  }
  | some command_id ↦
      let encoded = encode (command_frame message command_id) in
      record {
        status =
            if not (encode_ok encoded.status)
            then CommandEncodeStatus.frame_encode_failure
            else CommandEncodeStatus.ok;
        frame_status = encoded.status;
        frame = encoded.frame;
      }
]

abbrev failed : CommandDecodeStatus → DecodeStatus → CommandDecodeResult
failed status frame_status = record {
  status = status;
  frame_status = frame_status;
  message = default_message;
}

-- The test `decoded.frame.message_type != MessageType::Command`.
abbrev pub is_command : MessageType → Bool
is_command MessageType.command = Bool.true
is_command _ = Bool.false

-- The length test for a known command, and the message.
abbrev read_command : Frame → DecodeStatus → CommandId → CommandDecodeResult
read_command frame frame_status command =
    let required_length : ℕ = if is_set_period command then 5 else 1 in
    if not (frame.payload_length == required_length)
    then failed CommandDecodeStatus.invalid_payload_length frame_status
    else record {
      status = CommandDecodeStatus.ok;
      frame_status = frame_status;
      message = record {
        sequence = frame.sequence;
        command = command;
        period_ms = if is_set_period command then read_u32_le frame 1 else 0;
      };
    }

unfoldable pub decode_command : List ℕ → CommandDecodeResult
decode_command bytes =
    let decoded = decode bytes in
    let frame = decoded.frame in
    if not (decode_ok decoded.status)
    then failed CommandDecodeStatus.frame_decode_failure decoded.status
    else if not (is_command frame.message_type)
    then failed CommandDecodeStatus.incorrect_message_type decoded.status
    else if ltb frame.payload_length 1
    then failed CommandDecodeStatus.invalid_payload_length decoded.status
    else elim (decode_command_id (byte_at frame.payload 0)) [
      | none ↦ failed CommandDecodeStatus.unknown_command decoded.status
      | some command ↦ read_command frame decoded.status command
    ]
