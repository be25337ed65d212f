-- ===== src/Command/Ack.antt =====
-- `encode_command_ack` and `decode_command_ack` of common/include/apogee/command_codec.hpp.
use apogee_fc.Base.{ℕ, List, set, Bool, not, none, some, ◌==◌, if◌then◌else◌}
use apogee_fc.Frame.{
  Frame, MessageType, default_frame, empty_frame, EncodeStatus, DecodeStatus, encode_ok, decode_ok,
  byte_at,
}
use apogee_fc.Frame.Encode.{encode}
use apogee_fc.Frame.Decode.{decode}
use apogee_fc.Command.{
  CommandId, CommandAckMessage, default_ack, CommandAckEncodeStatus, CommandAckEncodeResult,
  CommandAckDecodeStatus, CommandAckDecodeResult, encode_command_id, decode_command_id,
  encode_ack_status, decode_ack_status,
}

-- The frame that `encode_command_ack` hands to `encode`.
unfoldable pub ack_frame : CommandAckMessage → ℕ → ℕ → Frame
ack_frame message command_id status = record default_frame {
  message_type = MessageType.command_ack;
  payload_length = 2;
  sequence = message.sequence;
  payload = set (set default_frame.payload 0 command_id) 1 status;
}

abbrev not_encoded : CommandAckEncodeStatus → CommandAckEncodeResult
not_encoded status = record { status = status; frame_status = EncodeStatus.ok; frame = empty_frame }

unfoldable pub encode_command_ack : CommandAckMessage → CommandAckEncodeResult
encode_command_ack message = elim (encode_command_id message.command) [
  | none ↦ not_encoded CommandAckEncodeStatus.unknown_command
  | some command_id ↦ elim (encode_ack_status message.status) [
    | none ↦ not_encoded CommandAckEncodeStatus.unknown_status
    | some status ↦
        let encoded = encode (ack_frame message command_id status) in
        record {
          status =
              if not (encode_ok encoded.status)
              then CommandAckEncodeStatus.frame_encode_failure
              else CommandAckEncodeStatus.ok;
          frame_status = encoded.status;
          frame = encoded.frame;
        }
  ]
]

abbrev failed : CommandAckDecodeStatus → DecodeStatus → CommandAckMessage → CommandAckDecodeResult
failed status frame_status message = record {
  status = status;
  frame_status = frame_status;
  message = message;
}

-- The test `decoded.frame.message_type != MessageType::CommandAck`.
abbrev pub is_command_ack : MessageType → Bool
is_command_ack MessageType.command_ack = Bool.true
is_command_ack _ = Bool.false

-- The status byte comes after the command is stored in the result: an unknown status leaves it there.
abbrev read_ack : Frame → DecodeStatus → CommandId → CommandAckDecodeResult
read_ack frame frame_status command = elim (decode_ack_status (byte_at frame.payload 1)) [
  | none ↦
      failed CommandAckDecodeStatus.unknown_status frame_status
        (record default_ack { command = command })
  | some status ↦ record {
    status = CommandAckDecodeStatus.ok;
    frame_status = frame_status;
    message = record { sequence = frame.sequence; command = command; status = status };
  }
]

unfoldable pub decode_command_ack : List ℕ → CommandAckDecodeResult
decode_command_ack bytes =
    let decoded = decode bytes in
    let frame = decoded.frame in
    if not (decode_ok decoded.status)
    then failed CommandAckDecodeStatus.frame_decode_failure decoded.status default_ack
    else if not (is_command_ack frame.message_type)
    then failed CommandAckDecodeStatus.incorrect_message_type decoded.status default_ack
    else if not (frame.payload_length == 2)
    then failed CommandAckDecodeStatus.invalid_payload_length decoded.status default_ack
    else elim (decode_command_id (byte_at frame.payload 0)) [
      | none ↦ failed CommandAckDecodeStatus.unknown_command decoded.status default_ack
      | some command ↦ read_ack frame decoded.status command
    ]
