-- ===== src/Command/AckRoundTrip.antt =====
-- `decode_command_ack` after `encode_command_ack`.
use apogee_fc.Base.{ℕ, ◌<◌, ◌≡◌, refl, arith, some, List, AreBytes}
use apogee_fc.Frame.{EncodeStatus, DecodeStatus, span}
use apogee_fc.Frame.Encode.{write_frame}
use apogee_fc.Frame.Decode.{decode}
use apogee_fc.Frame.RoundTrip.{
  IsSendable, encode_of_IsSendable, decode-write_frame, write_frame_sound, cleared,
}
use apogee_fc.Command.{
  CommandId, CommandAckStatus, CommandAckMessage, CommandAckEncodeStatus, CommandAckDecodeStatus,
  encode_command_id, decode_command_id, encode_ack_status, decode_ack_status,
}
use apogee_fc.Command.Ack.{ack_frame, encode_command_ack, decode_command_ack}

command_id-lt : (c : CommandId) (k : ℕ) → encode_command_id c ≡ some k → k < 256
command_id-lt c k h = ground arith

ack_status-lt : (a : CommandAckStatus) (k : ℕ) → encode_ack_status a ≡ some k → k < 256
ack_status-lt a k h = ground arith

pub decode-encode_command_id :
    (c : CommandId) (k : ℕ) → encode_command_id c ≡ some k → decode_command_id k ≡ some c
decode-encode_command_id c k h = ground arith

pub decode-encode_ack_status :
    (a : CommandAckStatus) (k : ℕ) → encode_ack_status a ≡ some k → decode_ack_status k ≡ some a
decode-encode_ack_status a k h = ground arith

ack_frame-IsSendable :
    (m : CommandAckMessage) (k j : ℕ)
    → m.sequence < 4294967296
    → k < 256
    → j < 256
    → IsSendable (ack_frame m k j) 0x11
unfolding ack_frame
ack_frame-IsSendable m k j h hk hj = record {
  frame = record {
    version_fits = omega arith;
    length_fits = omega arith;
    sequence_fits = h;
    payload_size = refl;
    payload_bytes = omega arith;
  };
  version = refl;
  kind = refl;
  fits = omega arith;
}

ack_back :
    (m : CommandAckMessage) (k j : ℕ) (bytes : List ℕ)
    → decode_command_id k ≡ some m.command
    → decode_ack_status j ≡ some m.status
    → decode bytes ≡ record { status = DecodeStatus.ok; frame = cleared (ack_frame m k j) }
    → decode_command_ack bytes
      ≡ record { status = CommandAckDecodeStatus.ok; frame_status = DecodeStatus.ok; message = m }
unfolding ack_frame decode_command_ack
ack_back m k j bytes hk hj d = ground arith

encode_command_ack-eq :
    (m : CommandAckMessage) (k j : ℕ)
    → encode_command_id m.command ≡ some k
    → encode_ack_status m.status ≡ some j
    → IsSendable (ack_frame m k j) 0x11
    → encode_command_ack m ≡ record {
      status = CommandAckEncodeStatus.ok;
      frame_status = EncodeStatus.ok;
      frame = write_frame (ack_frame m k j) 0x11;
    }
unfolding encode_command_ack
encode_command_ack-eq m k j hk hj s = ground (arith, encode_of_IsSendable (ack_frame m k j) 0x11 s)

-- An acknowledgement of a known command with a known status and a 32-bit sequence number encodes
-- without error, and decoding the bytes gives the same acknowledgement back.
pub decode_command_ack-encode_command_ack :
    (m : CommandAckMessage) (k j : ℕ)
    → m.sequence < 4294967296
    → encode_command_id m.command ≡ some k
    → encode_ack_status m.status ≡ some j
    → ((encode_command_ack m).status ≡ CommandAckEncodeStatus.ok)
      × (decode_command_ack (span (encode_command_ack m).frame) ≡ record {
        status = CommandAckDecodeStatus.ok;
        frame_status = DecodeStatus.ok;
        message = m;
      })
decode_command_ack-encode_command_ack m k j h hk hj =
    let sendable =
      ack_frame-IsSendable m k j h (command_id-lt m.command k hk) (ack_status-lt m.status j hj) in
    rw (encode_command_ack-eq m k j hk hj sendable) (
      refl,
      ack_back m k j (span (write_frame (ack_frame m k j) 0x11))
          (decode-encode_command_id m.command k hk) (decode-encode_ack_status m.status j hj)
          (decode-write_frame (ack_frame m k j) 0x11 sendable),
    )

-- The bytes of an encoded acknowledgement are a frame of its type.
pub encode_command_ack_sound :
    (m : CommandAckMessage) (k j : ℕ)
    → m.sequence < 4294967296
    → encode_command_id m.command ≡ some k
    → encode_ack_status m.status ≡ some j
    → AreBytes (span (encode_command_ack m).frame)
      × (decode (span (encode_command_ack m).frame)
          ≡ record { status = DecodeStatus.ok; frame = cleared (ack_frame m k j) })
encode_command_ack_sound m k j h hk hj =
    let sendable =
      ack_frame-IsSendable m k j h (command_id-lt m.command k hk) (ack_status-lt m.status j hj) in
    rw (encode_command_ack-eq m k j hk hj sendable) (
      (write_frame_sound (ack_frame m k j) 0x11 sendable).0,
      decode-write_frame (ack_frame m k j) 0x11 sendable,
    )
