-- ===== src/Command/RoundTrip.antt =====
-- `decode_command` after `encode_command`.
use apogee_fc.Base.{
  ℕ, ◌<◌, ◌≡◌, refl, arith, true, some, List, set, replicate, AreBytes, if◌then◌else◌,
}
use apogee_fc.Frame.{EncodeStatus, DecodeStatus, span, decode_ok}
use apogee_fc.Frame.Encode.{write_frame}
use apogee_fc.Frame.Decode.{decode}
use apogee_fc.Frame.Accept.{read_u32_split}
use apogee_fc.Frame.Wire.{low_byte}
use apogee_fc.Frame.RoundTrip.{
  IsSendable, encode_of_IsSendable, decode-write_frame, write_frame_sound, cleared,
}
use apogee_fc.Command.{
  CommandId, ping, enter_safe_mode, set_telemetry_period, CommandMessage, CommandEncodeStatus,
  CommandDecodeStatus, encode_command_id, is_set_period, read_u32_le,
}
use apogee_fc.Command.Codec.{command_frame, encode_command, decode_command}

-- The ranges of the fields' types.
pub record IsMessage (m : CommandMessage) : Type 0 where
  pub sequence_fits : m.sequence < 4294967296
  pub period_fits : m.period_ms < 4294967296

encode_command_id-lt : (c : CommandId) (k : ℕ) → encode_command_id c ≡ some k → k < 256
encode_command_id-lt c k h = ground arith

all_bytes : (k : ℕ) → k < 256 → AreBytes (set (replicate 64 0) 0 k)
all_bytes k h = omega arith

command_frame-IsSendable :
    (s p k : ℕ) (c : CommandId)
    → s < 4294967296
    → encode_command_id c ≡ some k
    → IsSendable (command_frame (record { sequence = s; command = c; period_ms = p }) k) 0x10
unfolding command_frame
command_frame-IsSendable s p k set_telemetry_period h e = record {
  frame = record {
    version_fits = omega arith;
    length_fits = omega arith;
    sequence_fits = h;
    payload_size = refl;
    payload_bytes = omega (arith, encode_command_id-lt set_telemetry_period k e);
  };
  version = refl;
  kind = refl;
  fits = omega arith;
}
command_frame-IsSendable s p k c h e = record {
  frame = record {
    version_fits = omega arith;
    length_fits = omega arith;
    sequence_fits = h;
    payload_size = refl;
    payload_bytes = omega (arith, encode_command_id-lt c k e);
  };
  version = refl;
  kind = refl;
  fits = omega arith;
}

-- The period travels only with the command that sets it.
abbrev pub delivered : CommandMessage → CommandMessage
delivered m = record m { period_ms = if is_set_period m.command then m.period_ms else 0 }

encode_command-eq :
    (m : CommandMessage) (k : ℕ)
    → m.sequence < 4294967296
    → encode_command_id m.command ≡ some k
    → encode_command m ≡ record {
      status = CommandEncodeStatus.ok;
      frame_status = EncodeStatus.ok;
      frame = write_frame (command_frame m k) 0x10;
    }
unfolding encode_command
encode_command-eq m k h e = ground (
  arith,
  e,
  encode_of_IsSendable (command_frame m k) 0x10
      (command_frame-IsSendable m.sequence m.period_ms k m.command h e),
)

period_back :
    (s p k : ℕ)
    → p < 4294967296
    → read_u32_le
        (cleared (
          command_frame (record { sequence = s; command = set_telemetry_period; period_ms = p }) k))
        1
      ≡ p
unfolding command_frame
period_back s p k h = simp low_byte (read_u32_split p h)

-- The message that `decode_command` makes of a decoded command frame.
read_back :
    (s p k : ℕ) (c : CommandId)
    → p < 4294967296
    → encode_command_id c ≡ some k
    → (bytes : List ℕ)
    → let m : CommandMessage = record { sequence = s; command = c; period_ms = p } in
      decode bytes ≡ record { status = DecodeStatus.ok; frame = cleared (command_frame m k) }
      → decode_command bytes ≡ record {
        status = CommandDecodeStatus.ok;
        frame_status = DecodeStatus.ok;
        message = delivered m;
      }
unfolding command_frame decode_command
read_back s p k ping hp e bytes d = ground arith
read_back s p k enter_safe_mode hp e bytes d = ground arith
read_back s p k set_telemetry_period hp e bytes d = ground (arith, period_back s p k)
read_back s p k (CommandId.unlisted n) hp e bytes d = cc

-- A command with a known identifier and fields in the ranges of their types encodes without error,
-- and decoding the bytes gives the message back, with its period if it is the command that sets the
-- period and with period 0 otherwise.
pub decode_command-encode_command :
    (m : CommandMessage) (k : ℕ)
    → IsMessage m
    → encode_command_id m.command ≡ some k
    → ((encode_command m).status ≡ CommandEncodeStatus.ok)
      × (decode_command (span (encode_command m).frame) ≡ record {
        status = CommandDecodeStatus.ok;
        frame_status = DecodeStatus.ok;
        message = delivered m;
      })
decode_command-encode_command m k h e =
    let sendable = command_frame-IsSendable m.sequence m.period_ms k m.command h.sequence_fits e in
    rw (encode_command-eq m k h.sequence_fits e) (
      refl,
      read_back m.sequence m.period_ms k m.command h.period_fits e
          (span (write_frame (command_frame m k) 0x10))
          (decode-write_frame (command_frame m k) 0x10 sendable),
    )

-- The bytes of an encoded command are accepted by `decode`.
pub encode_command_sound :
    (m : CommandMessage) (k : ℕ)
    → IsMessage m
    → encode_command_id m.command ≡ some k
    → AreBytes (span (encode_command m).frame)
      × (decode_ok (decode (span (encode_command m).frame)).status ≡ true)
encode_command_sound m k h e = rw (encode_command-eq m k h.sequence_fits e) (
    write_frame_sound (command_frame m k) 0x10
      (command_frame-IsSendable m.sequence m.period_ms k m.command h.sequence_fits e))
