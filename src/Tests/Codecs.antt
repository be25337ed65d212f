-- ===== src/Tests/Codecs.antt =====
-- The codecs on concrete messages.
use apogee_fc.Base.{ℕ, ◌≡◌, refl, arith, true, false, ◌<◌, ◌≢◌, AreBytes, length, set, take}
use apogee_fc.Frame.{byte_at, EncodeStatus, DecodeStatus, span, decode_ok}
use apogee_fc.Frame.Encode.{encode, write_frame}
use apogee_fc.Frame.Decode.{decode}
use apogee_fc.Frame.Prefix.{decode_prefix}
use apogee_fc.Frame.RoundTrip.{IsSendable, cleared, decode-encode}
use apogee_fc.Frame.Canonical.{encode-decode}
use apogee_fc.Frame.Detection.{decode_changed}
use apogee_fc.Command.{
  CommandEncodeStatus, CommandDecodeStatus, CommandAckEncodeStatus, CommandAckDecodeStatus,
}
use apogee_fc.Command.Codec.{command_frame, encode_command, decode_command}
use apogee_fc.Command.Ack.{encode_command_ack, decode_command_ack}
use apogee_fc.Command.RoundTrip.{IsMessage, decode_command-encode_command, encode_command_sound}
use apogee_fc.Command.AckRoundTrip.{decode_command_ack-encode_command_ack}
use apogee_fc.TelemetryCodec.{
  TelemetryEncodeStatus, TelemetryDecodeStatus, encode_telemetry, decode_telemetry,
}
use apogee_fc.TelemetryCodec.RoundTrip.{IsTelemetry, decode_telemetry-encode_telemetry}
use apogee_fc.Tests.Data.{
  ping, set_period, refusal, ping_bytes, set_period_bytes, small_frame, cold_telemetry,
}

pub ping-IsMessage : IsMessage ping
ping-IsMessage = omega arith

pub set_period-IsMessage : IsMessage set_period
set_period-IsMessage = omega arith

pub ping_sound :
    AreBytes (span (encode_command ping).frame)
    × (decode_ok (decode (span (encode_command ping).frame)).status ≡ true)
ping_sound = encode_command_sound ping 1 ping-IsMessage refl

pub set_period_sound :
    AreBytes (span (encode_command set_period).frame)
    × (decode_ok (decode (span (encode_command set_period).frame)).status ≡ true)
set_period_sound = encode_command_sound set_period 3 set_period-IsMessage refl

small_frame-IsSendable : IsSendable small_frame 1
small_frame-IsSendable = record {
  frame = record {
    version_fits = omega arith;
    length_fits = omega arith;
    sequence_fits = omega arith;
    payload_size = refl;
    payload_bytes = omega arith;
  };
  version = refl;
  kind = refl;
  fits = omega arith;
}

pub cold_telemetry-IsTelemetry : IsTelemetry cold_telemetry
cold_telemetry-IsTelemetry = omega arith

decode-encode_example :
    ((encode small_frame).status ≡ EncodeStatus.ok)
    × (decode (span (encode small_frame).frame)
        ≡ record { status = DecodeStatus.ok; frame = cleared small_frame })
decode-encode_example = decode-encode small_frame 1 small_frame-IsSendable

encode-decode_example :
    (t : ℕ) × IsSendable (decode set_period_bytes).frame t
    × (span (encode (decode set_period_bytes).frame).frame ≡ set_period_bytes)
encode-decode_example = encode-decode set_period_bytes set_period_sound.0 set_period_sound.1

ping_fifth : (4 < length ping_bytes) × (2 ≢ byte_at ping_bytes 4)
unfolding encode_command command_frame encode write_frame
ping_fifth = (omega arith, λ e. omega arith)

ping_longer : 12 < length ping_bytes
unfolding encode_command command_frame encode write_frame
ping_longer = omega arith

decode_changed_example : decode_ok (decode (set ping_bytes 4 2)).status ≡ false
decode_changed_example =
    decode_changed ping_bytes 4 2 ping_sound.0 ping_sound.1 ping_fifth.0 (omega arith) ping_fifth.1

decode_prefix_example : (decode (take 12 ping_bytes)).status ≡ DecodeStatus.truncated
decode_prefix_example = decode_prefix 12 ping_bytes ping_sound.1 ping_longer

telemetry_round_trip_example :
    ((encode_telemetry cold_telemetry).status ≡ TelemetryEncodeStatus.ok)
    × (decode_telemetry (span (encode_telemetry cold_telemetry).frame) ≡ record {
      status = TelemetryDecodeStatus.ok;
      frame_status = DecodeStatus.ok;
      message = cold_telemetry;
    })
telemetry_round_trip_example =
    decode_telemetry-encode_telemetry cold_telemetry 1 cold_telemetry-IsTelemetry refl

command_round_trip_example :
    ((encode_command set_period).status ≡ CommandEncodeStatus.ok)
    × (decode_command set_period_bytes ≡ record {
      status = CommandDecodeStatus.ok;
      frame_status = DecodeStatus.ok;
      message = set_period;
    })
command_round_trip_example = decode_command-encode_command set_period 3 set_period-IsMessage refl

ack_round_trip_example :
    ((encode_command_ack refusal).status ≡ CommandAckEncodeStatus.ok)
    × (decode_command_ack (span (encode_command_ack refusal).frame) ≡ record {
      status = CommandAckDecodeStatus.ok;
      frame_status = DecodeStatus.ok;
      message = refusal;
    })
ack_round_trip_example = decode_command_ack-encode_command_ack refusal 3 2 (omega arith) refl refl
