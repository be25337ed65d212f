-- ===== src/TelemetryCodec/RoundTrip.antt =====
-- `decode_telemetry` after `encode_telemetry`.
use apogee_fc.Base.{ℕ, ◌<◌, ◌^◌, ◌≡◌, ap, ◌∙◌, refl, arith, some, List, bit_and, AreBytes}
use apogee_fc.Base.Int.{int16_to_u16}
use apogee_fc.FlightMode.{FlightMode}
use apogee_fc.Telemetry.{AreReadings}
use apogee_fc.Frame.{Frame, byte_at, EncodeStatus, DecodeStatus, span}
use apogee_fc.Frame.Encode.{write_frame}
use apogee_fc.Frame.Decode.{decode}
use apogee_fc.Frame.RoundTrip.{
  IsSendable, encode_of_IsSendable, decode-write_frame, write_frame_sound, cleared,
}
use apogee_fc.TelemetryCodec.{
  TelemetryMessage, TelemetryEncodeStatus, TelemetryDecodeStatus, encode_flight_mode,
  decode_flight_mode, telemetry_frame, encode_telemetry, decode_telemetry, read_telemetry,
  unknown_fault_mask, read_u16_le, read_u32_le, decode_temperature,
}
use apogee_fc.TelemetryCodec.Payload.{
  decode_temperature-int16_to_u16, unknown_bits_iff, read_u16-write_u16, read_u32-write_u32,
  read_u64-write_u64, int16_to_u16-lt,
}

-- The ranges of the fields' types, and a fault mask of known bits.
pub record IsTelemetry (m : TelemetryMessage) : Type 0 where
  pub sequence_fits : m.snapshot.sequence < 2 ^ 32
  pub uptime_fits : m.snapshot.uptime_ms < 2 ^ 64
  pub readings : AreReadings m.snapshot.sensor_readings
  pub known_faults : m.latched_fault_mask < 8

encode_flight_mode-lt : (f : FlightMode) (k : ℕ) → encode_flight_mode f ≡ some k → k < 256
encode_flight_mode-lt f k h = ground arith

pub decode-encode_flight_mode :
    (f : FlightMode) (k : ℕ) → encode_flight_mode f ≡ some k → decode_flight_mode k ≡ some f
decode-encode_flight_mode f k h = ground arith

telemetry_frame-IsSendable :
    (m : TelemetryMessage) (k : ℕ)
    → m.snapshot.sequence < 2 ^ 32
    → k < 256
    → IsSendable (telemetry_frame m k) 0x01
unfolding telemetry_frame
telemetry_frame-IsSendable m k h hk = record {
  frame = record {
    version_fits = omega arith;
    length_fits = omega arith;
    sequence_fits = h;
    payload_size = refl;
    payload_bytes = omega arith;
  };
  version = refl;
  kind = refl;
  fits = omega arith;
}

module _ (m : TelemetryMessage) (k : ℕ) (h : IsTelemetry m) where
  mask_back : read_u32_le (cleared (telemetry_frame m k)).payload 15 ≡ m.latched_fault_mask
  unfolding telemetry_frame
  mask_back = read_u32-write_u32 m.latched_fault_mask (omega (arith, h.known_faults))

  temperature_back :
      decode_temperature (read_u16_le (cleared (telemetry_frame m k)).payload 11)
      ≡ m.snapshot.sensor_readings.board_temperature_centi_c
  unfolding telemetry_frame
  temperature_back =
      ap decode_temperature (
        read_u16-write_u16 (int16_to_u16 m.snapshot.sensor_readings.board_temperature_centi_c)
          (int16_to_u16-lt m.snapshot.sensor_readings.board_temperature_centi_c))
      ∙ decode_temperature-int16_to_u16 m.snapshot.sensor_readings.board_temperature_centi_c
          h.readings.temperature

  telemetry_back : read_telemetry (cleared (telemetry_frame m k)) m.snapshot.flight_mode ≡ m
  unfolding read_telemetry telemetry_frame
  telemetry_back = λ i. record {
    snapshot = record {
      sequence = m.snapshot.sequence;
      uptime_ms = read_u64-write_u64 m.snapshot.uptime_ms h.uptime_fits i;
      flight_mode = m.snapshot.flight_mode;
      sensor_readings = record {
        battery_mv = read_u16-write_u16 m.snapshot.sensor_readings.battery_mv h.readings.battery i;
        board_temperature_centi_c = temperature_back i;
        solar_current_ma =
            read_u16-write_u16 m.snapshot.sensor_readings.solar_current_ma h.readings.current i;
      };
    };
    latched_fault_mask = mask_back i;
  }

encode_telemetry-eq :
    (m : TelemetryMessage) (k : ℕ)
    → m.latched_fault_mask < 8
    → encode_flight_mode m.snapshot.flight_mode ≡ some k
    → IsSendable (telemetry_frame m k) 0x01
    → encode_telemetry m ≡ record {
      status = TelemetryEncodeStatus.ok;
      frame_status = EncodeStatus.ok;
      frame = write_frame (telemetry_frame m k) 0x01;
    }
unfolding encode_telemetry
encode_telemetry-eq m k hm e s = ground (
  arith,
  unknown_bits_iff m.latched_fault_mask (omega arith),
  encode_of_IsSendable (telemetry_frame m k) 0x01 s,
)

decode_of_frame :
    (bytes : List ℕ) (frame : Frame) (mode : FlightMode)
    → decode bytes ≡ record { status = DecodeStatus.ok; frame = frame }
    → frame.payload_length ≡ 19
    → decode_flight_mode (byte_at frame.payload 8) ≡ some mode
    → bit_and (read_u32_le frame.payload 15) unknown_fault_mask ≡ 0
    → decode_telemetry bytes ≡ record {
      status = TelemetryDecodeStatus.ok;
      frame_status = DecodeStatus.ok;
      message = read_telemetry frame mode;
    }
unfolding decode_telemetry
decode_of_frame bytes frame mode d n e b = ground arith

frame_fields :
    (m : TelemetryMessage) (k : ℕ)
    → ((cleared (telemetry_frame m k)).payload_length ≡ 19)
      × (byte_at (cleared (telemetry_frame m k)).payload 8 ≡ k)
unfolding telemetry_frame
frame_fields m k = (refl, refl)

message_back :
    (m : TelemetryMessage) (k : ℕ) (bytes : List ℕ)
    → IsTelemetry m
    → decode_flight_mode k ≡ some m.snapshot.flight_mode
    → decode bytes ≡ record { status = DecodeStatus.ok; frame = cleared (telemetry_frame m k) }
    → decode_telemetry bytes ≡ record {
      status = TelemetryDecodeStatus.ok;
      frame_status = DecodeStatus.ok;
      message = read_telemetry (cleared (telemetry_frame m k)) m.snapshot.flight_mode;
    }
message_back m k bytes h e d =
    decode_of_frame bytes (cleared (telemetry_frame m k)) m.snapshot.flight_mode d
      (frame_fields m k).0 (rw (frame_fields m k).1 e)
      (rw (mask_back m k h)
        ((unknown_bits_iff m.latched_fault_mask (omega (arith, h.known_faults))).1 h.known_faults))

-- A telemetry message of a known mode, with known fault bits and fields in the ranges of their
-- types, encodes without error, and decoding the bytes gives the same message back.
pub decode_telemetry-encode_telemetry :
    (m : TelemetryMessage) (k : ℕ)
    → IsTelemetry m
    → encode_flight_mode m.snapshot.flight_mode ≡ some k
    → ((encode_telemetry m).status ≡ TelemetryEncodeStatus.ok)
      × (decode_telemetry (span (encode_telemetry m).frame) ≡ record {
        status = TelemetryDecodeStatus.ok;
        frame_status = DecodeStatus.ok;
        message = m;
      })
decode_telemetry-encode_telemetry m k h e =
    let sendable =
      telemetry_frame-IsSendable m k h.sequence_fits
        (encode_flight_mode-lt m.snapshot.flight_mode k e) in
    rw (encode_telemetry-eq m k h.known_faults e sendable) (
      refl,
      message_back m k (span (write_frame (telemetry_frame m k) 0x01)) h
            (decode-encode_flight_mode m.snapshot.flight_mode k e)
            (decode-write_frame (telemetry_frame m k) 0x01 sendable)
          ∙ ap
              (λ t. record {
                status = TelemetryDecodeStatus.ok;
                frame_status = DecodeStatus.ok;
                message = t;
              })
              (telemetry_back m k h),
    )

-- The bytes of an encoded message are a frame of the telemetry type.
pub encode_telemetry_sound :
    (m : TelemetryMessage) (k : ℕ)
    → IsTelemetry m
    → encode_flight_mode m.snapshot.flight_mode ≡ some k
    → AreBytes (span (encode_telemetry m).frame)
      × (decode (span (encode_telemetry m).frame)
          ≡ record { status = DecodeStatus.ok; frame = cleared (telemetry_frame m k) })
encode_telemetry_sound m k h e =
    let sendable =
      telemetry_frame-IsSendable m k h.sequence_fits
        (encode_flight_mode-lt m.snapshot.flight_mode k e) in
    rw (encode_telemetry-eq m k h.known_faults e sendable) (
      (write_frame_sound (telemetry_frame m k) 0x01 sendable).0,
      decode-write_frame (telemetry_frame m k) 0x01 sendable,
    )
