-- ===== src/TelemetryCodec.antt =====
-- common/include/apogee/telemetry_codec.hpp: telemetry messages, their payload, encode and decode.
pub mod Payload
pub mod RoundTrip
use apogee_fc.Base.{
  ℕ, zero, suc, ◌+◌, ◌-◌, ◌*◌, ◌≤◌, ◌<◌, Bool, not, Option, none, some, List, get_or, set, bit_and,
  bit_or, u8, u16, u32, ◌<<<◌, ◌>>>◌, ◌==◌, leb, if◌then◌else◌,
}
use apogee_fc.Base.Int.{ℤ, pos, negsuc, int16_to_u16}
use apogee_fc.FlightMode.{FlightMode, boot, safe, nominal}
use apogee_fc.Health.{bit, battery_undervoltage, board_undertemperature, board_overtemperature}
use apogee_fc.Telemetry.{TelemetrySnapshot, SensorReadings}
use apogee_fc.Frame.{
  Frame, MessageType, default_frame, EncodedFrame, empty_frame, EncodeStatus, DecodeStatus,
  encode_ok, decode_ok, byte_at,
}
use apogee_fc.Frame.Encode.{encode}
use apogee_fc.Frame.Decode.{decode}

abbrev pub telemetry_payload_size : ℕ
telemetry_payload_size = 19

abbrev pub known_fault_mask : ℕ
known_fault_mask =
    bit_or (bit_or (bit battery_undervoltage) (bit board_undertemperature))
      (bit board_overtemperature)

-- `~known_fault_mask` over `std::uint32_t`.
abbrev pub unknown_fault_mask : ℕ
unknown_fault_mask = 0xffff_ffff - known_fault_mask

pub record TelemetryMessage : Type 0 where
  pub snapshot : TelemetrySnapshot
  pub latched_fault_mask : ℕ  -- uint32

pub data TelemetryEncodeStatus : Type 0 where
  ok invalid_flight_mode unknown_fault_bits frame_encode_failure : TelemetryEncodeStatus

pub record TelemetryEncodeResult : Type 0 where
  pub status : TelemetryEncodeStatus
  pub frame_status : EncodeStatus
  pub frame : EncodedFrame

pub data TelemetryDecodeStatus : Type 0 where
  ok frame_decode_failure incorrect_payload_length invalid_flight_mode unknown_fault_bits :
      TelemetryDecodeStatus

pub record TelemetryDecodeResult : Type 0 where
  pub status : TelemetryDecodeStatus
  pub frame_status : DecodeStatus
  pub message : TelemetryMessage

-- `TelemetryMessage{}`: every member is zero, and mode 0 is `Boot`.
abbrev pub default_telemetry : TelemetryMessage
default_telemetry = record {
  snapshot = record {
    sequence = 0;
    uptime_ms = 0;
    flight_mode = boot;
    sensor_readings = record {
      battery_mv = 0;
      board_temperature_centi_c = pos 0;
      solar_current_ma = 0;
    };
  };
  latched_fault_mask = 0;
}

abbrev pub encode_flight_mode : FlightMode → Option ℕ
encode_flight_mode boot = some 0
encode_flight_mode safe = some 1
encode_flight_mode nominal = some 2
encode_flight_mode (FlightMode.unlisted _) = none

abbrev pub decode_flight_mode : ℕ → Option FlightMode
decode_flight_mode encoded =
    if encoded == 0
    then some boot
    else if encoded == 1
    then some safe
    else if encoded == 2
    then some nominal
    else none

-- The writes and reads go to the payload of a frame.
abbrev pub write_u16_le : List ℕ → ℕ → ℕ → List ℕ
write_u16_le payload offset value =
    set (set payload offset (u8 (bit_and value 0xff))) (offset + 1)
      (u8 (bit_and (value >>> 8) 0xff))

-- The loop of `write_u32_le` and `write_u64_le` at `byte`, with `left` rounds to go.
abbrev pub write_bytes_le : ℕ → ℕ → List ℕ → ℕ → ℕ → List ℕ
write_bytes_le zero byte payload offset value = payload
write_bytes_le (suc left) byte payload offset value =
    write_bytes_le left (byte + 1)
      (set payload (offset + byte) (u8 (bit_and (value >>> (byte * 8)) 0xff))) offset value

abbrev pub write_u32_le : List ℕ → ℕ → ℕ → List ℕ
write_u32_le payload offset value = write_bytes_le 4 0 payload offset value

abbrev pub write_u64_le : List ℕ → ℕ → ℕ → List ℕ
write_u64_le payload offset value = write_bytes_le 8 0 payload offset value

abbrev pub read_u16_le : List ℕ → ℕ → ℕ
read_u16_le payload offset =
    u16 (bit_or (byte_at payload offset) (u16 (byte_at payload (offset + 1) <<< 8)))

-- The loop of `read_u32_le` and `read_u64_le` at `byte`, with `left` rounds to go. The shifts stay
-- below the width, so nothing is cut off.
abbrev pub read_bytes_le : ℕ → ℕ → List ℕ → ℕ → ℕ → ℕ
read_bytes_le zero byte payload offset value = value
read_bytes_le (suc left) byte payload offset value =
    read_bytes_le left (byte + 1) payload offset
      (bit_or value (byte_at payload (offset + byte) <<< (byte * 8)))

abbrev pub read_u32_le : List ℕ → ℕ → ℕ
read_u32_le payload offset = read_bytes_le 4 0 payload offset 0

abbrev pub read_u64_le : List ℕ → ℕ → ℕ
read_u64_le payload offset = read_bytes_le 8 0 payload offset 0

abbrev pub decode_temperature : ℕ → ℤ
decode_temperature encoded = if leb encoded 0x7fff then pos encoded else negsuc (65535 - encoded)

-- The frame that `encode_telemetry` hands to `encode`.
unfoldable pub telemetry_frame : TelemetryMessage → ℕ → Frame
telemetry_frame message encoded_mode =
    let readings = message.snapshot.sensor_readings in
    let p0 = write_u64_le default_frame.payload 0 message.snapshot.uptime_ms in
    let p1 = set p0 8 encoded_mode in
    let p2 = write_u16_le p1 9 readings.battery_mv in
    let p3 = write_u16_le p2 11 (int16_to_u16 readings.board_temperature_centi_c) in
    let p4 = write_u16_le p3 13 readings.solar_current_ma in
    let p5 = write_u32_le p4 15 message.latched_fault_mask in
    record default_frame {
      message_type = MessageType.telemetry;
      payload_length = telemetry_payload_size;
      sequence = message.snapshot.sequence;
      payload = p5;
    }

abbrev not_encoded : TelemetryEncodeStatus → TelemetryEncodeResult
not_encoded status = record { status = status; frame_status = EncodeStatus.ok; frame = empty_frame }

unfoldable pub encode_telemetry : TelemetryMessage → TelemetryEncodeResult
encode_telemetry message = elim (encode_flight_mode message.snapshot.flight_mode) [
  | none ↦ not_encoded TelemetryEncodeStatus.invalid_flight_mode
  | some encoded_mode ↦
      if not (bit_and message.latched_fault_mask unknown_fault_mask == 0)
      then not_encoded TelemetryEncodeStatus.unknown_fault_bits
      else let encoded = encode (telemetry_frame message encoded_mode) in
        record {
          status =
              if not (encode_ok encoded.status)
              then TelemetryEncodeStatus.frame_encode_failure
              else TelemetryEncodeStatus.ok;
          frame_status = encoded.status;
          frame = encoded.frame;
        }
]

abbrev failed : TelemetryDecodeStatus → DecodeStatus → TelemetryDecodeResult
failed status frame_status = record {
  status = status;
  frame_status = frame_status;
  message = default_telemetry;
}

-- The message that is read from a payload whose mode and fault mask are valid.
unfoldable pub read_telemetry : Frame → FlightMode → TelemetryMessage
read_telemetry frame mode = record {
  snapshot = record {
    sequence = frame.sequence;
    uptime_ms = read_u64_le frame.payload 0;
    flight_mode = mode;
    sensor_readings = record {
      battery_mv = read_u16_le frame.payload 9;
      board_temperature_centi_c = decode_temperature (read_u16_le frame.payload 11);
      solar_current_ma = read_u16_le frame.payload 13;
    };
  };
  latched_fault_mask = read_u32_le frame.payload 15;
}

unfoldable pub decode_telemetry : List ℕ → TelemetryDecodeResult
decode_telemetry bytes =
    let decoded = decode bytes in
    let frame = decoded.frame in
    if not (decode_ok decoded.status)
    then failed TelemetryDecodeStatus.frame_decode_failure decoded.status
    else if not (frame.payload_length == telemetry_payload_size)
    then failed TelemetryDecodeStatus.incorrect_payload_length decoded.status
    else elim (decode_flight_mode (byte_at frame.payload 8)) [
      | none ↦ failed TelemetryDecodeStatus.invalid_flight_mode decoded.status
      | some mode ↦
          if not (bit_and (read_u32_le frame.payload 15) unknown_fault_mask == 0)
          then failed TelemetryDecodeStatus.unknown_fault_bits decoded.status
          else record {
            status = TelemetryDecodeStatus.ok;
            frame_status = decoded.status;
            message = read_telemetry frame mode;
          }
    ]
