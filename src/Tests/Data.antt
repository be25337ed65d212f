-- ===== src/Tests/Data.antt =====
-- Messages, frames and states for the tests.
use apogee_fc.Base.{ℕ, ◌*◌, List, [], ◌∷◌, Bool, true, replicate}
use apogee_fc.Base.Int.{ℤ}
use apogee_fc.FlightMode.{nominal, safe}
use apogee_fc.Telemetry.{SensorReadings}
use apogee_fc.Frame.{Frame, default_frame, span}
use apogee_fc.Command.{CommandMessage, CommandAckMessage, CommandId, CommandAckStatus}
use apogee_fc.Command.Codec.{encode_command}
use apogee_fc.TelemetryCodec.{TelemetryMessage}
use apogee_fc.Flight.{Flight, start}

abbrev pub ping : CommandMessage
ping = record { sequence = 6; command = CommandId.ping; period_ms = 0 }

abbrev pub set_period : CommandMessage
set_period = record { sequence = 7; command = CommandId.set_telemetry_period; period_ms = 500 }

abbrev pub too_slow : CommandMessage
too_slow = record { sequence = 8; command = CommandId.set_telemetry_period; period_ms = 10001 }

abbrev pub refusal : CommandAckMessage
refusal = record {
  sequence = 8;
  command = CommandId.set_telemetry_period;
  status = CommandAckStatus.invalid_argument;
}

abbrev pub ping_bytes : List ℕ
ping_bytes = span (encode_command ping).frame

abbrev pub set_period_bytes : List ℕ
set_period_bytes = span (encode_command set_period).frame

-- Three payload bytes, and a fourth behind the payload.
abbrev pub small_frame : Frame
small_frame = record default_frame {
  payload_length = 3;
  sequence = 305419896;
  payload = 0xa5 ∷ 0x5a ∷ 1 ∷ 9 ∷ replicate 60 0;
}

abbrev pub cold : SensorReadings
cold = record { battery_mv = 6500; board_temperature_centi_c = ℤ.negsuc 1499; solar_current_ma = 0 }

abbrev pub cold_telemetry : TelemetryMessage
cold_telemetry = record {
  snapshot = record {
    sequence = 41;
    uptime_ms = 5000000000;
    flight_mode = safe;
    sensor_readings = cold;
  };
  latched_fault_mask = 3;
}

-- A reading of the clock every 600 ms.
abbrev pub clock : ℕ → ℕ
clock n = 600 * n

abbrev pub booted : Flight
booted = start clock true

-- The bytes of two rounds: a command, and a command after noise.
abbrev pub arrivals : List (List ℕ)
arrivals = set_period_bytes ∷ (0 ∷ ping_bytes) ∷ []

-- The nominal mode, before the fourth sample, whose battery is below the limit.
abbrev pub nominal_flight : Flight
nominal_flight = record booted {
  processor = record (booted.processor) { state_machine = record { mode = nominal } };
  sensor_source = record { next_sample = 3 };
  fault_manager = record { latched_fault_mask = 0; healthy_streak = 3; faulted = Bool.false };
}
