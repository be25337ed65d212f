-- ===== src/Telemetry.antt =====
-- common/include/apogee/telemetry.hpp: readings, snapshots and the collector that numbers them.
use apogee_fc.Base.{ℕ, ◌+◌, ◌^◌, ◌<◌, u32}
use apogee_fc.Base.Int.{ℤ, IsInt16}
use apogee_fc.FlightMode.{FlightMode}

pub record SensorReadings : Type 0 where
  pub battery_mv : ℕ  -- uint16
  pub board_temperature_centi_c : ℤ  -- int16
  pub solar_current_ma : ℕ  -- uint16

pub record TelemetrySnapshot : Type 0 where
  pub sequence : ℕ  -- uint32
  pub uptime_ms : ℕ  -- uint64
  pub flight_mode : FlightMode
  pub sensor_readings : SensorReadings

-- The ranges of the fields' types.
pub record AreReadings (r : SensorReadings) : Type 0 where
  pub battery : r.battery_mv < 2 ^ 16
  pub temperature : IsInt16 r.board_temperature_centi_c
  pub current : r.solar_current_ma < 2 ^ 16

pub record TelemetryCollector : Type 0 where
  pub next_sequence : ℕ  -- uint32

unfoldable pub capture :
    TelemetryCollector → ℕ → FlightMode → SensorReadings → TelemetryCollector × TelemetrySnapshot
capture c uptime_ms flight_mode sensor_readings = (
  record c { next_sequence = u32 (c.next_sequence + 1) },
  record {
    sequence = c.next_sequence;
    uptime_ms = uptime_ms;
    flight_mode = flight_mode;
    sensor_readings = sensor_readings;
  },
)
