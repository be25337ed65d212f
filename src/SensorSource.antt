-- ===== src/SensorSource.antt =====
-- common/include/apogee/sensor_source.hpp: the simulated sensors. The interface `SensorSource` has
-- this one implementation.
pub mod Cycle
use apogee_fc.Base.{
  ℕ, zero, suc, ◌+◌, ◌%◌, ◌^◌, ◌<◌, ◌≤◌, ◌≡◌, arith, List, [], ◌∷◌, get_or, ◌==◌, if◌then◌else◌, u8,
}
use apogee_fc.Base.Int.{pos}
use apogee_fc.Telemetry.{SensorReadings, AreReadings}

abbrev reading : ℕ → ℕ → ℕ → SensorReadings
reading battery temperature current = record {
  battery_mv = battery;
  board_temperature_centi_c = pos temperature;
  solar_current_ma = current;
}

abbrev pub samples : List SensorReadings
samples =
    reading 7400 2200 320
    ∷ reading 7380 2250 340
    ∷ reading 7360 2300 360
    ∷ reading 6900 2400 300
    ∷ reading 6800 6100 280
    ∷ reading 7340 2350 320
    ∷ reading 7320 2400 340
    ∷ reading 7300 2450 360
    ∷ []

abbrev pub sample_count : ℕ
sample_count = 8

pub record SimulatedSensorSource : Type 0 where
  pub next_sample : ℕ  -- uint8

abbrev pub initial : SimulatedSensorSource
initial = record { next_sample = 0 }

-- `samples_[i]` for an index in range; `read_in_range` shows that no other index is read.
unfoldable pub read : SimulatedSensorSource → SimulatedSensorSource × SensorReadings
read s =
    let result = get_or samples s.next_sample (reading 0 0 0) in
    let next = u8 (s.next_sample + 1) in
    (record s { next_sample = if next == sample_count then 0 else next }, result)

-- The next `n` readings.
unfoldable pub read_many : ℕ → SimulatedSensorSource → List SensorReadings
read_many zero s = []
read_many (suc n) s = let (s', r) = read s in r ∷ read_many n s'
