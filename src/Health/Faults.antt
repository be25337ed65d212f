-- ===== src/Health/Faults.antt =====
-- What a health report says of the readings.
use apogee_fc.Base.{◌<◌, true, ◌≡◌, ◌↔◌, arith}
use apogee_fc.Base.Int.{◌<ℤ◌}
use apogee_fc.Telemetry.{SensorReadings}
use apogee_fc.Health.{
  Fault, battery_undervoltage, board_undertemperature, board_overtemperature, healthy, has_fault,
  evaluate, minimum_battery_mv, minimum_temperature_centi_c, maximum_temperature_centi_c,
}

-- The limit that a fault stands for is violated by the readings.
abbrev pub Violates : SensorReadings → Fault → Type 0
Violates r battery_undervoltage = r.battery_mv < minimum_battery_mv
Violates r board_undertemperature = r.board_temperature_centi_c <ℤ minimum_temperature_centi_c
Violates r board_overtemperature = maximum_temperature_centi_c <ℤ r.board_temperature_centi_c

-- A report of `evaluate` has a fault exactly if the readings violate that fault's limit.
pub has_fault-evaluate :
    (r : SensorReadings) (f : Fault) → (has_fault (evaluate r) f ≡ true) ↔ Violates r f
unfolding has_fault evaluate
has_fault-evaluate r f = ground arith

healthy_no_fault : (r : SensorReadings) (f : Fault) → healthy (evaluate r) ≡ true → ¬ Violates r f
unfolding healthy evaluate
healthy_no_fault r f h v = ground arith

-- A report of `evaluate` is healthy exactly if no fault's limit is violated.
pub healthy-evaluate :
    (r : SensorReadings) → (healthy (evaluate r) ≡ true) ↔ ((f : Fault) → ¬ Violates r f)
unfolding healthy evaluate
healthy-evaluate r = (
  λ h f v. healthy_no_fault r f h v,
  λ ok.
      ground (arith, ok battery_undervoltage, ok board_undertemperature, ok board_overtemperature),
)

-- The mask of a report uses the three known bits only.
pub active_faults-lt : (r : SensorReadings) → (evaluate r).active_faults < 8
unfolding evaluate
active_faults-lt r = ground arith
