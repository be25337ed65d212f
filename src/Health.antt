-- ===== src/Health.antt =====
-- common/include/apogee/health.hpp: faults, health reports and the health monitor.
pub mod Faults
use apogee_fc.Base.{ℕ, bit_and, bit_or, Bool, not, u8, ltb, ◌==◌, if◌then◌else◌}
use apogee_fc.Base.Int.{ℤ, pos, negsuc, ltb_ℤ}
use apogee_fc.Telemetry.{SensorReadings}

pub data Fault : Type 0 where
  battery_undervoltage board_undertemperature board_overtemperature : Fault

-- The value of the enumerator.
abbrev pub bit : Fault → ℕ
bit battery_undervoltage = 1
bit board_undertemperature = 2
bit board_overtemperature = 4

-- `fault_mask()` is the field.
pub record HealthReport : Type 0 where
  pub active_faults : ℕ  -- uint8

unfoldable pub healthy : HealthReport → Bool
healthy r = r.active_faults == 0

unfoldable pub has_fault : HealthReport → Fault → Bool
has_fault r fault = not (bit_and r.active_faults (bit fault) == 0)

abbrev pub minimum_battery_mv : ℕ
minimum_battery_mv = 7000

abbrev pub minimum_temperature_centi_c : ℤ
minimum_temperature_centi_c = negsuc 999

abbrev pub maximum_temperature_centi_c : ℤ
maximum_temperature_centi_c = pos 6000

abbrev add_fault : ℕ → Fault → ℕ
add_fault active_faults fault = u8 (bit_or active_faults (bit fault))

unfoldable pub evaluate : SensorReadings → HealthReport
evaluate r =
    let none_yet : ℕ = 0 in
    let a =
      if ltb r.battery_mv minimum_battery_mv
      then add_fault none_yet battery_undervoltage
      else none_yet in
    let b =
      if ltb_ℤ r.board_temperature_centi_c minimum_temperature_centi_c
      then add_fault a board_undertemperature
      else a in
    let c =
      if ltb_ℤ maximum_temperature_centi_c r.board_temperature_centi_c
      then add_fault b board_overtemperature
      else b in
    record { active_faults = c }
