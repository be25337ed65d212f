-- ===== src/FaultManager.antt =====
-- common/include/apogee/fault_manager.hpp: latched faults and the recovery count.
pub mod Invariant
pub mod Recovery
use apogee_fc.Base.{
  ℕ, ◌+◌, ◌%◌, ◌^◌, bit_or, Bool, true, false, not, u8, ltb, ◌==◌, if◌then◌else◌, Option, none,
  some,
}
use apogee_fc.FlightMode.{FlightEvent, health_confirmed, fault_detected}
use apogee_fc.Health.{HealthReport, healthy}

abbrev pub required_healthy_samples : ℕ
required_healthy_samples = 3

-- `faulted()` and `healthy_streak()` are fields.
pub record FaultManager : Type 0 where
  pub latched_fault_mask : ℕ  -- uint8
  pub healthy_streak : ℕ  -- uint8
  pub faulted : Bool

abbrev pub new : Bool → FaultManager
new initially_faulted = record {
  latched_fault_mask = 0;
  healthy_streak = 0;
  faulted = initially_faulted;
}

abbrev latch : FaultManager → HealthReport → FaultManager
latch m report = record m {
  latched_fault_mask = u8 (bit_or m.latched_fault_mask report.active_faults);
  healthy_streak = 0;
}

-- The lines after `if (!faulted_)` for a healthy report.
abbrev count_healthy : FaultManager → FaultManager × Option FlightEvent
count_healthy m =
    let streak =
      if ltb m.healthy_streak required_healthy_samples
      then u8 (m.healthy_streak + 1)
      else m.healthy_streak in
    if streak == required_healthy_samples
    then (
      record { latched_fault_mask = 0; healthy_streak = streak; faulted = false },
      some health_confirmed,
    )
    else (record m { healthy_streak = streak }, none)

unfoldable pub update : FaultManager → HealthReport → FaultManager × Option FlightEvent
unfolding healthy
update m report =
    if not (healthy report)
    then if not m.faulted
      then (record (latch m report) { faulted = true }, some fault_detected)
      else (latch m report, none)
    else if not m.faulted
    then (m, none)
    else count_healthy m

unfoldable pub latched_faults : FaultManager → HealthReport
latched_faults m = record { active_faults = m.latched_fault_mask }
