-- ===== src/Flight/Safety.antt =====
-- Faults and telemetry in one sample.
use apogee_fc.Base.{ℕ, ◌<◌, ◌^◌, ◌≡◌, inl, inr, refl, ap, ◌∙◌, arith, ◌++◌, true, false, some}
use apogee_fc.FlightMode.{FlightMode, safe, nominal, FlightModeStateMachine, dispatch}
use apogee_fc.FlightMode.Graph.{HasBooted}
use apogee_fc.Telemetry.{capture}
use apogee_fc.SensorSource.{read}
use apogee_fc.Health.{HealthReport, healthy, evaluate}
use apogee_fc.FaultManager.{FaultManager, update, latched_faults}
use apogee_fc.Frame.{span}
use apogee_fc.TelemetryCodec.{
  TelemetryMessage, TelemetryEncodeStatus, TelemetryDecodeStatus, encode_telemetry,
  decode_telemetry, encode_flight_mode,
}
use apogee_fc.TelemetryCodec.RoundTrip.{IsTelemetry, decode_telemetry-encode_telemetry}
use apogee_fc.SensorSource.Cycle.{read-AreReadings}
use apogee_fc.Frame.{DecodeStatus}
use apogee_fc.Flight.{Flight, TelemetryLink, dispatch_event, sample, send_telemetry}
use apogee_fc.Flight.Invariant.{IsFlying, sample-IsFlying}

unhealthy_safe :
    (manager : FaultManager) (report : HealthReport) (machine : FlightModeStateMachine)
    → HasBooted machine.mode
    → (machine.mode ≡ nominal → manager.faulted ≡ false)
    → healthy report ≡ false
    → (dispatch_event (update manager report).1 machine).mode ≡ safe
unfolding update dispatch
unhealthy_safe manager report machine b h bad = ground arith

update_unhealthy :
    (manager : FaultManager) (report : HealthReport)
    → healthy report ≡ false
    → (update manager report).0.faulted ≡ true
unfolding update
update_unhealthy manager report bad = ground arith

-- In a state that satisfies `IsFlying`, a sample with unhealthy readings ends in the safe mode, with
-- the fault pending.
pub sample_unhealthy :
    (now : ℕ) (s : Flight)
    → IsFlying s
    → healthy (evaluate (read s.sensor_source).1) ≡ false
    → ((sample now s).processor.state_machine.mode ≡ safe)
      × ((sample now s).fault_manager.faulted ≡ true)
unfolding sample
sample_unhealthy now s h bad = (
  unhealthy_safe s.fault_manager (evaluate (read s.sensor_source).1) s.processor.state_machine
      h.governed.booted h.nominal_unfaulted bad,
  update_unhealthy s.fault_manager (evaluate (read s.sensor_source).1) bad,
)

-- The message that a sample sends.
abbrev pub reported : ℕ → Flight → TelemetryMessage
reported now s =
    let s' = sample now s in
    record {
      snapshot = record {
        sequence = s.telemetry_collector.next_sequence;
        uptime_ms = now;
        flight_mode = s'.processor.state_machine.mode;
        sensor_readings = (read s.sensor_source).1;
      };
      latched_fault_mask = s'.fault_manager.latched_fault_mask;
    }

pub reported-sent :
    (now : ℕ) (s : Flight) → (sample now s).link ≡ send_telemetry (reported now s) s.link
unfolding sample capture latched_faults
reported-sent now s = refl

pub reported-IsTelemetry :
    (now : ℕ) (s : Flight)
    → IsFlying s
    → now < 2 ^ 64
    → s.telemetry_collector.next_sequence < 2 ^ 32
    → IsTelemetry (reported now s)
reported-IsTelemetry now s h t q = record {
  sequence_fits = q;
  uptime_fits = t;
  readings = read-AreReadings s.sensor_source;
  known_faults = (sample-IsFlying now s h).consistent.known;
}

pub mode_code : (m : FlightMode) → HasBooted m → (k : ℕ) × (encode_flight_mode m ≡ some k)
mode_code m (inl e) = (1, ap encode_flight_mode e)
mode_code m (inr e) = (2, ap encode_flight_mode e)

send_telemetry-ok :
    (m : TelemetryMessage) (link : TelemetryLink)
    → link.ready ≡ true
    → (encode_telemetry m).status ≡ TelemetryEncodeStatus.ok
    → (send_telemetry m link).sent ≡ link.sent ++ span (encode_telemetry m).frame
unfolding send_telemetry
send_telemetry-ok m link r e = rw (e, r)

-- In a state that satisfies `IsFlying`, with a ready UART, a time below 2^64 and a sequence number
-- below 2^32, a sample sends exactly one telemetry frame, and the ground reads from it the sequence
-- number, the time, the mode and the latched faults after the sample, and the readings.
pub sample-reported :
    (now : ℕ) (s : Flight)
    → IsFlying s
    → s.link.ready ≡ true
    → now < 2 ^ 64
    → s.telemetry_collector.next_sequence < 2 ^ 32
    → ((sample now s).link.sent ≡ s.link.sent ++ span (encode_telemetry (reported now s)).frame)
      × (decode_telemetry (span (encode_telemetry (reported now s)).frame) ≡ record {
        status = TelemetryDecodeStatus.ok;
        frame_status = DecodeStatus.ok;
        message = reported now s;
      })
sample-reported now s h r t q =
    let (k, e) =
      mode_code (sample now s).processor.state_machine.mode
        (sample-IsFlying now s h).governed.booted in
    let trip =
      decode_telemetry-encode_telemetry (reported now s) k (reported-IsTelemetry now s h t q) e in
    (
      ap (λ l. l.sent) (reported-sent now s) ∙ send_telemetry-ok (reported now s) s.link r trip.0,
      trip.1,
    )
