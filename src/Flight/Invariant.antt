-- ===== src/Flight/Invariant.antt =====
-- What holds of the flight computer between two rounds of its loop.
use apogee_fc.Base.{
  ℕ, suc, ◌≤◌, ◌<◌, ◌≡◌, arith, List, [], ◌∷◌, Bool, true, false, not, Option, leb, if◌then◌else◌,
  AreBytes, length,
}
use apogee_fc.FlightMode.{nominal, FlightModeStateMachine, FlightEvent, dispatch}
use apogee_fc.FlightMode.Graph.{HasBooted}
use apogee_fc.SensorSource.{samples, read}
use apogee_fc.SensorSource.Cycle.{read_in_range}
use apogee_fc.Health.{HealthReport, evaluate}
use apogee_fc.Health.Faults.{active_faults-lt}
use apogee_fc.FaultManager.{FaultManager, update}
use apogee_fc.FaultManager.Invariant.{IsConsistent, update-IsConsistent, new-IsConsistent}
use apogee_fc.Command.{CommandMessage}
use apogee_fc.CommandProcessor.{CommandProcessor, process}
use apogee_fc.Stream.{FrameStreamDecoder, FrameStreamEvent, push}
use apogee_fc.Stream.Ready.{IsReady, initial-IsReady}
use apogee_fc.Stream.Push.{push-Keeps}
use apogee_fc.Flight.{
  Flight, dispatch_event, sample, obey, handle_stream_event, handle_all, drain_bytes, drain, round,
  rounds, start, is_frame_decoded, command_ok,
}
use apogee_fc.Command.Codec.{decode_command}
use apogee_fc.Frame.{span}

-- The state machine and the configuration, which commands change.
pub record IsGoverned (p : CommandProcessor) : Type 0 where
  pub booted : HasBooted p.state_machine.mode
  pub period_low : 250 ≤ p.configuration.telemetry_period_ms
  pub period_high : p.configuration.telemetry_period_ms ≤ 10000

pub record IsFlying (s : Flight) : Type 0 where
  pub governed : IsGoverned s.processor
  pub consistent : IsConsistent s.fault_manager
  pub nominal_unfaulted : s.processor.state_machine.mode ≡ nominal → s.fault_manager.faulted ≡ false
  pub decoder : IsReady s.stream_decoder
  pub sensor : s.sensor_source.next_sample < length samples

process-IsGoverned :
    (p : CommandProcessor) (c : CommandMessage) → IsGoverned p → IsGoverned (process p c).0
unfolding process
process-IsGoverned p c h = ground arith

process_not_nominal :
    (p : CommandProcessor) (c : CommandMessage)
    → (process p c).0.state_machine.mode ≡ nominal
    → p.state_machine.mode ≡ nominal
unfolding process
process_not_nominal p c h = ground arith

dispatch_event-HasBooted :
    (e : Option FlightEvent) (machine : FlightModeStateMachine)
    → HasBooted machine.mode
    → HasBooted (dispatch_event e machine).mode
unfolding dispatch
dispatch_event-HasBooted e machine h = ground arith

update_nominal :
    (manager : FaultManager) (report : HealthReport) (machine : FlightModeStateMachine)
    → (machine.mode ≡ nominal → manager.faulted ≡ false)
    → (dispatch_event (update manager report).1 machine).mode ≡ nominal
    → (update manager report).0.faulted ≡ false
unfolding update dispatch
update_nominal manager report machine h k = ground arith

pub start-IsFlying : (clock : ℕ → ℕ) (uart_ready : Bool) → IsFlying (start clock uart_ready)
unfolding start dispatch
start-IsFlying clock uart_ready = record {
  governed = ground arith;
  consistent = new-IsConsistent true;
  nominal_unfaulted = λ h. cc;
  decoder = initial-IsReady;
  sensor = omega arith;
}

pub sample-IsFlying : (now : ℕ) (s : Flight) → IsFlying s → IsFlying (sample now s)
unfolding sample
sample-IsFlying now s h = record {
  governed = record {
    booted =
        dispatch_event-HasBooted (update s.fault_manager (evaluate (read s.sensor_source).1)).1
          s.processor.state_machine h.governed.booted;
    period_low = h.governed.period_low;
    period_high = h.governed.period_high;
  };
  consistent =
      update-IsConsistent s.fault_manager (evaluate (read s.sensor_source).1)
        (active_faults-lt (read s.sensor_source).1) h.consistent;
  nominal_unfaulted =
      update_nominal s.fault_manager (evaluate (read s.sensor_source).1) s.processor.state_machine
        h.nominal_unfaulted;
  decoder = h.decoder;
  sensor = read_in_range s.sensor_source h.sensor;
}

choose-IsFlying :
    (b : Bool) (x y : Flight) → IsFlying x → IsFlying y → IsFlying (if b then x else y)
choose-IsFlying true x y p q = p
choose-IsFlying false x y p q = q

with_decoder :
    (s : Flight) (d : FrameStreamDecoder)
    → IsFlying s
    → IsReady d
    → IsFlying (record s { stream_decoder = d })
with_decoder s d h r = record {
  governed = h.governed;
  consistent = h.consistent;
  nominal_unfaulted = h.nominal_unfaulted;
  decoder = r;
  sensor = h.sensor;
}

pub with_reads : (s : Flight) → IsFlying s → IsFlying (record s { clock_reads = suc s.clock_reads })
with_reads s h = record {
  governed = h.governed;
  consistent = h.consistent;
  nominal_unfaulted = h.nominal_unfaulted;
  decoder = h.decoder;
  sensor = h.sensor;
}

abbrev pub AllBytes : List (List ℕ) → Type 0
AllBytes [] = Unit
AllBytes (bytes ∷ later) = AreBytes bytes × AllBytes later

module _ (clock : ℕ → ℕ) where
  pub obey-IsFlying : (c : CommandMessage) (s : Flight) → IsFlying s → IsFlying (obey clock c s)
  unfolding obey
  obey-IsFlying c s h = record {
    governed = process-IsGoverned s.processor c h.governed;
    consistent = h.consistent;
    nominal_unfaulted = λ e. h.nominal_unfaulted (process_not_nominal s.processor c e);
    decoder = h.decoder;
    sensor = h.sensor;
  }

  handle_stream_event-IsFlying :
      (e : FrameStreamEvent) (s : Flight) → IsFlying s → IsFlying (handle_stream_event clock e s)
  unfolding handle_stream_event
  handle_stream_event-IsFlying e s h = choose-IsFlying (not (is_frame_decoded e.status)) s _ h (
      choose-IsFlying (not (command_ok (decode_command (span e.frame)).status)) s _ h
        (obey-IsFlying (decode_command (span e.frame)).message s h))

  handle_all-IsFlying :
      (es : List FrameStreamEvent) (s : Flight) → IsFlying s → IsFlying (handle_all clock es s)
  unfolding handle_all
  handle_all-IsFlying [] s h = h
  handle_all-IsFlying (e ∷ es) s h =
      handle_all-IsFlying es (handle_stream_event clock e s) (handle_stream_event-IsFlying e s h)

  drain_bytes-IsFlying :
      (bytes : List ℕ) (s : Flight)
      → AreBytes bytes
      → IsFlying s
      → IsFlying (drain_bytes clock bytes s)
  unfolding drain_bytes
  drain_bytes-IsFlying [] s b h = h
  drain_bytes-IsFlying (byte ∷ bytes) s b h =
      let pushed = push (byte ∷ []) s.stream_decoder in
      let decoder = (push-Keeps (byte ∷ []) s.stream_decoder h.decoder (b.0, tt)).ready in
      drain_bytes-IsFlying bytes
        (handle_all clock pushed.1 (record s { stream_decoder = pushed.0 })) b.1
        (handle_all-IsFlying pushed.1 (record s { stream_decoder = pushed.0 })
          (with_decoder s pushed.0 h decoder))

  pub drain-IsFlying :
      (bytes : List ℕ) (s : Flight) → AreBytes bytes → IsFlying s → IsFlying (drain clock bytes s)
  unfolding drain
  drain-IsFlying bytes s b h =
      choose-IsFlying (not s.link.ready) s (drain_bytes clock bytes s) h
        (drain_bytes-IsFlying bytes s b h)

  -- A round of the loop, whatever bytes arrive and whatever the clock says, keeps the invariant.
  pub round-IsFlying :
      (bytes : List ℕ) (s : Flight) → AreBytes bytes → IsFlying s → IsFlying (round clock bytes s)
  unfolding round
  round-IsFlying bytes s b h =
      let drained = drain clock bytes s in
      let timed = record drained { clock_reads = suc drained.clock_reads } in
      let kept = with_reads drained (drain-IsFlying bytes s b h) in
      choose-IsFlying (leb drained.next_telemetry_deadline (clock drained.clock_reads))
        (sample (clock drained.clock_reads) timed) timed
        (sample-IsFlying (clock drained.clock_reads) timed kept) kept

  rounds-IsFlying :
      (arrivals : List (List ℕ)) (s : Flight)
      → AllBytes arrivals
      → IsFlying s
      → IsFlying (rounds clock arrivals s)
  unfolding rounds
  rounds-IsFlying [] s b h = h
  rounds-IsFlying (bytes ∷ later) s b h =
      rounds-IsFlying later (round clock bytes s) b.1 (round-IsFlying bytes s b.0 h)

-- From boot on, after any number of rounds, with any bytes at the UART and any clock, the mode is
-- safe or nominal, nominal only if no fault is pending, the telemetry period lies between 250 and
-- 10000 ms, the fault manager is consistent, the stream decoder is ready for the next byte, and the
-- next sensor sample is one of the eight.
pub flight-IsFlying :
    (clock : ℕ → ℕ) (uart_ready : Bool) (arrivals : List (List ℕ))
    → AllBytes arrivals
    → IsFlying (rounds clock arrivals (start clock uart_ready))
flight-IsFlying clock uart_ready arrivals b =
    rounds-IsFlying clock arrivals (start clock uart_ready) b (start-IsFlying clock uart_ready)
