-- ===== src/Flight.antt =====
-- flight/src/main.cpp: the flight loop. Log output is left out. `uart_poll_out` appends to `sent`,
-- the bytes that `uart_poll_in` yields in one call of `drain` are a list, and the n-th value of
-- `k_uptime_get` is `clock n`; times are not negative, so an `std::int64_t` time is a number.
pub mod Deadline
pub mod Invariant
pub mod Timing
pub mod Safety
pub mod Dialogue
pub mod Answers
use apogee_fc.Base.{
  ℕ, zero, suc, ◌+◌, ◌-◌, ◌≤◌, List, [], ◌∷◌, ◌++◌, Bool, true, false, not, ◌&&◌, leb,
  if◌then◌else◌, Option, none, some,
}
use apogee_fc.FlightMode
use apogee_fc.FlightMode.{FlightMode, FlightModeStateMachine, FlightEvent, dispatch, boot_completed}
use apogee_fc.Telemetry.{TelemetryCollector, SensorReadings, TelemetrySnapshot, capture}
use apogee_fc.SensorSource
use apogee_fc.SensorSource.{SimulatedSensorSource, read}
use apogee_fc.Health.{HealthReport, evaluate}
use apogee_fc.FaultManager
use apogee_fc.FaultManager.{FaultManager, update, latched_faults}
use apogee_fc.Frame.{EncodedFrame, span}
use apogee_fc.Command.{
  CommandId, CommandMessage, CommandAckStatus, CommandAckMessage, CommandDecodeStatus,
  CommandAckEncodeStatus, is_set_period,
}
use apogee_fc.Command.Codec.{decode_command}
use apogee_fc.Command.Ack.{encode_command_ack}
use apogee_fc.CommandProcessor.{
  CommandProcessor, FlightConfiguration, default_configuration, process,
}
use apogee_fc.TelemetryCodec.{TelemetryMessage, TelemetryEncodeStatus, encode_telemetry}
use apogee_fc.Stream
use apogee_fc.Stream.{FrameStreamDecoder, FrameStreamEvent, FrameStreamStatus, push}

-- The UART behind `TelemetryLink`: the flag of the constructor, and what has been sent.
pub record TelemetryLink : Type 0 where
  pub ready : Bool
  pub sent : List ℕ

-- The local variables of `main`. `processor` holds the state machine and the configuration;
-- `clock_reads` counts the calls of `k_uptime_get`.
pub record Flight : Type 0 where
  pub link : TelemetryLink
  pub processor : CommandProcessor
  pub sensor_source : SimulatedSensorSource
  pub telemetry_collector : TelemetryCollector
  pub fault_manager : FaultManager
  pub stream_decoder : FrameStreamDecoder
  pub next_telemetry_deadline : ℕ
  pub clock_reads : ℕ

unfoldable pub transmit : EncodedFrame → TelemetryLink → TelemetryLink × Bool
transmit frame link =
    if not link.ready then (link, false) else (record link { sent = link.sent ++ span frame }, true)

abbrev pub is_accepted : CommandAckStatus → Bool
is_accepted CommandAckStatus.accepted = true
is_accepted _ = false

abbrev pub command_ok : CommandDecodeStatus → Bool
command_ok CommandDecodeStatus.ok = true
command_ok _ = false

abbrev pub ack_ok : CommandAckEncodeStatus → Bool
ack_ok CommandAckEncodeStatus.ok = true
ack_ok _ = false

abbrev pub telemetry_ok : TelemetryEncodeStatus → Bool
telemetry_ok TelemetryEncodeStatus.ok = true
telemetry_ok _ = false

abbrev pub is_frame_decoded : FrameStreamStatus → Bool
is_frame_decoded FrameStreamStatus.frame_decoded = true
is_frame_decoded _ = false

-- The end of `handle_stream_event`: the acknowledgement goes out if it can be encoded.
unfoldable pub send_ack : CommandAckMessage → TelemetryLink → TelemetryLink
unfolding transmit
send_ack ack link =
    let encoded_ack = encode_command_ack ack in
    if not (ack_ok encoded_ack.status) then link else (transmit encoded_ack.frame link).0

-- The loop `do … while (next_telemetry_deadline <= now)`; `Flight.Deadline` shows that the fuel
-- `suc (now - deadline)` is enough.
unfoldable pub advance : ℕ → ℕ → ℕ → ℕ → ℕ
advance zero period now deadline = deadline
advance (suc fuel) period now deadline =
    let rest = advance fuel period now (deadline + period) in
    if leb (deadline + period) now then rest else deadline + period

-- What is sent of a telemetry message.
unfoldable pub send_telemetry : TelemetryMessage → TelemetryLink → TelemetryLink
unfolding transmit
send_telemetry message link =
    let encoded = encode_telemetry message in
    if not (telemetry_ok encoded.status) then link else (transmit encoded.frame link).0

-- `if (event.has_value())`: the state machine after the fault manager's event.
abbrev pub dispatch_event : Option FlightEvent → FlightModeStateMachine → FlightModeStateMachine
dispatch_event none machine = machine
dispatch_event (some event) machine = (dispatch machine event).0

-- The body of `if (now >= next_telemetry_deadline)`.
unfoldable pub sample : ℕ → Flight → Flight
sample now s =
    let (source, readings) = read s.sensor_source in
    let report = evaluate readings in
    let (manager, event) = update s.fault_manager report in
    let machine = dispatch_event event s.processor.state_machine in
    let (collector, snapshot) = capture s.telemetry_collector now machine.mode readings in
    let message : TelemetryMessage = record {
      snapshot = snapshot;
      latched_fault_mask = (latched_faults manager).active_faults;
    } in
    record s {
      link = send_telemetry message s.link;
      processor = record (s.processor) { state_machine = machine };
      sensor_source = source;
      telemetry_collector = collector;
      fault_manager = manager;
      next_telemetry_deadline =
          advance (suc (now - s.next_telemetry_deadline))
            s.processor.configuration.telemetry_period_ms now s.next_telemetry_deadline;
    }

module _ (clock : ℕ → ℕ) where
  -- The part of `handle_stream_event` for a well-formed command.
  unfoldable pub obey : CommandMessage → Flight → Flight
  obey command s =
      let (processor, ack) = process s.processor command in
      let command_time = clock s.clock_reads in
      record s {
        processor = processor;
        clock_reads = suc s.clock_reads;
        next_telemetry_deadline =
            if is_accepted ack.status && is_set_period command.command
            then command_time + processor.configuration.telemetry_period_ms
            else s.next_telemetry_deadline;
        link = send_ack ack s.link;
      }

  unfoldable pub handle_stream_event : FrameStreamEvent → Flight → Flight
  handle_stream_event event s =
      let command = decode_command (span event.frame) in
      if not (is_frame_decoded event.status)
      then s
      else if not (command_ok command.status)
      then s
      else obey command.message s

  unfoldable pub handle_all : List FrameStreamEvent → Flight → Flight
  handle_all [] s = s
  handle_all (event ∷ events) s = handle_all events (handle_stream_event event s)

  -- The `while` of `drain`. The handler leaves the decoder alone, so the events of a byte can be
  -- handled once it is pushed.
  unfoldable pub drain_bytes : List ℕ → Flight → Flight
  drain_bytes [] s = s
  drain_bytes (byte ∷ bytes) s =
      let (decoder, events) = push (byte ∷ []) s.stream_decoder in
      drain_bytes bytes (handle_all events (record s { stream_decoder = decoder }))

  unfoldable pub drain : List ℕ → Flight → Flight
  drain bytes s = if not s.link.ready then s else drain_bytes bytes s

  -- One round of the loop, with the bytes that wait at the UART.
  unfoldable pub round : List ℕ → Flight → Flight
  round bytes s =
      let drained = drain bytes s in
      let now = clock drained.clock_reads in
      let timed = record drained { clock_reads = suc drained.clock_reads } in
      if leb timed.next_telemetry_deadline now then sample now timed else timed

  -- The state before the loop.
  unfoldable pub start : Bool → Flight
  start uart_ready =
      let (machine, _) = dispatch FlightMode.initial boot_completed in
      record {
        link = record { ready = uart_ready; sent = [] };
        processor = record { state_machine = machine; configuration = default_configuration };
        sensor_source = SensorSource.initial;
        telemetry_collector = record { next_sequence = 0 };
        fault_manager = FaultManager.new true;
        stream_decoder = Stream.initial;
        next_telemetry_deadline = clock 0 + default_configuration.telemetry_period_ms;
        clock_reads = 1;
      }

  -- The loop, over what arrives in each round.
  unfoldable pub rounds : List (List ℕ) → Flight → Flight
  rounds [] s = s
  rounds (bytes ∷ later) s = rounds later (round bytes s)
