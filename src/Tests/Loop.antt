-- ===== src/Tests/Loop.antt =====
-- The flight loop on concrete arrivals.
use apogee_fc.Base.{◌^◌, ◌<◌, ◌≡◌, refl, arith, ◌++◌, true, false, inr}
use apogee_fc.FlightMode.{safe}
use apogee_fc.SensorSource.{read}
use apogee_fc.Health.{evaluate, healthy}
use apogee_fc.Frame.{DecodeStatus, span}
use apogee_fc.Command.{CommandAckDecodeStatus}
use apogee_fc.Command.Ack.{encode_command_ack, decode_command_ack}
use apogee_fc.CommandProcessor.{process}
use apogee_fc.TelemetryCodec.{TelemetryDecodeStatus, encode_telemetry, decode_telemetry}
use apogee_fc.Flight.{start, drain, round, rounds, sample}
use apogee_fc.Flight.Invariant.{IsFlying, AllBytes, start-IsFlying, flight-IsFlying}
use apogee_fc.Flight.Timing.{IsClock, IsAhead, flight-IsAhead}
use apogee_fc.Flight.Safety.{reported, sample_unhealthy, sample-reported}
use apogee_fc.Flight.Dialogue.{command_answered}
use apogee_fc.Stream.Ready.{IsReady, initial-IsReady}
use apogee_fc.Tests.Data.{
  set_period, ping_bytes, set_period_bytes, clock, booted, arrivals, nominal_flight,
}
use apogee_fc.Tests.Codecs.{ping_sound, set_period_sound, set_period-IsMessage}

clock-IsClock : IsClock clock
clock-IsClock n = omega arith

arrivals-AllBytes : AllBytes arrivals
arrivals-AllBytes = (set_period_sound.0, ((omega arith, ping_sound.0), tt))

booted-IsFlying : IsFlying (start clock true)
booted-IsFlying = start-IsFlying clock true

nominal_flight-IsFlying : IsFlying nominal_flight
unfolding start
nominal_flight-IsFlying = record {
  governed = record { booted = inr refl; period_low = omega arith; period_high = omega arith };
  consistent = grind arith;
  nominal_unfaulted = λ h. refl;
  decoder = initial-IsReady;
  sensor = omega arith;
}

fourth_unhealthy : healthy (evaluate (read nominal_flight.sensor_source).1) ≡ false
unfolding healthy evaluate read
fourth_unhealthy = refl

pub booted_ready : (start clock true).link.ready ≡ true
unfolding start
booted_ready = refl

pub booted_empty : (start clock true).stream_decoder.size ≡ 0
unfolding start
booted_empty = refl

pub booted_decoder : IsReady (start clock true).stream_decoder
unfolding start
booted_decoder = initial-IsReady

booted_sequence : (start clock true).telemetry_collector.next_sequence < 2 ^ 32
unfolding start
booted_sequence = omega arith

command_answered_example :
    let s' = drain clock set_period_bytes booted in
    let (processor, ack) = process booted.processor set_period in
    (s'.processor ≡ processor)
    × (s'.link.sent ≡ booted.link.sent ++ span (encode_command_ack ack).frame)
    × (decode_command_ack (span (encode_command_ack ack).frame) ≡ record {
      status = CommandAckDecodeStatus.ok;
      frame_status = DecodeStatus.ok;
      message = ack;
    })
    × (s'.stream_decoder.size ≡ 0)
command_answered_example =
    command_answered clock booted set_period 3 booted-IsFlying booted_ready booted_empty
      set_period-IsMessage refl

flight-IsFlying_example : IsFlying (rounds clock arrivals (start clock true))
flight-IsFlying_example = flight-IsFlying clock true arrivals arrivals-AllBytes

flight-IsAhead_example :
    let s = rounds clock arrivals (start clock true) in
    IsAhead (clock (drain clock ping_bytes s).clock_reads) (round clock ping_bytes s)
flight-IsAhead_example =
    flight-IsAhead clock true arrivals ping_bytes clock-IsClock arrivals-AllBytes ping_sound.0

sample_unhealthy_example :
    ((sample 4000 nominal_flight).processor.state_machine.mode ≡ safe)
    × ((sample 4000 nominal_flight).fault_manager.faulted ≡ true)
sample_unhealthy_example =
    sample_unhealthy 4000 nominal_flight nominal_flight-IsFlying fourth_unhealthy

sample-reported_example :
    ((sample 4000 booted).link.sent
      ≡ booted.link.sent ++ span (encode_telemetry (reported 4000 booted)).frame)
    × (decode_telemetry (span (encode_telemetry (reported 4000 booted)).frame) ≡ record {
      status = TelemetryDecodeStatus.ok;
      frame_status = DecodeStatus.ok;
      message = reported 4000 booted;
    })
sample-reported_example =
    sample-reported 4000 booted booted-IsFlying booted_ready (omega arith) booted_sequence
