-- ===== src/Tests/Terminal.antt =====
-- What the operator types and reads, on concrete text.
use apogee_fc.Base.{◌≡◌, ◌++◌, refl, arith, [], ◌∷◌, codes}
use apogee_fc.Command.{set_telemetry_period}
use apogee_fc.Stream.Delivery.{joined}
use apogee_fc.Command.Known.{AreKnown, command_frames, ack_frames}
use apogee_fc.Flight.{drain}
use apogee_fc.Flight.Answers.{answers, drain-Answered}
use apogee_fc.Ground.{telemetry}
use apogee_fc.Ground.Sequencer.{CommandSequencer, parse}
use apogee_fc.Ground.Sequencer.Lines.{request, Spelled, period_text, granted, parse-Spelled}
use apogee_fc.Ground.Sequencer.Grammar.{Reading, parse-Reading}
use apogee_fc.Ground.Text.Unique.{line_text_unique}
use apogee_fc.Tests.Data.{ping, set_period, clock, booted, cold_telemetry}
use apogee_fc.Tests.Codecs.{ping-IsMessage, set_period-IsMessage}
use apogee_fc.Tests.Loop.{booted_ready, booted_decoder, booted_empty}

-- The last sequence number before they start again from 0.
abbrev last_number : CommandSequencer
last_number = record { next_sequence = 4294967295 }

Spelled-period : Spelled (codes "period 0500") (request set_telemetry_period 500)
Spelled-period = period_text (codes " ") (codes "0500") (refl, tt) tt (omega arith) (omega arith)

parse-Spelled_example :
    parse (codes "  " ++ (codes "period 0500" ++ codes "\t")) last_number
    ≡ granted (request set_telemetry_period 500) last_number
parse-Spelled_example =
    parse-Spelled (codes "  ") (codes "period 0500") (codes "\t") (request set_telemetry_period 500)
      last_number (refl, (refl, tt)) (refl, tt) Spelled-period

parse-Reading_example : Reading (codes "period 500 ms") last_number
parse-Reading_example = parse-Reading (codes "period 500 ms") last_number

line_text_unique_example : telemetry cold_telemetry ≡ telemetry cold_telemetry
line_text_unique_example =
    line_text_unique (telemetry cold_telemetry) (telemetry cold_telemetry) (1, refl) (1, refl) refl

two_known : AreKnown (ping ∷ set_period ∷ [])
two_known = (
  record { message = ping-IsMessage; id = (1, refl) },
  (record { message = set_period-IsMessage; id = (3, refl) }, tt),
)

drain-Answered_example :
    let s' = drain clock (joined (command_frames (ping ∷ set_period ∷ []))) booted in
    let (processor, acks) = answers booted.processor (ping ∷ set_period ∷ []) in
    (s'.processor ≡ processor)
    × (s'.link.sent ≡ booted.link.sent ++ joined (ack_frames acks))
    × (s'.stream_decoder.size ≡ 0)
drain-Answered_example =
    drain-Answered clock (ping ∷ set_period ∷ []) booted two_known booted_ready booted_decoder
      booted_empty
