-- ===== src/Tests/Mission.antt =====
-- Two pings, typed into a live session, on their way to the flight computer and back.
use apogee_fc.Frame.Encode.{encode, write_frame}
use apogee_fc.Command.Codec.{encode_command, command_frame}
use apogee_fc.Ground.Sequencer.{parse, trim}
use apogee_fc.Base.{◌≡◌, refl, List, ◌++◌, text_eq, starts_with, [], ◌∷◌}
use apogee_fc.Command.{CommandMessage, CommandId}
use apogee_fc.Command.Known.{command_frames, ack_frames}
use apogee_fc.Stream.Ready.{initial-IsReady}
use apogee_fc.Stream.Delivery.{joined}
use apogee_fc.Flight.{drain}
use apogee_fc.Flight.Answers.{answers}
use apogee_fc.Ground.{initial, feed}
use apogee_fc.Client.Socket.{connected, send_all, send_from, retry, wait_until_writable}
use apogee_fc.Client.Live.{Session, Step, proceed, again, waiting, exit, run_live, round}
use apogee_fc.Client.Live.Commands.{Numbered}
use apogee_fc.Ground.Sequencer
use apogee_fc.Client.Live.Typed.{typed}
use apogee_fc.Client.Live.Typing.{run_live-typed}
use apogee_fc.Client.Mission.{ack_lines, mission}
use apogee_fc.Tests.Data.{clock, booted}
use apogee_fc.Tests.Loop.{booted_ready, booted_decoder, booted_empty}
use apogee_fc.Tests.Client.{typed_lines}

abbrev session_of : Step → Session
session_of (proceed s) = s
session_of (again s) = s
session_of (waiting s) = s
session_of (exit _ s) = s

abbrev typed_session : Session
typed_session = session_of (run_live (connected 3) typed_lines)

still_running : run_live (connected 3) typed_lines ≡ again typed_session
unfolding run_live round parse text_eq trim encode_command encode command_frame send_all send_from
    write_frame retry wait_until_writable starts_with
still_running = refl

abbrev two_pings : List CommandMessage
two_pings = (typed typed_lines Sequencer.initial).1

-- The line between them spells no command.
two_pings_typed :
    two_pings
    ≡ record { sequence = 1; command = CommandId.ping; period_ms = 0 }
      ∷ record { sequence = 2; command = CommandId.ping; period_ms = 0 }
      ∷ []
unfolding parse text_eq trim starts_with
two_pings_typed = refl

run_live-typed_example :
    (typed_session.wire ≡ joined (command_frames two_pings))
    × Numbered 1 two_pings typed_session.sequencer.next_sequence
run_live-typed_example = run_live-typed 3 typed_lines typed_session still_running

mission_example :
    let (processor, acks) = answers booted.processor two_pings in
    Numbered 1 two_pings typed_session.sequencer.next_sequence
    × ((drain clock typed_session.wire booted).processor ≡ processor)
    × ((drain clock typed_session.wire booted).link.sent
        ≡ booted.link.sent ++ joined (ack_frames acks))
    × ((feed (joined (ack_frames acks)) initial).output ≡ initial.output ++ ack_lines acks)
    × ((feed (joined (ack_frames acks)) initial).errors ≡ initial.errors)
mission_example =
    mission 3 typed_lines typed_session clock booted initial still_running booted_ready
      booted_decoder booted_empty initial-IsReady refl
