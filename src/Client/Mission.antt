-- ===== src/Client/Mission.antt =====
-- The operator, the client, the flight computer and back: commands typed into a live session, and the
-- acknowledgements that the ground prints.
use apogee_fc.Base.{ℕ, ◌≡◌, ap, ◌∙◌, true, List, [], ◌∷◌, ◌++◌}
use apogee_fc.Command.{CommandMessage, CommandAckMessage}
use apogee_fc.Command.RoundTrip.{delivered}
use apogee_fc.Command.Known.{AreKnown, ack_frames}
use apogee_fc.CommandProcessor.{CommandProcessor, process}
use apogee_fc.Stream.Ready.{IsReady}
use apogee_fc.Stream.Delivery.{joined}
use apogee_fc.Flight.{Flight, drain}
use apogee_fc.Flight.Dialogue.{ack_code, same_command}
use apogee_fc.Flight.Answers.{answers, drain-Answered}
use apogee_fc.Ground.{GroundStreamProcessor, OutputLine, ack, feed}
use apogee_fc.Ground.Printing.{AllSent, ack_sent, feed-AllSent}
use apogee_fc.Client.Socket.{connected}
use apogee_fc.Client.Live.{Turn, Session, again, run_live}
use apogee_fc.Ground.Sequencer
use apogee_fc.Client.Live.Commands.{Numbered, Numbered-AreKnown}
use apogee_fc.Client.Live.Typed.{typed}
use apogee_fc.Client.Live.Typing.{run_live-typed}

-- The lines that the ground prints for acknowledgements.
abbrev pub ack_lines : List CommandAckMessage → List OutputLine
ack_lines [] = []
ack_lines (a ∷ acks) = ack a ∷ ack_lines acks

answers-AllSent :
    (p : CommandProcessor) (cs : List CommandMessage)
    → AreKnown cs
    → AllSent (ack_frames (answers p cs).1) (ack_lines (answers p cs).1)
answers-AllSent p [] h = tt
answers-AllSent p (c ∷ cs) (h, hs) =
    let (p', a) = process p (delivered c) in
    let (j, status) = ack_code p (delivered c) in
    let (number, name) = same_command p (delivered c) in
    (
      ack_sent a h.id.0 j (rw number h.message.sequence_fits) (rw name h.id.1) status,
      answers-AllSent p' cs hs,
    )

-- The commands that are typed into a live session that still runs, whatever else the system calls
-- return and however the socket takes them, arrive at a flight computer with a ready UART and an empty
-- stream decoder: they are numbered from 1 on, without a gap, modulo 2^32; the flight computer
-- processes them in order, and sends bytes from which a ground processor with an empty stream decoder
-- prints one acknowledgement for each command, in order, as the command processor gave it, and no
-- error.
pub mission :
    (fd : ℕ) (ts : List Turn) (s : Session) (clock : ℕ → ℕ) (f : Flight) (p : GroundStreamProcessor)
    → run_live (connected fd) ts ≡ again s
    → f.link.ready ≡ true
    → IsReady f.stream_decoder
    → f.stream_decoder.size ≡ 0
    → IsReady p.decoder
    → p.decoder.size ≡ 0
    → let cs = (typed ts Sequencer.initial).1 in
      let (processor, acks) = answers f.processor cs in
      Numbered 1 cs s.sequencer.next_sequence
      × ((drain clock s.wire f).processor ≡ processor)
      × ((drain clock s.wire f).link.sent ≡ f.link.sent ++ joined (ack_frames acks))
      × ((feed (joined (ack_frames acks)) p).output ≡ p.output ++ ack_lines acks)
      × ((feed (joined (ack_frames acks)) p).errors ≡ p.errors)
mission fd ts s clock f p e ready fd_ready fd_empty pd_ready pd_empty =
    let cs = (typed ts Sequencer.initial).1 in
    let (processor, acks) = answers f.processor cs in
    let (wire, numbered) = run_live-typed fd ts s e in
    let known = Numbered-AreKnown 1 s.sequencer.next_sequence cs numbered in
    let flown = drain-Answered clock cs f known ready fd_ready fd_empty in
    let printed =
      feed-AllSent (ack_frames acks) (ack_lines acks) p (answers-AllSent f.processor cs known)
        pd_ready pd_empty in
    (
      numbered,
      ap (λ w. (drain clock w f).processor) wire ∙ flown.0,
      ap (λ w. (drain clock w f).link.sent) wire ∙ flown.1,
      printed.0,
      printed.2,
    )
