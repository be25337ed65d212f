-- ===== src/Flight/Answers.antt =====
-- A run of commands from the ground, and the acknowledgements that the flight computer sends for it.
use apogee_fc.Base.{
  ℕ, ◌≡◌, refl, sym, ap, ◌∙◌, arith, List, [], ◌∷◌, ◌++◌, true, not, if◌then◌else◌, append_assoc,
  append-nil,
}
use apogee_fc.Frame.{span}
use apogee_fc.Command.{CommandMessage, CommandAckMessage}
use apogee_fc.Command.Codec.{encode_command}
use apogee_fc.Command.Ack.{encode_command_ack}
use apogee_fc.Command.RoundTrip.{delivered, decode_command-encode_command, encode_command_sound}
use apogee_fc.Command.Known.{IsKnown, AreKnown, command_frames, ack_frames}
use apogee_fc.CommandProcessor.{CommandProcessor, process}
use apogee_fc.Stream.{FrameStreamDecoder, FrameStreamEvent, push}
use apogee_fc.Stream.Ready.{IsReady}
use apogee_fc.Stream.Delivery.{Reports, AllDecodable, joined, push-Reports}
use apogee_fc.Flight.{
  Flight, TelemetryLink, transmit, send_ack, obey, handle_all, drain, drain_bytes,
}
use apogee_fc.Flight.Dialogue.{drain_bytes-push, ack_delivered, send_ack-ok, handle_command}

-- The processor and its acknowledgements, after commands as the flight computer receives them.
abbrev pub answers :
    CommandProcessor → List CommandMessage → CommandProcessor × List CommandAckMessage
answers p [] = (p, [])
answers p (c ∷ cs) =
    let (p', a) = process p (delivered c) in let (p'', acks) = answers p' cs in (p'', a ∷ acks)

AreKnown-AllDecodable : (cs : List CommandMessage) → AreKnown cs → AllDecodable (command_frames cs)
AreKnown-AllDecodable [] h = tt
AreKnown-AllDecodable (c ∷ cs) (h, hs) =
    let sound = encode_command_sound c h.id.0 h.message h.id.1 in
    (sound.0, sound.1, AreKnown-AllDecodable cs hs)

send_ack-ready :
    (ack : CommandAckMessage) (link : TelemetryLink) → (send_ack ack link).ready ≡ link.ready
unfolding send_ack transmit
send_ack-ready ack link = ground arith

-- What a run of commands leaves behind.
pub record Answered (s : Flight) (cs : List CommandMessage) (s' : Flight) : Type 0 where
  pub processor : s'.processor ≡ (answers s.processor cs).0
  pub sent : s'.link.sent ≡ s.link.sent ++ joined (ack_frames (answers s.processor cs).1)
  pub ready : s'.link.ready ≡ true
  pub decoder : s'.stream_decoder ≡ s.stream_decoder

module _ (clock : ℕ → ℕ) where
  obey-Answered :
      (c : CommandMessage) (s : Flight)
      → IsKnown c
      → s.link.ready ≡ true
      → Answered s (c ∷ []) (obey clock (delivered c) s)
  unfolding obey
  obey-Answered c s h r =
      let ack = (process s.processor (delivered c)).1 in
      let delivers =
        ack_delivered s.processor (delivered c) h.id.0 h.message.sequence_fits h.id.1 in
      record {
        processor = refl;
        sent =
            send_ack-ok ack s.link r delivers.0
            ∙ ap (λ t. s.link.sent ++ t) (sym (append-nil (span (encode_command_ack ack).frame)));
        ready = send_ack-ready ack s.link ∙ r;
        decoder = refl;
      }

  handle_all-Answered :
      (events : List FrameStreamEvent) (cs : List CommandMessage) (s : Flight)
      → Reports events (command_frames cs)
      → AreKnown cs
      → s.link.ready ≡ true
      → Answered s cs (handle_all clock events s)
  unfolding handle_all
  handle_all-Answered [] [] s reports h r = record {
    processor = refl;
    sent = sym (append-nil s.link.sent);
    ready = r;
    decoder = refl;
  }
  handle_all-Answered [] (_ ∷ _) s reports h r = absurd reports
  handle_all-Answered (_ ∷ _) [] s reports h r = absurd reports
  handle_all-Answered (e ∷ es) (c ∷ cs) s reports h r =
      let received = (decode_command-encode_command c h.0.id.0 h.0.message h.0.id.1).1 in
      let step =
        handle_command clock e s (span (encode_command c).frame) (delivered c) reports.0 reports.1
          received in
      let s' = obey clock (delivered c) s in
      let first = obey-Answered c s h.0 r in
      let later = handle_all-Answered es cs s' reports.2 h.1 first.ready in
      let p' = (process s.processor (delivered c)).0 in
      let own = span (encode_command_ack (process s.processor (delivered c)).1).frame in
      let rest = λ (p : CommandProcessor). joined (ack_frames (answers p cs).1) in
      rw step (record {
        processor = later.processor ∙ ap (λ p. (answers p cs).0) first.processor;
        sent =
            later.sent
            ∙ ap (λ p. s'.link.sent ++ rest p) first.processor
            ∙ ap (λ t. t ++ rest p') first.sent
            ∙ append_assoc s.link.sent (own ++ []) (rest p')
            ∙ ap (λ t. s.link.sent ++ (t ++ rest p')) (append-nil own);
        ready = later.ready;
        decoder = later.decoder ∙ first.decoder;
      })

-- Known commands, encoded one after the other, that arrive at an empty stream decoder behind a ready UART
-- are processed in order, each as the ground meant it; the flight computer sends the frames of the
-- processor's acknowledgements, in order and nothing else, and the decoder is empty again.
pub drain-Answered :
    (clock : ℕ → ℕ) (cs : List CommandMessage) (s : Flight)
    → AreKnown cs
    → s.link.ready ≡ true
    → IsReady s.stream_decoder
    → s.stream_decoder.size ≡ 0
    → let s' = drain clock (joined (command_frames cs)) s in
      let (processor, acks) = answers s.processor cs in
      (s'.processor ≡ processor)
      × (s'.link.sent ≡ s.link.sent ++ joined (ack_frames acks))
      × (s'.stream_decoder.size ≡ 0)
unfolding drain
drain-Answered clock cs s h r ready z =
    let bytes = joined (command_frames cs) in
    let (reports, empty) =
      push-Reports (command_frames cs) s.stream_decoder (AreKnown-AllDecodable cs h) ready z in
    let (d, events) = push bytes s.stream_decoder in
    let answered =
      handle_all-Answered clock events cs (record s { stream_decoder = d }) reports h r in
    let drained =
      ap (λ b. if not b then s else drain_bytes clock bytes s) r ∙ drain_bytes-push clock bytes s in
    (
      ap (λ x. x.processor) drained ∙ answered.processor,
      ap (λ x. x.link.sent) drained ∙ answered.sent,
      ap (λ x. x.stream_decoder.size) drained
          ∙ ap (λ (x : FrameStreamDecoder). x.size) answered.decoder
          ∙ empty,
    )
