-- ===== src/Ground/Printing.antt =====
-- Frames from the flight computer, through the stream decoder, to the lines that the ground prints.
use apogee_fc.Base.{
  ℕ, ◌+◌, ◌<◌, ◌≡◌, refl, sym, ap, ◌∙◌, arith, List, [], ◌∷◌, ◌++◌, true, some, AreBytes, length,
  append_assoc, append-nil,
}
use apogee_fc.Frame.{span, decode_ok}
use apogee_fc.Frame.Decode.{decode}
use apogee_fc.Command.{CommandAckMessage, encode_command_id, encode_ack_status}
use apogee_fc.Command.Ack.{encode_command_ack, ack_frame}
use apogee_fc.Command.AckRoundTrip.{decode_command_ack-encode_command_ack, encode_command_ack_sound}
use apogee_fc.TelemetryCodec.{
  TelemetryMessage, encode_flight_mode, encode_telemetry, telemetry_frame,
}
use apogee_fc.TelemetryCodec.RoundTrip.{
  IsTelemetry, decode_telemetry-encode_telemetry, encode_telemetry_sound,
}
use apogee_fc.Stream.{FrameStreamEvent, FrameStreamStatus, push}
use apogee_fc.Stream.Ready.{IsReady}
use apogee_fc.Stream.Delivery.{Reports, AllDecodable, joined, push-Reports}
use apogee_fc.Ground.{
  GroundStreamProcessor, OutputLine, telemetry, ack, print, print_telemetry, print_acknowledgement,
  print_frame, handle_event, handle_events, feed,
}

-- The bytes that the flight computer sends for a message, and the line that the ground should print.
pub data Sent : List ℕ → OutputLine → Type 0 where
  telemetry_sent :
      (m : TelemetryMessage) (k : ℕ)
      → IsTelemetry m
      → encode_flight_mode m.snapshot.flight_mode ≡ some k
      → Sent (span (encode_telemetry m).frame) (telemetry m)
  ack_sent :
      (m : CommandAckMessage) (k j : ℕ)
      → m.sequence < 4294967296
      → encode_command_id m.command ≡ some k
      → encode_ack_status m.status ≡ some j
      → Sent (span (encode_command_ack m).frame) (ack m)

abbrev pub AllSent : List (List ℕ) → List OutputLine → Type 0
AllSent [] [] = Unit
AllSent (w ∷ ws) (l ∷ ls) = Sent w l × AllSent ws ls
AllSent _ _ = ⊥

Sent-decodable :
    (w : List ℕ) (l : OutputLine) → Sent w l → AreBytes w × (decode_ok (decode w).status ≡ true)
Sent-decodable _ _ (telemetry_sent m k h e) =
    let sound = encode_telemetry_sound m k h e in (sound.0, ap (λ r. decode_ok r.status) sound.1)
Sent-decodable _ _ (ack_sent m k j h hk hj) =
    let sound = encode_command_ack_sound m k j h hk hj in
    (sound.0, ap (λ r. decode_ok r.status) sound.1)

AllSent-AllDecodable : (ws : List (List ℕ)) (ls : List OutputLine) → AllSent ws ls → AllDecodable ws
AllSent-AllDecodable [] [] h = tt
AllSent-AllDecodable [] (_ ∷ _) h = absurd h
AllSent-AllDecodable (_ ∷ _) [] h = absurd h
AllSent-AllDecodable (w ∷ ws) (l ∷ ls) h =
    let d = Sent-decodable w l h.0 in (d.0, d.1, AllSent-AllDecodable ws ls h.1)

print_frame-Sent :
    (w : List ℕ) (l : OutputLine) (p : GroundStreamProcessor)
    → Sent w l
    → print_frame (decode w).frame.message_type w p ≡ print l p
unfolding print_telemetry print_acknowledgement telemetry_frame ack_frame
print_frame-Sent _ _ p (telemetry_sent m k h e) =
    rw ((encode_telemetry_sound m k h e).1, (decode_telemetry-encode_telemetry m k h e).1) refl
print_frame-Sent _ _ p (ack_sent m k j h hk hj) =
    rw
      (
        (encode_command_ack_sound m k j h hk hj).1,
        (decode_command_ack-encode_command_ack m k j h hk hj).1,
      )
      refl

handle_event-Sent :
    (event : FrameStreamEvent) (w : List ℕ) (l : OutputLine) (p : GroundStreamProcessor)
    → event.status ≡ FrameStreamStatus.frame_decoded
    → span event.frame ≡ w
    → Sent w l
    → handle_event event p ≡ print l p
unfolding handle_event
handle_event-Sent event w l p e c h = rw (e, c, (Sent-decodable w l h).1) (print_frame-Sent w l p h)

-- What printing lines does.
abbrev printed : List OutputLine → GroundStreamProcessor → GroundStreamProcessor
printed lines p = record p {
  output = p.output ++ lines;
  decoded_messages = p.decoded_messages + length lines;
}

printed-print :
    (l : OutputLine) (ls : List OutputLine) (p : GroundStreamProcessor)
    → printed ls (print l p) ≡ printed (l ∷ ls) p
unfolding print
printed-print l ls p =
    λ i. record p { output = append_assoc p.output (l ∷ []) ls i; decoded_messages = counted i }
  where
    counted : p.decoded_messages + 1 + length ls ≡ p.decoded_messages + length (l ∷ ls)
    counted = omega arith

printed-nothing : (p : GroundStreamProcessor) → p ≡ printed [] p
printed-nothing p =
    λ i. record p { output = sym (append-nil p.output) i; decoded_messages = same i }
  where
    same : p.decoded_messages ≡ p.decoded_messages + 0
    same = omega arith

handle_events-AllSent :
    (events : List FrameStreamEvent) (ws : List (List ℕ)) (ls : List OutputLine)
    (p : GroundStreamProcessor)
    → Reports events ws
    → AllSent ws ls
    → handle_events events p ≡ printed ls p
unfolding handle_events
handle_events-AllSent [] [] [] p r h = printed-nothing p
handle_events-AllSent [] [] (_ ∷ _) p r h = absurd h
handle_events-AllSent [] (_ ∷ _) ls p r h = absurd r
handle_events-AllSent (_ ∷ _) [] ls p r h = absurd r
handle_events-AllSent (_ ∷ _) (_ ∷ _) [] p r h = absurd h
handle_events-AllSent (e ∷ es) (w ∷ ws) (l ∷ ls) p r h =
    ap (handle_events es) (handle_event-Sent e w l p r.0 r.1 h.0)
    ∙ handle_events-AllSent es ws ls (print l p) r.2 h.1
    ∙ printed-print l ls p

-- The frames of telemetry messages and acknowledgements with known codes and fields in range, fed
-- one after the other to a processor whose stream decoder is ready and empty, are printed in order,
-- one line for each with the message's own values, and counted. No error is printed, the input does
-- not become malformed, and the decoder is empty again.
pub feed-AllSent :
    (ws : List (List ℕ)) (ls : List OutputLine) (p : GroundStreamProcessor)
    → AllSent ws ls
    → IsReady p.decoder
    → p.decoder.size ≡ 0
    → let p' = feed (joined ws) p in
      (p'.output ≡ p.output ++ ls)
      × (p'.decoded_messages ≡ p.decoded_messages + length ls)
      × (p'.errors ≡ p.errors)
      × (p'.malformed_input ≡ p.malformed_input)
      × (p'.decoder.size ≡ 0)
unfolding feed
feed-AllSent ws ls p h r z =
    let pushed = push (joined ws) p.decoder in
    let (reports, empty) = push-Reports ws p.decoder (AllSent-AllDecodable ws ls h) r z in
    let fed = handle_events-AllSent pushed.1 ws ls (record p { decoder = pushed.0 }) reports h in
    (
      ap (λ q. q.output) fed,
      ap (λ q. q.decoded_messages) fed,
      ap (λ q. q.errors) fed,
      ap (λ q. q.malformed_input) fed,
      ap (λ q. q.decoder.size) fed ∙ empty,
    )
