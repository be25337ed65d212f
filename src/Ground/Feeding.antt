-- ===== src/Ground/Feeding.antt =====
-- `feed` over several calls.
use apogee_fc.Base.{
  ℕ, ◌≡◌, refl, sym, ap, ◌∙◌, List, [], ◌∷◌, ◌++◌, Bool, true, false, not, if◌then◌else◌,
}
use apogee_fc.Frame.{MessageType, decode_ok, span}
use apogee_fc.Frame.Decode.{decode}
use apogee_fc.Command.Ack.{decode_command_ack}
use apogee_fc.TelemetryCodec.{decode_telemetry}
use apogee_fc.Stream.{FrameStreamDecoder, FrameStreamEvent, push}
use apogee_fc.Stream.Push.{push-append}
use apogee_fc.Ground.{
  GroundStreamProcessor, complain, print, print_telemetry, print_acknowledgement, print_frame,
  telemetry_decoded, ack_decoded, is_decoded, handle_event, handle_events, feed,
}

-- The processor with another decoder; the handler does not look at it.
abbrev pub with_decoder : FrameStreamDecoder → GroundStreamProcessor → GroundStreamProcessor
with_decoder d p = record p { decoder = d }

choose-with_decoder :
    (d : FrameStreamDecoder) (b : Bool) (x y x' y' : GroundStreamProcessor)
    → x ≡ with_decoder d x'
    → y ≡ with_decoder d y'
    → (if b then x else y) ≡ with_decoder d (if b then x' else y')
choose-with_decoder d true x y x' y' e f = e
choose-with_decoder d false x y x' y' e f = f

print_frame-with_decoder :
    (d : FrameStreamDecoder) (m : MessageType) (bytes : List ℕ) (p : GroundStreamProcessor)
    → print_frame m bytes (with_decoder d p) ≡ with_decoder d (print_frame m bytes p)
unfolding print_telemetry print_acknowledgement complain print
print_frame-with_decoder d MessageType.telemetry bytes p =
    choose-with_decoder d (not (telemetry_decoded (decode_telemetry bytes).status)) _ _ _ _ refl
      refl
print_frame-with_decoder d MessageType.command_ack bytes p =
    choose-with_decoder d (not (ack_decoded (decode_command_ack bytes).status)) _ _ _ _ refl refl
print_frame-with_decoder d MessageType.command bytes p = refl
print_frame-with_decoder d (MessageType.unlisted _) bytes p = refl

handle_event-with_decoder :
    (d : FrameStreamDecoder) (event : FrameStreamEvent) (p : GroundStreamProcessor)
    → handle_event event (with_decoder d p) ≡ with_decoder d (handle_event event p)
unfolding handle_event complain
handle_event-with_decoder d event p =
    choose-with_decoder d (not (is_decoded event.status)) _ _ _ _ refl (
      choose-with_decoder d (not (decode_ok (decode (span event.frame)).status)) _ _ _ _ refl (
        print_frame-with_decoder d (decode (span event.frame)).frame.message_type (span event.frame)
          p))

handle_events-with_decoder :
    (d : FrameStreamDecoder) (events : List FrameStreamEvent) (p : GroundStreamProcessor)
    → handle_events events (with_decoder d p) ≡ with_decoder d (handle_events events p)
unfolding handle_events
handle_events-with_decoder d [] p = refl
handle_events-with_decoder d (event ∷ events) p =
    ap (handle_events events) (handle_event-with_decoder d event p)
    ∙ handle_events-with_decoder d events (handle_event event p)

handle_events-append :
    (xs ys : List FrameStreamEvent) (p : GroundStreamProcessor)
    → handle_events (xs ++ ys) p ≡ handle_events ys (handle_events xs p)
unfolding handle_events
handle_events-append [] ys p = refl
handle_events-append (x ∷ xs) ys p = handle_events-append xs ys (handle_event x p)

-- The decoder after `feed`, and the rest of the processor.
feed-eq :
    (bytes : List ℕ) (p : GroundStreamProcessor)
    → feed bytes p
      ≡ with_decoder (push bytes p.decoder).0 (handle_events (push bytes p.decoder).1 p)
unfolding feed
feed-eq bytes p = handle_events-with_decoder (push bytes p.decoder).0 (push bytes p.decoder).1 p

-- Bytes that arrive in two calls are handled as if they came in one.
pub feed-append :
    (xs ys : List ℕ) (p : GroundStreamProcessor) → feed (xs ++ ys) p ≡ feed ys (feed xs p)
feed-append xs ys p =
    let first = push xs p.decoder in
    let second = push ys first.0 in
    feed-eq (xs ++ ys) p
    ∙ ap (λ r. with_decoder r.0 (handle_events r.1 p)) (push-append xs ys p.decoder)
    ∙ ap (with_decoder second.0) (handle_events-append first.1 second.1 p)
    ∙ sym (
        ap (with_decoder second.0)
          (handle_events-with_decoder first.0 second.1 (handle_events first.1 p)))
    ∙ sym
        (ap (feed ys) (feed-eq xs p) ∙ feed-eq ys (with_decoder first.0 (handle_events first.1 p)))
