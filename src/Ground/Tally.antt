-- ===== src/Ground/Tally.antt =====
-- The counters of the ground's stream processor, against what it has printed.
use apogee_fc.Base.{
  ℕ, ◌≡◌, refl, arith, List, [], ◌∷◌, ◌++◌, Bool, true, false, not, length, length-append,
  if◌then◌else◌,
}
use apogee_fc.Frame.{MessageType, decode_ok, span}
use apogee_fc.Frame.Decode.{decode}
use apogee_fc.Command.Ack.{decode_command_ack}
use apogee_fc.TelemetryCodec.{decode_telemetry}
use apogee_fc.Stream
use apogee_fc.Stream.{FrameStreamEvent}
use apogee_fc.Ground.{
  GroundStreamProcessor, OutputLine, ErrorLine, initial, complain, print, print_telemetry,
  print_acknowledgement, print_frame, telemetry_decoded, ack_decoded, is_decoded, handle_event,
  handle_events, feed, finish,
}

abbrev pub is_empty : List ErrorLine → Bool
is_empty [] = true
is_empty (_ ∷ _) = false

pub record IsTallied (p : GroundStreamProcessor) : Type 0 where
  pub counted : p.decoded_messages ≡ length p.output
  pub flagged : p.malformed_input ≡ not (is_empty p.errors)

is_empty-append : (es : List ErrorLine) (e : ErrorLine) → is_empty (es ++ (e ∷ [])) ≡ false
is_empty-append [] e = refl
is_empty-append (_ ∷ es) e = refl

complain-IsTallied :
    (line : ErrorLine) (p : GroundStreamProcessor) → IsTallied p → IsTallied (complain line p)
unfolding complain
complain-IsTallied line p h = record {
  counted = h.counted;
  flagged = rw (is_empty-append p.errors line) refl;
}

print-IsTallied :
    (line : OutputLine) (p : GroundStreamProcessor) → IsTallied p → IsTallied (print line p)
unfolding print
print-IsTallied line p h = record {
  counted = omega (arith, h.counted, length-append p.output (line ∷ []));
  flagged = h.flagged;
}

choose-IsTallied :
    (b : Bool) (x y : GroundStreamProcessor)
    → IsTallied x
    → IsTallied y
    → IsTallied (if b then x else y)
choose-IsTallied true x y h k = h
choose-IsTallied false x y h k = k

print_frame-IsTallied :
    (m : MessageType) (bytes : List ℕ) (p : GroundStreamProcessor)
    → IsTallied p
    → IsTallied (print_frame m bytes p)
unfolding print_telemetry print_acknowledgement
print_frame-IsTallied MessageType.telemetry bytes p h =
    choose-IsTallied (not (telemetry_decoded (decode_telemetry bytes).status)) _ _
      (complain-IsTallied _ p h) (print-IsTallied _ p h)
print_frame-IsTallied MessageType.command_ack bytes p h =
    choose-IsTallied (not (ack_decoded (decode_command_ack bytes).status)) _ _
      (complain-IsTallied _ p h) (print-IsTallied _ p h)
print_frame-IsTallied MessageType.command bytes p h = complain-IsTallied _ p h
print_frame-IsTallied (MessageType.unlisted _) bytes p h = h

handle_event-IsTallied :
    (event : FrameStreamEvent) (p : GroundStreamProcessor)
    → IsTallied p
    → IsTallied (handle_event event p)
unfolding handle_event
handle_event-IsTallied event p h =
    choose-IsTallied (not (is_decoded event.status)) _ _ (complain-IsTallied _ p h) (
      choose-IsTallied (not (decode_ok (decode (span event.frame)).status)) _ _
        (complain-IsTallied _ p h)
        (print_frame-IsTallied (decode (span event.frame)).frame.message_type (span event.frame) p
          h))

handle_events-IsTallied :
    (events : List FrameStreamEvent) (p : GroundStreamProcessor)
    → IsTallied p
    → IsTallied (handle_events events p)
unfolding handle_events
handle_events-IsTallied [] p h = h
handle_events-IsTallied (event ∷ events) p h =
    handle_events-IsTallied events (handle_event event p) (handle_event-IsTallied event p h)

pub initial-IsTallied : IsTallied initial
initial-IsTallied = record { counted = refl; flagged = refl }

-- If they did before, then after `feed` with any bytes, and after a `finish` that follows, the
-- number of decoded messages is the number of printed lines, and the input counts as malformed
-- exactly if an error has been printed.
pub feed-IsTallied :
    (bytes : List ℕ) (p : GroundStreamProcessor)
    → IsTallied p
    → IsTallied (feed bytes p) × IsTallied (finish (feed bytes p))
unfolding feed finish
feed-IsTallied bytes p h =
    let fed =
      handle_events-IsTallied (Stream.push bytes p.decoder).1
        (record p { decoder = (Stream.push bytes p.decoder).0 })
        (record { counted = h.counted; flagged = h.flagged }) in
    (
      fed,
      handle_events-IsTallied (Stream.finish (feed bytes p).decoder).1
          (record (feed bytes p) { decoder = (Stream.finish (feed bytes p).decoder).0 })
          (record { counted = fed.counted; flagged = fed.flagged }),
    )
