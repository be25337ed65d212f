-- ===== src/Ground.antt =====
-- host/include/apogee/ground_client.hpp: `GroundStreamProcessor`. A line on a stream stands as its kind
-- and the values that it prints; Ground.Text has its text.
pub mod Tally
pub mod Feeding
pub mod Sequencer
pub mod Text
pub mod Printing
pub mod Downlink
use apogee_fc.Base.{ℕ, ◌+◌, List, [], ◌∷◌, ◌++◌, Bool, true, false, not, if◌then◌else◌}
use apogee_fc.Frame.{MessageType, decode_ok, span}
use apogee_fc.Frame.Decode.{decode}
use apogee_fc.Command.{CommandAckMessage, CommandAckDecodeStatus}
use apogee_fc.Command.Ack.{decode_command_ack}
use apogee_fc.TelemetryCodec.{TelemetryMessage, TelemetryDecodeStatus, decode_telemetry}
use apogee_fc.Stream.{FrameStreamDecoder, FrameStreamEvent, FrameStreamStatus}
use apogee_fc.Stream

-- What `output_` receives.
pub data OutputLine : Type 0 where
  telemetry : TelemetryMessage → OutputLine
  ack : CommandAckMessage → OutputLine

-- What `errors_` receives.
pub data ErrorLine : Type 0 where
  malformed_frame unexpected_command malformed_telemetry malformed_ack : ErrorLine
  discarded : ℕ → ErrorLine
  truncated_frame rejected_frame : ErrorLine

pub record GroundStreamProcessor : Type 0 where
  pub decoder : FrameStreamDecoder
  pub output : List OutputLine
  pub errors : List ErrorLine
  pub decoded_messages : ℕ
  pub malformed_input : Bool

abbrev pub initial : GroundStreamProcessor
initial = record {
  decoder = Stream.initial;
  output = [];
  errors = [];
  decoded_messages = 0;
  malformed_input = false;
}

-- `TelemetryDecodeResult::ok` and `CommandAckDecodeResult::ok`.
abbrev pub telemetry_decoded : TelemetryDecodeStatus → Bool
telemetry_decoded TelemetryDecodeStatus.ok = true
telemetry_decoded _ = false

abbrev pub ack_decoded : CommandAckDecodeStatus → Bool
ack_decoded CommandAckDecodeStatus.ok = true
ack_decoded _ = false

-- `errors_ << …; malformed_input_ = true;`.
unfoldable pub complain : ErrorLine → GroundStreamProcessor → GroundStreamProcessor
complain line p = record p { errors = p.errors ++ (line ∷ []); malformed_input = true }

-- `output_ << …; ++decoded_messages_;`.
unfoldable pub print : OutputLine → GroundStreamProcessor → GroundStreamProcessor
print line p = record p {
  output = p.output ++ (line ∷ []);
  decoded_messages = p.decoded_messages + 1;
}

-- `report_stream_error`, for an event that is not a decoded frame.
abbrev pub stream_error : FrameStreamStatus → ℕ → ErrorLine
stream_error FrameStreamStatus.noise_discarded count = discarded count
stream_error FrameStreamStatus.truncated count = truncated_frame
stream_error _ count = rejected_frame

unfoldable pub print_telemetry : List ℕ → GroundStreamProcessor → GroundStreamProcessor
print_telemetry bytes p =
    let decoded = decode_telemetry bytes in
    if not (telemetry_decoded decoded.status)
    then complain malformed_telemetry p
    else print (telemetry decoded.message) p

unfoldable pub print_acknowledgement : List ℕ → GroundStreamProcessor → GroundStreamProcessor
print_acknowledgement bytes p =
    let decoded = decode_command_ack bytes in
    if not (ack_decoded decoded.status)
    then complain malformed_ack p
    else print (ack decoded.message) p

-- The `switch` of `handle_event`.
abbrev pub print_frame : MessageType → List ℕ → GroundStreamProcessor → GroundStreamProcessor
print_frame MessageType.telemetry bytes p = print_telemetry bytes p
print_frame MessageType.command_ack bytes p = print_acknowledgement bytes p
print_frame MessageType.command bytes p = complain unexpected_command p
print_frame (MessageType.unlisted _) bytes p = p

abbrev pub is_decoded : FrameStreamStatus → Bool
is_decoded FrameStreamStatus.frame_decoded = true
is_decoded _ = false

unfoldable pub handle_event : FrameStreamEvent → GroundStreamProcessor → GroundStreamProcessor
handle_event event p =
    let bytes = span event.frame in
    let frame = decode bytes in
    if not (is_decoded event.status)
    then complain (stream_error event.status event.discarded_bytes) p
    else if not (decode_ok frame.status)
    then complain malformed_frame p
    else print_frame frame.frame.message_type bytes p

unfoldable pub handle_events : List FrameStreamEvent → GroundStreamProcessor → GroundStreamProcessor
handle_events [] p = p
handle_events (event ∷ events) p = handle_events events (handle_event event p)

-- The handler leaves the decoder alone, so the events can be handled once the bytes are pushed.
unfoldable pub feed : List ℕ → GroundStreamProcessor → GroundStreamProcessor
feed bytes p =
    let (decoder, events) = Stream.push bytes p.decoder in
    handle_events events (record p { decoder = decoder })

unfoldable pub finish : GroundStreamProcessor → GroundStreamProcessor
finish p =
    let (decoder, events) = Stream.finish p.decoder in
    handle_events events (record p { decoder = decoder })
