-- ===== src/Flight/Dialogue.antt =====
-- A command from the ground, through the stream decoder and the processor, to its acknowledgement.
use apogee_fc.Base.{
  ℕ, ◌<◌, ◌≡◌, refl, sym, ap, ◌∙◌, arith, List, [], ◌∷◌, ◌++◌, Bool, true, false, not, some, inl,
  inr, Option-cases, if◌then◌else◌,
}
use apogee_fc.Frame.{span, DecodeStatus}
use apogee_fc.Command.{
  CommandMessage, CommandAckMessage, CommandDecodeStatus, CommandAckEncodeStatus,
  CommandAckDecodeStatus, encode_command_id, encode_ack_status,
}
use apogee_fc.Command.Codec.{encode_command, decode_command}
use apogee_fc.Command.Ack.{encode_command_ack, decode_command_ack}
use apogee_fc.Command.RoundTrip.{
  IsMessage, delivered, decode_command-encode_command, encode_command_sound,
}
use apogee_fc.Command.AckRoundTrip.{decode_command_ack-encode_command_ack}
use apogee_fc.CommandProcessor.{CommandProcessor, process}
use apogee_fc.Stream.{FrameStreamDecoder, FrameStreamEvent, FrameStreamStatus, push}
use apogee_fc.Stream.Push.{push-append}
use apogee_fc.Stream.Delivery.{Delivered, push-Delivered}
use apogee_fc.Flight.{
  Flight, TelemetryLink, is_frame_decoded, command_ok, send_ack, obey, handle_stream_event,
  handle_all, drain_bytes, drain,
}
use apogee_fc.Flight.Invariant.{IsFlying}

abbrev with : FrameStreamDecoder → Flight → Flight
with d s = record s { stream_decoder = d }

choose-with :
    (b : Bool) (d : FrameStreamDecoder) (x y : Flight)
    → (if b then with d x else with d y) ≡ with d (if b then x else y)
choose-with true d x y = refl
choose-with false d x y = refl

handle_all-append :
    (clock : ℕ → ℕ) (es fs : List FrameStreamEvent) (s : Flight)
    → handle_all clock (es ++ fs) s ≡ handle_all clock fs (handle_all clock es s)
unfolding handle_all
handle_all-append clock [] fs s = refl
handle_all-append clock (e ∷ es) fs s =
    handle_all-append clock es fs (handle_stream_event clock e s)

module _ (clock : ℕ → ℕ) where
  -- Handling an event neither reads nor changes the stream decoder.
  handle_stream_event-with :
      (e : FrameStreamEvent) (d : FrameStreamDecoder) (s : Flight)
      → handle_stream_event clock e (with d s) ≡ with d (handle_stream_event clock e s)
  unfolding handle_stream_event obey
  handle_stream_event-with e d s =
      ap (λ r. if not (is_frame_decoded e.status) then with d s else r)
        (choose-with (not (command_ok (decode_command (span e.frame)).status)) d s
          (obey clock (decode_command (span e.frame)).message s))
      ∙ choose-with (not (is_frame_decoded e.status)) d s _

  handle_all-with :
      (es : List FrameStreamEvent) (d : FrameStreamDecoder) (s : Flight)
      → handle_all clock es (with d s) ≡ with d (handle_all clock es s)
  unfolding handle_all
  handle_all-with [] d s = refl
  handle_all-with (e ∷ es) d s =
      ap (handle_all clock es) (handle_stream_event-with e d s)
      ∙ handle_all-with es d (handle_stream_event clock e s)

  -- Draining byte by byte handles the events of all the bytes in order.
  pub drain_bytes-push :
      (bytes : List ℕ) (s : Flight)
      → drain_bytes clock bytes s
        ≡ handle_all clock (push bytes s.stream_decoder).1 (with (push bytes s.stream_decoder).0 s)
  unfolding drain_bytes
  drain_bytes-push [] s = unfold push handle_all in refl
  drain_bytes-push (byte ∷ bytes) s =
      let now = push (byte ∷ []) s.stream_decoder in
      let later = push bytes now.0 in
      let x = handle_all clock now.1 s in
      ap (drain_bytes clock bytes) (handle_all-with now.1 now.0 s)
      ∙ drain_bytes-push bytes (with now.0 x)
      ∙ ap (handle_all clock later.1) (sym (handle_all-with now.1 later.0 s))
      ∙ sym (handle_all-append clock now.1 later.1 (with later.0 s))
      ∙ sym (
          ap (λ (r : FrameStreamDecoder × List FrameStreamEvent). handle_all clock r.1 (with r.0 s))
            (push-append (byte ∷ []) bytes s.stream_decoder))

-- Every acknowledgement of the processor has a status that can be encoded.
pub ack_code :
    (p : CommandProcessor) (c : CommandMessage)
    → (j : ℕ) × (encode_ack_status (process p c).1.status ≡ some j)
unfolding process
ack_code p c = elim (Option-cases (encode_ack_status (process p c).1.status)) [
  | inl missing ↦ absurd (ground arith)
  | inr found ↦ found
]

pub same_command :
    (p : CommandProcessor) (c : CommandMessage)
    → ((process p c).1.sequence ≡ c.sequence) × ((process p c).1.command ≡ c.command)
unfolding process
same_command p c = (refl, refl)

pub send_ack-ok :
    (ack : CommandAckMessage) (link : TelemetryLink)
    → link.ready ≡ true
    → (encode_command_ack ack).status ≡ CommandAckEncodeStatus.ok
    → (send_ack ack link).sent ≡ link.sent ++ span (encode_command_ack ack).frame
unfolding send_ack
send_ack-ok ack link r e = rw (e, r)

-- The acknowledgement that the processor gives to a known command can be sent and read.
pub ack_delivered :
    (p : CommandProcessor) (c : CommandMessage) (k : ℕ)
    → c.sequence < 4294967296
    → encode_command_id c.command ≡ some k
    → let ack = (process p c).1 in
      ((encode_command_ack ack).status ≡ CommandAckEncodeStatus.ok)
      × (decode_command_ack (span (encode_command_ack ack).frame) ≡ record {
        status = CommandAckDecodeStatus.ok;
        frame_status = DecodeStatus.ok;
        message = ack;
      })
ack_delivered p c k h e =
    let (j, a) = ack_code p c in
    let (number, name) = same_command p c in
    decode_command_ack-encode_command_ack (process p c).1 k j (rw number h) (rw name e) a

pub handle_command :
    (clock : ℕ → ℕ) (event : FrameStreamEvent) (s : Flight) (whole : List ℕ) (m : CommandMessage)
    → event.status ≡ FrameStreamStatus.frame_decoded
    → span event.frame ≡ whole
    → decode_command whole
      ≡ record { status = CommandDecodeStatus.ok; frame_status = DecodeStatus.ok; message = m }
    → handle_stream_event clock event s ≡ obey clock m s
unfolding handle_stream_event
handle_command clock event s whole m e f d = rw (e, f, d)

drain_one :
    (clock : ℕ → ℕ) (whole : List ℕ) (s : Flight) (m : CommandMessage)
    → s.link.ready ≡ true
    → Delivered whole (push whole s.stream_decoder)
    → decode_command whole
      ≡ record { status = CommandDecodeStatus.ok; frame_status = DecodeStatus.ok; message = m }
    → drain clock whole s ≡ obey clock m (with (push whole s.stream_decoder).0 s)
unfolding drain handle_all
drain_one clock whole s m r one d =
    ap (λ b. if not b then s else drain_bytes clock whole s) r
    ∙ drain_bytes-push clock whole s
    ∙ ap (λ es. handle_all clock es (with (push whole s.stream_decoder).0 s)) one.events
    ∙ handle_command clock one.event (with (push whole s.stream_decoder).0 s) whole m one.kind
        one.carries d

-- In a state that satisfies `IsFlying`, a command with a known identifier and fields in the ranges
-- of their types, encoded by the ground and arriving at an empty stream decoder behind a ready UART,
-- is processed as the ground meant it and answered by exactly one frame, from which the ground reads
-- the processor's acknowledgement. The decoder is empty again.
pub command_answered :
    (clock : ℕ → ℕ) (s : Flight) (m : CommandMessage) (k : ℕ)
    → IsFlying s
    → s.link.ready ≡ true
    → s.stream_decoder.size ≡ 0
    → IsMessage m
    → encode_command_id m.command ≡ some k
    → let s' = drain clock (span (encode_command m).frame) s in
      let (processor, ack) = process s.processor (delivered m) in
      (s'.processor ≡ processor)
      × (s'.link.sent ≡ s.link.sent ++ span (encode_command_ack ack).frame)
      × (decode_command_ack (span (encode_command_ack ack).frame) ≡ record {
        status = CommandAckDecodeStatus.ok;
        frame_status = DecodeStatus.ok;
        message = ack;
      })
      × (s'.stream_decoder.size ≡ 0)
unfolding obey
command_answered clock s m k h r z valid e =
    let whole = span (encode_command m).frame in
    let sound = encode_command_sound m k valid e in
    let one = push-Delivered whole s.stream_decoder sound.0 sound.1 h.decoder z in
    let received = (decode_command-encode_command m k valid e).1 in
    let ack = ack_delivered s.processor (delivered m) k valid.sequence_fits e in
    let final = drain_one clock whole s (delivered m) r one received in
    (
      ap (λ x. x.processor) final,
      ap (λ x. x.link.sent) final
          ∙ send_ack-ok (process s.processor (delivered m)).1 s.link r ack.0,
      ack.1,
      ap (λ x. x.stream_decoder.size) final ∙ one.empty,
    )
