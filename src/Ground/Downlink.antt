-- ===== src/Ground/Downlink.antt =====
-- The telemetry of a run of samples, from the flight loop to the lines that the ground prints.
use apogee_fc.Base.{
  ℕ, ◌<◌, ◌^◌, ◌≡◌, sym, ap, ◌∙◌, arith, List, [], ◌∷◌, ◌++◌, true, append_assoc, append-nil,
}
use apogee_fc.Frame.{span}
use apogee_fc.TelemetryCodec.{TelemetryMessage, encode_telemetry}
use apogee_fc.Telemetry.{capture}
use apogee_fc.Stream.Ready.{IsReady}
use apogee_fc.Stream.Delivery.{joined}
use apogee_fc.Flight.{Flight, TelemetryLink, sample, send_telemetry}
use apogee_fc.Flight.Invariant.{IsFlying, sample-IsFlying}
use apogee_fc.Flight.Safety.{
  reported, reported-sent, reported-IsTelemetry, mode_code, sample-reported,
}
use apogee_fc.Ground.{GroundStreamProcessor, OutputLine, telemetry, feed}
use apogee_fc.Ground.Printing.{AllSent, telemetry_sent, feed-AllSent}

-- Samples at the given times, one after the other.
abbrev pub sample_all : List ℕ → Flight → Flight
sample_all [] s = s
sample_all (now ∷ later) s = sample_all later (sample now s)

-- The frames that they send, and the lines that these are to become.
abbrev pub frames : List ℕ → Flight → List (List ℕ)
frames [] s = []
frames (now ∷ later) s =
    span (encode_telemetry (reported now s)).frame ∷ frames later (sample now s)

abbrev pub lines : List ℕ → Flight → List OutputLine
lines [] s = []
lines (now ∷ later) s = telemetry (reported now s) ∷ lines later (sample now s)

abbrev pub AreTimes : List ℕ → Type 0
AreTimes [] = Unit
AreTimes (now ∷ later) = (now < 2 ^ 64) × AreTimes later

-- What a run of samples needs and keeps.
pub record IsSending (s : Flight) : Type 0 where
  pub flying : IsFlying s
  pub ready : s.link.ready ≡ true
  pub numbered : s.telemetry_collector.next_sequence < 2 ^ 32

send_telemetry-ready :
    (m : TelemetryMessage) (link : TelemetryLink) → (send_telemetry m link).ready ≡ link.ready
unfolding send_telemetry
send_telemetry-ready m link = ground arith

next_sequence-lt :
    (now : ℕ) (s : Flight) → (sample now s).telemetry_collector.next_sequence < 2 ^ 32
unfolding sample capture
next_sequence-lt now s = omega arith

sample-IsSending : (now : ℕ) (s : Flight) → IsSending s → IsSending (sample now s)
sample-IsSending now s h = record {
  flying = sample-IsFlying now s h.flying;
  ready =
      ap (λ l. l.ready) (reported-sent now s)
      ∙ send_telemetry-ready (reported now s) s.link
      ∙ h.ready;
  numbered = next_sequence-lt now s;
}

frames-AllSent :
    (nows : List ℕ) (s : Flight)
    → IsSending s
    → AreTimes nows
    → AllSent (frames nows s) (lines nows s)
frames-AllSent [] s h t = tt
frames-AllSent (now ∷ later) s h t =
    let (k, e) =
      mode_code (sample now s).processor.state_machine.mode
        (sample-IsFlying now s h.flying).governed.booted in
    (
      telemetry_sent (reported now s) k (reported-IsTelemetry now s h.flying t.0 h.numbered) e,
      frames-AllSent later (sample now s) (sample-IsSending now s h) t.1,
    )

sample_all-sent :
    (nows : List ℕ) (s : Flight)
    → IsSending s
    → AreTimes nows
    → (sample_all nows s).link.sent ≡ s.link.sent ++ joined (frames nows s)
sample_all-sent [] s h t = sym (append-nil s.link.sent)
sample_all-sent (now ∷ later) s h t =
    sample_all-sent later (sample now s) (sample-IsSending now s h) t.1
    ∙ ap (λ sent. sent ++ joined (frames later (sample now s)))
        (sample-reported now s h.flying h.ready t.0 h.numbered).0
    ∙ append_assoc s.link.sent (span (encode_telemetry (reported now s)).frame)
        (joined (frames later (sample now s)))

-- A run of samples from a state that satisfies `IsFlying`, with a ready UART and a sequence number
-- in range, at times below 2^64 ms, sends bytes from which a ground processor with a ready and empty
-- stream decoder prints one line for each sample, in order, with the values of that sample, and no
-- error.
pub sample_all-printed :
    (nows : List ℕ) (s : Flight) (p : GroundStreamProcessor)
    → IsSending s
    → AreTimes nows
    → IsReady p.decoder
    → p.decoder.size ≡ 0
    → let sent = joined (frames nows s) in
      ((sample_all nows s).link.sent ≡ s.link.sent ++ sent)
      × ((feed sent p).output ≡ p.output ++ lines nows s)
      × ((feed sent p).errors ≡ p.errors)
      × ((feed sent p).malformed_input ≡ p.malformed_input)
sample_all-printed nows s p h t r z =
    let printed = feed-AllSent (frames nows s) (lines nows s) p (frames-AllSent nows s h t) r z in
    (sample_all-sent nows s h t, printed.0, printed.2, printed.3)
