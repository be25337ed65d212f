-- ===== src/Tests/Ground.antt =====
-- The ground's stream processor on concrete bytes.
use apogee_fc.Base.{ℕ, ◌≡◌, true, refl, arith, List, [], ◌∷◌, ◌++◌}
use apogee_fc.Frame.{span}
use apogee_fc.Command.Ack.{encode_command_ack}
use apogee_fc.TelemetryCodec.{encode_telemetry}
use apogee_fc.Stream.Ready.{initial-IsReady}
use apogee_fc.Stream.Delivery.{joined}
use apogee_fc.Ground.{OutputLine, telemetry, ack, initial, feed, finish}
use apogee_fc.Ground.Tally.{IsTallied, initial-IsTallied, feed-IsTallied}
use apogee_fc.Ground.Printing.{AllSent, telemetry_sent, ack_sent, feed-AllSent}
use apogee_fc.Ground.Downlink.{IsSending, sample_all, frames, lines, sample_all-printed}
use apogee_fc.Flight.{start}
use apogee_fc.Flight.Invariant.{start-IsFlying}
use apogee_fc.Tests.Data.{cold_telemetry, refusal, booted, clock}
use apogee_fc.Tests.Codecs.{cold_telemetry-IsTelemetry}

abbrev pub two_frames : List (List ℕ)
two_frames =
    span (encode_telemetry cold_telemetry).frame ∷ span (encode_command_ack refusal).frame ∷ []

abbrev pub two_lines : List OutputLine
two_lines = telemetry cold_telemetry ∷ ack refusal ∷ []

pub two_frames-AllSent : AllSent two_frames two_lines
two_frames-AllSent = (
  telemetry_sent cold_telemetry 1 cold_telemetry-IsTelemetry refl,
  (ack_sent refusal 3 2 (omega arith) refl refl, tt),
)

feed-AllSent_example :
    let p' = feed (joined two_frames) initial in
    (p'.output ≡ [] ++ two_lines)
    × (p'.decoded_messages ≡ 2)
    × (p'.errors ≡ [])
    × (p'.malformed_input ≡ initial.malformed_input)
    × (p'.decoder.size ≡ 0)
feed-AllSent_example =
    feed-AllSent two_frames two_lines initial two_frames-AllSent initial-IsReady refl

feed-IsTallied_example :
    IsTallied (feed (0 ∷ 0xa5 ∷ 0x5a ∷ 1 ∷ []) initial)
    × IsTallied (finish (feed (0 ∷ 0xa5 ∷ 0x5a ∷ 1 ∷ []) initial))
feed-IsTallied_example = feed-IsTallied (0 ∷ 0xa5 ∷ 0x5a ∷ 1 ∷ []) initial initial-IsTallied

booted-IsSending : IsSending booted
unfolding start
booted-IsSending = record {
  flying = start-IsFlying clock true;
  ready = refl;
  numbered = omega arith;
}

sample_all-printed_example :
    let sent = joined (frames (1000 ∷ 2000 ∷ []) booted) in
    ((sample_all (1000 ∷ 2000 ∷ []) booted).link.sent ≡ booted.link.sent ++ sent)
    × ((feed sent initial).output ≡ [] ++ lines (1000 ∷ 2000 ∷ []) booted)
    × ((feed sent initial).errors ≡ [])
    × ((feed sent initial).malformed_input ≡ initial.malformed_input)
sample_all-printed_example =
    sample_all-printed (1000 ∷ 2000 ∷ []) booted initial booted-IsSending
      (omega arith, (omega arith, tt)) initial-IsReady refl
