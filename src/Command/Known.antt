-- ===== src/Command/Known.antt =====
-- Sequences of commands that can be encoded.
use apogee_fc.Base.{ℕ, ◌≡◌, List, [], ◌∷◌, some}
use apogee_fc.Frame.{span}
use apogee_fc.Command.{CommandMessage, CommandAckMessage, encode_command_id}
use apogee_fc.Command.Codec.{encode_command}
use apogee_fc.Command.Ack.{encode_command_ack}
use apogee_fc.Command.RoundTrip.{IsMessage}

-- A command with a known identifier and fields in the ranges of their types.
pub record IsKnown (c : CommandMessage) : Type 0 where
  pub message : IsMessage c
  pub id : (k : ℕ) × (encode_command_id c.command ≡ some k)

abbrev pub AreKnown : List CommandMessage → Type 0
AreKnown [] = Unit
AreKnown (c ∷ cs) = IsKnown c × AreKnown cs

-- The bytes of the frames of commands and of acknowledgements.
abbrev pub command_frames : List CommandMessage → List (List ℕ)
command_frames [] = []
command_frames (c ∷ cs) = span (encode_command c).frame ∷ command_frames cs

abbrev pub ack_frames : List CommandAckMessage → List (List ℕ)
ack_frames [] = []
ack_frames (a ∷ acks) = span (encode_command_ack a).frame ∷ ack_frames acks
