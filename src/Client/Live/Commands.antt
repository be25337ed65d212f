-- ===== src/Client/Live/Commands.antt =====
-- The commands of a session: their numbers, and how they are sent.
use apogee_fc.Base.{
  ℕ, ◌+◌, ◌%◌, ◌^◌, ◌<◌, ◌≡◌, refl, sym, ap, ◌∙◌, arith, List, [], ◌∷◌, ◌++◌, not, if◌then◌else◌,
  append_assoc, append-nil,
}
use apogee_fc.Frame.{span}
use apogee_fc.Command.{CommandMessage}
use apogee_fc.Command.Codec.{encode_command}
use apogee_fc.Command.RoundTrip.{decode_command-encode_command}
use apogee_fc.Command.Known.{IsKnown, AreKnown, command_frames}
use apogee_fc.Stream.Delivery.{joined}
use apogee_fc.Ground.Sequencer.{CommandSequencer, LocalCommandStatus}
use apogee_fc.Ground.Sequencer.Lines.{
  Request, Spelled, quit_text, ping_text, safe_text, period_text, granted,
}
use apogee_fc.Client.Socket.{SendReply, PollReply, send_all}
use apogee_fc.Client.Live.{
  Session, again, report, is_encoded, sent_step, send_command, encoding_failed,
}

-- Known commands with consecutive sequence numbers modulo 2^32, from `n` to before `n'`.
abbrev pub Numbered : ℕ → List CommandMessage → ℕ → Type 0
Numbered n [] n' = n ≡ n'
Numbered n (c ∷ cs) n' = (c.sequence ≡ n) × IsKnown c × Numbered ((n + 1) % 2 ^ 32) cs n'

pub Numbered-AreKnown : (n m : ℕ) (cs : List CommandMessage) → Numbered n cs m → AreKnown cs
Numbered-AreKnown n m [] h = tt
Numbered-AreKnown n m (c ∷ cs) h = (h.1, Numbered-AreKnown ((n + 1) % 2 ^ 32) m cs h.2)

pub Numbered-append :
    (n m : ℕ) (cs : List CommandMessage) (c : CommandMessage)
    → Numbered n cs m
    → c.sequence ≡ m
    → IsKnown c
    → Numbered n (cs ++ (c ∷ [])) ((m + 1) % 2 ^ 32)
Numbered-append n m [] c h e v = (e ∙ sym h, v, ap (λ (k : ℕ). (k + 1) % 2 ^ 32) h)
Numbered-append n m (d ∷ cs) c h e v = (h.0, h.1, Numbered-append ((n + 1) % 2 ^ 32) m cs c h.2 e v)

pub joined-append :
    (cs : List CommandMessage) (c : CommandMessage)
    → joined (command_frames (cs ++ (c ∷ [])))
      ≡ joined (command_frames cs) ++ span (encode_command c).frame
joined-append [] c = append-nil (span (encode_command c).frame)
joined-append (d ∷ cs) c =
    ap (λ t. span (encode_command d).frame ++ t) (joined-append cs c)
    ∙ sym (
        append_assoc (span (encode_command d).frame) (joined (command_frames cs))
          (span (encode_command c).frame))

-- A command that can be encoded is sent.
pub send_command_known :
    (c : CommandMessage) (sends : List SendReply) (polls : List PollReply) (s : Session)
    → IsKnown c
    → let sent = send_all (encode_command c).frame s.wire sends polls in
      send_command c sends polls s ≡ sent_step sent.status (record s { wire = sent.wire })
unfolding send_command
send_command_known c sends polls s v =
    let sent = send_all (encode_command c).frame s.wire sends polls in
    ap
      (λ st.
        if not (is_encoded st)
        then again (report encoding_failed s)
        else sent_step sent.status (record s { wire = sent.wire }))
      (decode_command-encode_command c v.id.0 v.message v.id.1).0

-- The command of a request that some text spells can be encoded.
pub Spelled-IsKnown :
    (text : List ℕ) (r : Request) (q : CommandSequencer)
    → Spelled text r
    → q.next_sequence < 2 ^ 32
    → (granted r q).1.status ≡ LocalCommandStatus.command
    → IsKnown (granted r q).1.command
Spelled-IsKnown _ _ q quit_text h e = absurd (ground arith)
Spelled-IsKnown _ _ q ping_text h e = record {
  message = record { sequence_fits = h; period_fits = omega arith };
  id = (1, refl);
}
Spelled-IsKnown _ _ q safe_text h e = record {
  message = record { sequence_fits = h; period_fits = omega arith };
  id = (2, refl);
}
Spelled-IsKnown _ _ q (period_text gap number _ _ _ v) h e = record {
  message = record { sequence_fits = h; period_fits = v };
  id = (3, refl);
}

-- The session with another state of the sequencer.
abbrev pub sequenced : CommandSequencer → Session → Session
sequenced q s = record s { sequencer = q }
