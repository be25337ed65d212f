-- ===== src/Client/Live/Uplink.antt =====
-- What a live session puts on the socket.
use apogee_fc.Base.{
  ℕ, ◌^◌, ◌<◌, ◌≡◌, refl, sym, ap, ◌∙◌, subst, arith, List, [], ◌∷◌, ◌++◌, ◌||◌, Option, none, some,
  append-nil,
}
use apogee_fc.Frame.{span}
use apogee_fc.Command.{CommandMessage}
use apogee_fc.Command.Codec.{encode_command}
use apogee_fc.Command.Known.{IsKnown, command_frames}
use apogee_fc.Stream.Delivery.{joined}
use apogee_fc.Ground.Sequencer.{CommandSequencer, LocalCommandResult}
use apogee_fc.Ground.Sequencer.Lines.{Request, quit, request, Spelled, granted}
use apogee_fc.Ground.Sequencer.Grammar.{spelled, refused, parse-Reading}
use apogee_fc.Client.Socket.{
  SendReply, PollReply, SendStatus, all_sent, not_sent, pending, send_all, connected,
}
use apogee_fc.Client.Socket.SendAll.{Handed-rest, send_all-Handed}
use apogee_fc.Client.Live.Rounds.{Holds, choose-Holds, Parts, rounds-Holds}
use apogee_fc.Client.Live.{poll_error}
use apogee_fc.Client.Live.{
  Revents, RecvReply, received, recv_failed, Turn, Session, start, Step, report, close_with,
  disconnect, take_received, check_socket, sent_step, send_command, obey_line, take_line, run_live,
}
use apogee_fc.Client.Live.Commands.{
  Numbered, Numbered-append, joined-append, send_command_known, Spelled-IsKnown, sequenced,
}

-- The socket has taken the frames of the commands so far, but for the last bytes `rest`.
pub record Uplinked (s : Session) (rest : List ℕ) : Type 0 where
  pub commands : List CommandMessage
  pub numbered : Numbered 1 commands s.sequencer.next_sequence
  pub fits : s.sequencer.next_sequence < 2 ^ 32
  pub whole : s.wire ++ rest ≡ joined (command_frames commands)

abbrev pub IsComplete : Session → Type 0
IsComplete s = Uplinked s []

abbrev pub IsCut : Session → Type 0
IsCut s = (rest : List ℕ) × Uplinked s rest

abbrev pub StepUplinked : Step → Type 0
StepUplinked = Holds IsComplete IsCut (λ code. IsCut)

-- A session whose commands and socket are those of another.
same-Uplinked :
    (s s' : Session) (rest : List ℕ)
    → s'.sequencer ≡ s.sequencer
    → s'.wire ≡ s.wire
    → Uplinked s rest
    → Uplinked s' rest
same-Uplinked s s' rest e w u = record {
  commands = u.commands;
  numbered = subst (λ q. Numbered 1 u.commands q.next_sequence) (sym e) u.numbered;
  fits = rw e u.fits;
  whole = ap (λ t. t ++ rest) w ∙ u.whole;
}

sent_step-Uplinked :
    (status : SendStatus) (s : Session) (rest : List ℕ)
    → Uplinked s rest
    → (status ≡ all_sent → rest ≡ [])
    → StepUplinked (sent_step status s)
sent_step-Uplinked all_sent s rest u e = subst (Uplinked s) (e refl) u
sent_step-Uplinked not_sent s rest u e = (rest, same-Uplinked s _ rest refl refl u)
sent_step-Uplinked pending s rest u e = (rest, u)

send_command-Uplinked :
    (c : CommandMessage) (cs : List CommandMessage) (sends : List SendReply)
    (polls : List PollReply) (s : Session)
    → Numbered 1 (cs ++ (c ∷ [])) s.sequencer.next_sequence
    → s.sequencer.next_sequence < 2 ^ 32
    → s.wire ≡ joined (command_frames cs)
    → IsKnown c
    → StepUplinked (send_command c sends polls s)
send_command-Uplinked c cs sends polls s numbered fits whole v =
    let encoded = encode_command c in
    let sent = send_all encoded.frame s.wire sends polls in
    let (rest, e, done) =
      Handed-rest encoded.frame s.wire sent (send_all-Handed encoded.frame s.wire sends polls) in
    let u : Uplinked (record s { wire = sent.wire }) rest = record {
      commands = cs ++ (c ∷ []);
      numbered = numbered;
      fits = fits;
      whole = e ∙ ap (λ t. t ++ span encoded.frame) whole ∙ sym (joined-append cs c);
    } in
    subst StepUplinked (sym (send_command_known c sends polls s v))
      (sent_step-Uplinked sent.status (record s { wire = sent.wire }) rest u done)

granted-Uplinked :
    (text : List ℕ) (r : Request) (sends : List SendReply) (polls : List PollReply) (s : Session)
    → Spelled text r
    → Uplinked s []
    → let (q, result) = granted r s.sequencer in
      StepUplinked (obey_line result.status result.command sends polls (sequenced q s))
unfolding close_with
granted-Uplinked text quit sends polls s h u = ([], same-Uplinked s _ [] refl refl u)
granted-Uplinked text (request id period_ms) sends polls s h u =
    let v = Spelled-IsKnown text (request id period_ms) s.sequencer h u.fits refl in
    let (q, result) = granted (request id period_ms) s.sequencer in
    send_command-Uplinked result.command u.commands sends polls (sequenced q s)
      (Numbered-append 1 s.sequencer.next_sequence u.commands result.command u.numbered refl v)
      (omega arith) (sym (append-nil s.wire) ∙ u.whole) v

take_line-Uplinked :
    (line : Option (List ℕ)) (sends : List SendReply) (polls : List PollReply) (s : Session)
    → Uplinked s []
    → StepUplinked (take_line line sends polls s)
unfolding close_with
take_line-Uplinked none sends polls s u = ([], same-Uplinked s _ [] refl refl u)
take_line-Uplinked (some line) sends polls s u =
    let step = λ (x : CommandSequencer × LocalCommandResult).
      obey_line x.1.status x.1.command sends polls (sequenced x.0 s) in
    elim (parse-Reading line s.sequencer) [
      | spelled before text after r hb ha e h reads ↦
          subst (λ x. StepUplinked (step x)) (sym reads) (granted-Uplinked text r sends polls s h u)
      | refused reads ↦
          subst (λ x. StepUplinked (step x)) (sym reads) (same-Uplinked s _ [] refl refl u)
    ]

take_received-Uplinked :
    (reply : RecvReply) (s : Session) → Uplinked s [] → StepUplinked (take_received reply s)
unfolding take_received disconnect close_with
take_received-Uplinked (received []) s u = ([], same-Uplinked s _ [] refl refl u)
take_received-Uplinked (received (_ ∷ _)) s u = same-Uplinked s _ [] refl refl u
take_received-Uplinked (recv_failed _) s u = ([], same-Uplinked s _ [] refl refl u)

check_socket-Uplinked :
    (revents : Revents) (s : Session) → Uplinked s [] → StepUplinked (check_socket revents s)
unfolding check_socket disconnect close_with
check_socket-Uplinked revents s u =
    choose-Holds IsComplete IsCut (λ code. IsCut) (revents.error || revents.invalid) _ _
      ([], same-Uplinked s _ [] refl refl u)
      (choose-Holds IsComplete IsCut (λ code. IsCut) revents.hung_up _ _
        ([], same-Uplinked s _ [] refl refl u) u)

close-Uplinked : (code : ℕ) (s : Session) → Uplinked s [] → StepUplinked (close_with code s)
unfolding close_with
close-Uplinked code s u = ([], same-Uplinked s _ [] refl refl u)

parts : Parts IsComplete IsCut (λ code. IsCut)
parts = record {
  waits = λ s u. ([], u);
  receives = take_received-Uplinked;
  checks = check_socket-Uplinked;
  obeys = take_line-Uplinked;
  leaves = close-Uplinked 0;
  fails = λ errno s u.
      close-Uplinked 1 (report (poll_error errno) s) (same-Uplinked s _ [] refl refl u);
}

start-Uplinked : Uplinked start []
start-Uplinked = record { commands = []; numbered = refl; fits = omega arith; whole = refl }

-- Of a connected session, whatever the operator types and the system calls return: as long as it
-- runs, the socket has taken exactly the frames of commands that can be encoded, with the sequence
-- numbers from 1 on, without a gap, modulo 2^32; where it waits or has ended, the last bytes of these
-- frames may be missing.
pub run_live-Uplinked : (fd : ℕ) (ts : List Turn) → StepUplinked (run_live (connected fd) ts)
unfolding run_live
run_live-Uplinked fd ts =
    rounds-Holds IsComplete IsCut (λ code. IsCut) parts ts start start-Uplinked
