-- ===== src/Client/Live/Typing.antt =====
-- What the operator types into a live session, and what of it goes to the socket.
use apogee_fc.Base.{
  ℕ, ◌^◌, ◌<◌, ◌≡◌, refl, sym, ap, ◌∙◌, subst, arith, List, [], ◌∷◌, ◌++◌, Bool, true, false, not,
  if◌then◌else◌, Option, none, some, append_assoc, append-nil,
}
use apogee_fc.Frame.{span}
use apogee_fc.Command.{CommandMessage}
use apogee_fc.Command.Codec.{encode_command}
use apogee_fc.Command.Known.{IsKnown, command_frames}
use apogee_fc.Stream.Delivery.{joined}
use apogee_fc.Ground.Sequencer
use apogee_fc.Ground.Sequencer.{
  CommandSequencer, LocalCommandStatus, LocalCommandResult, parse, invalid,
}
use apogee_fc.Ground.Sequencer.Lines.{Request, quit, request, Spelled, granted}
use apogee_fc.Ground.Sequencer.Grammar.{spelled, refused, parse-Reading}
use apogee_fc.Client.Socket.{
  Errno, eintr, eagain, ewouldblock, SendReply, PollReply, SendStatus, all_sent, not_sent, pending,
  send_all, connected,
}
use apogee_fc.Client.Socket.SendAll.{Handed-rest, send_all-Handed}
use apogee_fc.Client.Live.{
  Revents, PollBoth, Turn, Session, start, Step, proceed, again, waiting, exit, ◌>>=◌, close_with,
  read_socket, check_socket, sent_step, send_command, obey_line, take_line, read_input, check_input,
  round_on, round, rounds, run_live,
}
use apogee_fc.Client.Live.Commands.{
  Numbered, joined-append, send_command_known, Spelled-IsKnown, sequenced,
}
use apogee_fc.Client.Live.Typed.{line_of, parsed, entered, typed, typed-Numbered}
use apogee_fc.Client.Live.Carrying.{
  Carries, Goes, >>=-Goes, read_socket-Goes, check_socket-Goes, check_input-Goes,
}

-- The loop goes on, or on to the next part, with the commands `cs`.
abbrev GoesWith : List CommandMessage → CommandSequencer → Step → Type 0
GoesWith cs q = Goes (Carries cs q) (Carries cs q)

sent_step-Goes :
    (status : SendStatus) (cs : List CommandMessage) (q : CommandSequencer) (s : Session)
    → (status ≡ all_sent → Carries cs q s)
    → GoesWith cs q (sent_step status s)
sent_step-Goes all_sent cs q s h = h refl
sent_step-Goes not_sent cs q s h = tt
sent_step-Goes pending cs q s h = tt

send_command-Goes :
    (c : CommandMessage) (cs : List CommandMessage) (q : CommandSequencer) (sends : List SendReply)
    (polls : List PollReply) (s : Session)
    → Carries cs q s
    → IsKnown c
    → GoesWith (cs ++ (c ∷ [])) q (send_command c sends polls s)
send_command-Goes c cs q sends polls s carries known =
    let frame = (encode_command c).frame in
    let sent = send_all frame s.wire sends polls in
    let (rest, e, done) =
      Handed-rest frame s.wire sent (send_all-Handed frame s.wire sends polls) in
    subst (GoesWith (cs ++ (c ∷ [])) q) (sym (send_command_known c sends polls s known)) (
      sent_step-Goes sent.status (cs ++ (c ∷ [])) q (record s { wire = sent.wire })
        (λ all. record {
          sequencer = carries.sequencer;
          fits = carries.fits;
          wire =
              sym (append-nil sent.wire)
              ∙ ap (λ t. sent.wire ++ t) (sym (done all))
              ∙ e
              ∙ ap (λ t. t ++ span frame) carries.wire
              ∙ sym (joined-append cs c);
        }))

-- A session that has taken no command in between.
unchanged :
    (cs : List CommandMessage) (q : CommandSequencer) (s : Session)
    → Carries cs q s
    → Carries (cs ++ []) q s
unchanged cs q s c = subst (λ ds. Carries ds q s) (sym (append-nil cs)) c

-- What `obey_line` makes of what `parse` returns.
abbrev Obeys :
    List CommandMessage
    → List SendReply
    → List PollReply
    → Session
    → CommandSequencer × LocalCommandResult
    → Type 0
Obeys cs sends polls s x =
    GoesWith (cs ++ (parsed x).1) (parsed x).0
      (obey_line x.1.status x.1.command sends polls (sequenced x.0 s))

granted-Obeys :
    (text : List ℕ) (r : Request) (cs : List CommandMessage) (sends : List SendReply)
    (polls : List PollReply) (s : Session)
    → Spelled text r
    → Carries cs s.sequencer s
    → Obeys cs sends polls s (granted r s.sequencer)
unfolding close_with
granted-Obeys text quit cs sends polls s h c = tt
granted-Obeys text (request id period_ms) cs sends polls s h c =
    let v = Spelled-IsKnown text (request id period_ms) s.sequencer h c.fits refl in
    let (q, result) = granted (request id period_ms) s.sequencer in
    send_command-Goes result.command cs q sends polls (sequenced q s)
      (record { sequencer = refl; fits = omega arith; wire = c.wire }) v

take_line-Goes :
    (line : Option (List ℕ)) (cs : List CommandMessage) (sends : List SendReply)
    (polls : List PollReply) (s : Session)
    → Carries cs s.sequencer s
    → GoesWith
        (cs ++ (entered line s.sequencer).1)
        (entered line s.sequencer).0
        (take_line line sends polls s)
unfolding close_with
take_line-Goes none cs sends polls s c = tt
take_line-Goes (some line) cs sends polls s c = elim (parse-Reading line s.sequencer) [
  | spelled before text after r hb ha e h reads ↦
      subst (Obeys cs sends polls s) (sym reads) (granted-Obeys text r cs sends polls s h c)
  | refused reads ↦
      subst (Obeys cs sends polls s) (sym reads)
        (unchanged cs s.sequencer _ (record { sequencer = refl; fits = c.fits; wire = c.wire }))
]

input-Goes :
    (readable : Bool) (line : Option (List ℕ)) (cs : List CommandMessage) (sends : List SendReply)
    (polls : List PollReply) (s : Session)
    → Carries cs s.sequencer s
    → let (q', new) = entered (if not readable then none else line) s.sequencer in
      GoesWith (cs ++ new) q' (if not readable then proceed s else take_line line sends polls s)
input-Goes true line cs sends polls s c = take_line-Goes line cs sends polls s c
input-Goes false line cs sends polls s c = unchanged cs s.sequencer s c

read_input-Goes :
    (revents : Revents) (t : Turn) (cs : List CommandMessage) (q : CommandSequencer) (s : Session)
    → Carries cs q s
    → let (q', new) = entered (if not revents.readable then none else t.line) q in
      GoesWith (cs ++ new) q' (read_input revents t.line t.sends t.polls s)
unfolding read_input
read_input-Goes revents t cs q s c =
    subst
      (λ q.
        let (q', new) = entered (if not revents.readable then none else t.line) q in
        GoesWith (cs ++ new) q' (read_input revents t.line t.sends t.polls s))
      c.sequencer
      (input-Goes revents.readable t.line cs t.sends t.polls s (record {
        sequencer = refl;
        fits = subst (λ q. q.next_sequence < 2 ^ 32) (sym c.sequencer) c.fits;
        wire = c.wire;
      }))

round_on-Goes :
    (poll : PollBoth) (t : Turn) (cs : List CommandMessage) (q : CommandSequencer) (s : Session)
    → Carries cs q s
    → let (q', new) = entered (line_of poll t.line) q in GoesWith (cs ++ new) q' (round_on poll t s)
unfolding close_with
round_on-Goes (PollBoth.poll_failed eintr) t cs q s c = unchanged cs q s c
round_on-Goes (PollBoth.poll_failed eagain) t cs q s c = tt
round_on-Goes (PollBoth.poll_failed ewouldblock) t cs q s c = tt
round_on-Goes (PollBoth.poll_failed (Errno.unlisted n)) t cs q s c = tt
round_on-Goes (PollBoth.polled socket input) t cs q s c =
    let (q', new) = entered (line_of (PollBoth.polled socket input) t.line) q in
    let before = Carries cs q in
    let after = Carries (cs ++ new) q' in
    let read = read_socket socket t.recvs s in
    let checked = read >>= check_socket socket in
    let obeyed = checked >>= read_input input t.line t.sends t.polls in
    >>=-Goes after after after obeyed (check_input input)
      (>>=-Goes before after after checked (read_input input t.line t.sends t.polls)
        (>>=-Goes before before after read (check_socket socket)
          (read_socket-Goes cs q after socket t.recvs s c) (check_socket-Goes cs q after socket))
        (read_input-Goes input t cs q))
      (check_input-Goes (cs ++ new) q' after input)

rounds-Goes :
    (ts : List Turn) (cs : List CommandMessage) (q : CommandSequencer) (s : Session)
    → Carries cs q s
    → let (q', new) = typed ts q in GoesWith (cs ++ new) q' (rounds ts s)
unfolding rounds round
rounds-Goes [] cs q s c = unchanged cs q s c
rounds-Goes (t ∷ ts) cs q s c =
    let (q', new) = entered (line_of t.poll t.line) q in
    let (q'', later) = typed ts q' in
    let onward = λ (s' : Session) (c' : Carries (cs ++ new) q' s').
      subst (λ ds. GoesWith ds q'' (rounds ts s')) (append_assoc cs new later)
        (rounds-Goes ts (cs ++ new) q' s' c') in
    elim (round_on t.poll t s)
        as (λ m.
          GoesWith (cs ++ new) q' m
          → GoesWith (cs ++ (new ++ later)) q'' (elim m [
            | proceed s' ↦ rounds ts s'
            | again s' ↦ rounds ts s'
            | waiting s' ↦ waiting s'
            | exit code s' ↦ exit code s'
          ])) [
            | proceed s' ↦ onward s'
            | again s' ↦ onward s'
            | waiting s' ↦ λ k. tt
            | exit code s' ↦ λ k. tt
          ]
      (round_on-Goes t.poll t cs q s c)

-- Of a connected session that still runs: the socket has taken exactly the frames of the commands that
-- the typed lines spell, in their order, however it took them, and lines that spell none have left no
-- trace on it. The commands are numbered from 1 on, without a gap, modulo 2^32.
pub run_live-typed :
    (fd : ℕ) (ts : List Turn) (s : Session)
    → run_live (connected fd) ts ≡ again s
    → let cs = (typed ts Sequencer.initial).1 in
      (s.wire ≡ joined (command_frames cs)) × Numbered 1 cs s.sequencer.next_sequence
unfolding run_live
run_live-typed fd ts s e =
    let (q, cs) = typed ts Sequencer.initial in
    let carries = subst (GoesWith cs q) e (
      rounds-Goes ts [] Sequencer.initial start
        (record { sequencer = refl; fits = omega arith; wire = refl })) in
    (
      carries.wire,
      subst (λ q. Numbered 1 cs q.next_sequence) (sym carries.sequencer)
          (typed-Numbered ts Sequencer.initial (omega arith)),
    )
