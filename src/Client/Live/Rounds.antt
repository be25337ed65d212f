-- ===== src/Client/Live/Rounds.antt =====
-- The loop of `run_live`, by the parts of its rounds.
use apogee_fc.Base.{
  ℕ, List, [], ◌∷◌, Bool, true, false, not, ◌||◌, if◌then◌else◌, Option, none, some,
}
use apogee_fc.Client.Socket.{Errno, eintr, eagain, ewouldblock, SendReply, PollReply}
use apogee_fc.Client.Live.{
  Revents, PollBoth, RecvReply, Turn, poll_error, Session, Step, proceed, again, waiting, exit,
  ◌>>=◌, report, close_with, receive, take_received, read_socket, check_socket, take_line,
  read_input, check_input, round_on, round, rounds,
}

-- `R` holds while the session runs, `W` where it waits in a call, and `E` where it ends.
module _ (R W : Session → Type 0) (E : ℕ → Session → Type 0) where
  abbrev pub Holds : Step → Type 0
  Holds (proceed s) = R s
  Holds (again s) = R s
  Holds (waiting s) = W s
  Holds (exit code s) = E code s

  pub choose-Holds : (b : Bool) (x y : Step) → Holds x → Holds y → Holds (if b then x else y)
  choose-Holds true x y h k = h
  choose-Holds false x y h k = k

  >>=-Holds :
      (m : Step) (f : Session → Step)
      → Holds m
      → ((s : Session) → R s → Holds (f s))
      → Holds (m >>= f)
  >>=-Holds (proceed s) f h k = k s h
  >>=-Holds (again s) f h k = h
  >>=-Holds (waiting s) f h k = h
  >>=-Holds (exit code s) f h k = h

  -- The parts of a round.
  pub record Parts : Type 0 where
    pub waits : (s : Session) → R s → W s
    pub receives : (reply : RecvReply) (s : Session) → R s → Holds (take_received reply s)
    pub checks : (revents : Revents) (s : Session) → R s → Holds (check_socket revents s)
    pub obeys :
        (line : Option (List ℕ)) (sends : List SendReply) (polls : List PollReply) (s : Session)
        → R s
        → Holds (take_line line sends polls s)
    pub leaves : (s : Session) → R s → Holds (close_with 0 s)
    pub fails :
        (errno : Errno) (s : Session) → R s → Holds (close_with 1 (report (poll_error errno) s))

  module _ (parts : Parts) where
    read_socket-Holds :
        (revents : Revents) (replies : List RecvReply) (s : Session)
        → R s
        → Holds (read_socket revents replies s)
    unfolding read_socket
    read_socket-Holds revents replies s h =
        choose-Holds (not revents.readable) _ _ h
          (elim (receive replies)
            as (λ r. Holds (elim r [ none ↦ waiting s | some reply ↦ take_received reply s ])) [
              | none ↦ parts.waits s h
              | some reply ↦ parts.receives reply s h
            ])

    read_input-Holds :
        (revents : Revents) (t : Turn) (s : Session)
        → R s
        → Holds (read_input revents t.line t.sends t.polls s)
    unfolding read_input
    read_input-Holds revents t s h =
        choose-Holds (not revents.readable) _ _ h (parts.obeys t.line t.sends t.polls s h)

    check_input-Holds : (revents : Revents) (s : Session) → R s → Holds (check_input revents s)
    unfolding check_input
    check_input-Holds revents s h =
        choose-Holds (revents.hung_up || revents.error || revents.invalid) _ _ (parts.leaves s h) h

    round_on-Holds : (poll : PollBoth) (t : Turn) (s : Session) → R s → Holds (round_on poll t s)
    round_on-Holds (PollBoth.poll_failed eintr) t s h = h
    round_on-Holds (PollBoth.poll_failed eagain) t s h = parts.fails eagain s h
    round_on-Holds (PollBoth.poll_failed ewouldblock) t s h = parts.fails ewouldblock s h
    round_on-Holds (PollBoth.poll_failed (Errno.unlisted n)) t s h =
        parts.fails (Errno.unlisted n) s h
    round_on-Holds (PollBoth.polled socket input) t s h =
        let read = read_socket socket t.recvs s in
        let checked = read >>= check_socket socket in
        let typed = checked >>= read_input input t.line t.sends t.polls in
        >>=-Holds typed (check_input input)
          (>>=-Holds checked (read_input input t.line t.sends t.polls)
            (>>=-Holds read (check_socket socket) (read_socket-Holds socket t.recvs s h)
              (parts.checks socket))
            (read_input-Holds input t))
          (check_input-Holds input)

    round-Holds : (t : Turn) (s : Session) → R s → Holds (round t s)
    unfolding round
    round-Holds t s h = round_on-Holds t.poll t s h

    pub rounds-Holds : (ts : List Turn) (s : Session) → R s → Holds (rounds ts s)
    unfolding rounds
    rounds-Holds [] s h = h
    rounds-Holds (t ∷ ts) s h =
        elim (round t s)
            as (λ m.
              Holds m
              → Holds (elim m [
                | proceed s' ↦ rounds ts s'
                | again s' ↦ rounds ts s'
                | waiting s' ↦ waiting s'
                | exit code s' ↦ exit code s'
              ])) [
                | proceed s' ↦ λ k. rounds-Holds ts s' k
                | again s' ↦ λ k. rounds-Holds ts s' k
                | waiting s' ↦ λ k. k
                | exit code s' ↦ λ k. k
              ]
          (round-Holds t s h)
