-- ===== src/Client/Live/Closing.antt =====
-- How a live session closes its socket, and its exit code.
use apogee_fc.Base.{
  ℕ, ◌≡◌, refl, arith, List, [], ◌∷◌, ◌++◌, Bool, true, false, not, ◌||◌, if◌then◌else◌, Option,
  none, some,
}
use apogee_fc.Command.{CommandMessage}
use apogee_fc.Command.Codec.{encode_command}
use apogee_fc.Ground.Sequencer.{LocalCommandStatus, parse}
use apogee_fc.Client.Socket.{
  SendReply, PollReply, SendStatus, all_sent, not_sent, pending, send_all, connected,
}
use apogee_fc.Client.Live.Rounds.{Holds, choose-Holds, Parts, rounds-Holds}
use apogee_fc.Client.Live.{
  Revents, RecvReply, Turn, LiveError, poll_error, receive_error, disconnected, socket_error,
  invalid_command, encoding_failed, send_error, Session, start, Step, report, close_with,
  disconnect, received, recv_failed, take_received, check_socket, is_encoded, sent_step,
  send_command, obey_line, take_line, run_live,
}

-- A failed system call, or an error on the socket.
abbrev pub is_failure : LiveError → Bool
is_failure (poll_error _) = true
is_failure (receive_error _) = true
is_failure socket_error = true
is_failure send_error = true
is_failure _ = false

abbrev pub any_failure : List LiveError → Bool
any_failure [] = false
any_failure (e ∷ es) = is_failure e || any_failure es

-- While the session runs, its socket is open and nothing has failed.
abbrev pub IsRunning : Session → Type 0
IsRunning s = (s.closed ≡ 0) × (any_failure s.errors ≡ false)

-- At the end it is closed, and the exit code tells of failures.
abbrev pub IsClosed : ℕ → Session → Type 0
IsClosed code s = (s.closed ≡ 1) × (code ≡ (if any_failure s.errors then 1 else 0))

abbrev pub IsOrderly : Step → Type 0
IsOrderly = Holds IsRunning IsRunning IsClosed

any_failure-append :
    (es : List LiveError) (e : LiveError)
    → any_failure (es ++ (e ∷ [])) ≡ any_failure es || is_failure e
any_failure-append [] e = ground arith
any_failure-append (f ∷ es) e = ground (arith, any_failure-append es e)

-- The ends of the parts.
leave-IsOrderly : (s : Session) → IsRunning s → IsOrderly (close_with 0 s)
unfolding close_with
leave-IsOrderly s h = ground arith

fail-IsOrderly :
    (e : LiveError) (s : Session)
    → is_failure e ≡ true
    → IsRunning s
    → IsOrderly (close_with 1 (report e s))
unfolding close_with
fail-IsOrderly e s f h = ground (arith, any_failure-append s.errors e)

report-IsRunning :
    (e : LiveError) (s : Session) → is_failure e ≡ false → IsRunning s → IsRunning (report e s)
report-IsRunning e s f h = ground (arith, any_failure-append s.errors e)

disconnect-IsOrderly : (s : Session) → IsRunning s → IsOrderly (disconnect s)
unfolding disconnect close_with
disconnect-IsOrderly s h = ground (arith, report-IsRunning disconnected s refl h)

take_received-IsOrderly :
    (reply : RecvReply) (s : Session) → IsRunning s → IsOrderly (take_received reply s)
unfolding take_received
take_received-IsOrderly (received []) s h = disconnect-IsOrderly s h
take_received-IsOrderly (received (_ ∷ _)) s h = h
take_received-IsOrderly (recv_failed errno) s h = fail-IsOrderly (receive_error errno) s refl h

check_socket-IsOrderly :
    (revents : Revents) (s : Session) → IsRunning s → IsOrderly (check_socket revents s)
unfolding check_socket
check_socket-IsOrderly revents s h =
    choose-Holds IsRunning IsRunning IsClosed (revents.error || revents.invalid) _ _
      (fail-IsOrderly socket_error s refl h)
      (choose-Holds IsRunning IsRunning IsClosed revents.hung_up _ _ (disconnect-IsOrderly s h) h)

sent_step-IsOrderly :
    (status : SendStatus) (s : Session) → IsRunning s → IsOrderly (sent_step status s)
sent_step-IsOrderly all_sent s h = h
sent_step-IsOrderly not_sent s h = ground (arith, any_failure-append s.errors send_error)
sent_step-IsOrderly pending s h = h

send_command-IsOrderly :
    (command : CommandMessage) (sends : List SendReply) (polls : List PollReply) (s : Session)
    → IsRunning s
    → IsOrderly (send_command command sends polls s)
unfolding send_command
send_command-IsOrderly command sends polls s h =
    let sending = send_all (encode_command command).frame s.wire sends polls in
    choose-Holds IsRunning IsRunning IsClosed (not (is_encoded (encode_command command).status)) _ _
      (report-IsRunning encoding_failed s refl h)
      (sent_step-IsOrderly sending.status (record s { wire = sending.wire }) h)

obey_line-IsOrderly :
    (status : LocalCommandStatus) (command : CommandMessage) (sends : List SendReply)
    (polls : List PollReply) (s : Session)
    → IsRunning s
    → IsOrderly (obey_line status command sends polls s)
obey_line-IsOrderly LocalCommandStatus.quit command sends polls s h = leave-IsOrderly s h
obey_line-IsOrderly LocalCommandStatus.invalid_syntax command sends polls s h =
    report-IsRunning invalid_command s refl h
obey_line-IsOrderly LocalCommandStatus.command command sends polls s h =
    send_command-IsOrderly command sends polls s h

take_line-IsOrderly :
    (line : Option (List ℕ)) (sends : List SendReply) (polls : List PollReply) (s : Session)
    → IsRunning s
    → IsOrderly (take_line line sends polls s)
take_line-IsOrderly none sends polls s h = leave-IsOrderly s h
take_line-IsOrderly (some line) sends polls s h =
    let (sequencer, result) = parse line s.sequencer in
    obey_line-IsOrderly result.status result.command sends polls
      (record s { sequencer = sequencer }) h

parts : Parts IsRunning IsRunning IsClosed
parts = record {
  waits = λ s h. h;
  receives = take_received-IsOrderly;
  checks = check_socket-IsOrderly;
  obeys = take_line-IsOrderly;
  leaves = leave-IsOrderly;
  fails = λ errno s h. fail-IsOrderly (poll_error errno) s refl h;
}

-- Of a connected session, whatever the system calls return: as long as it runs or waits, the socket has
-- not been closed and no failure been reported. When it ends, the socket has been closed exactly once,
-- and the exit code is 1 if a failure of a system call or of the socket was reported, and 0 otherwise.
pub run_live-IsOrderly : (fd : ℕ) (ts : List Turn) → IsOrderly (run_live (connected fd) ts)
unfolding run_live
run_live-IsOrderly fd ts = rounds-Holds IsRunning IsRunning IsClosed parts ts start (refl, refl)
