-- ===== src/Client/Live.antt =====
-- host/apogee_ground_client.cpp: `run_live`. One round of its loop gets what the system calls of that
-- round return; the client's lines on `std::cerr` are a list of their own, beside the processor's.
pub mod Rounds
pub mod Closing
pub mod Commands
pub mod Uplink
pub mod Typed
pub mod Carrying
pub mod Typing
use apogee_fc.Base.{
  ℕ, zero, suc, ◌+◌, List, [], ◌∷◌, ◌++◌, Bool, true, false, not, ◌||◌, if◌then◌else◌, take, Option,
  none, some,
}
use apogee_fc.Command.{CommandMessage, CommandEncodeStatus}
use apogee_fc.Command.Codec.{encode_command}
use apogee_fc.Ground
use apogee_fc.Ground.{GroundStreamProcessor, feed}
use apogee_fc.Ground.Sequencer
use apogee_fc.Ground.Sequencer.{CommandSequencer, LocalCommandStatus, LocalCommandResult, parse}
use apogee_fc.Client.Socket.{
  Errno, eintr, SendReply, PollReply, SendStatus, Sending, all_sent, not_sent, pending, send_all,
  ConnectStatus, connected, unconnected, connecting,
}
use apogee_fc.Client.Offline.{io_buffer_size}

-- The `revents` of a descriptor: POLLIN, POLLHUP, POLLERR and POLLNVAL.
pub record Revents : Type 0 where
  pub readable : Bool
  pub hung_up : Bool
  pub error : Bool
  pub invalid : Bool

-- `poll` on the socket and the terminal.
pub data PollBoth : Type 0 where
  poll_failed : Errno → PollBoth
  polled : Revents → Revents → PollBoth

-- `recv`: some bytes, of which the buffer takes what it has room for; none at the end of the stream; -1.
pub data RecvReply : Type 0 where
  received : List ℕ → RecvReply
  recv_failed : Errno → RecvReply

-- What the system calls of one round return: `line` is that of `std::getline`.
pub record Turn : Type 0 where
  pub poll : PollBoth
  pub recvs : List RecvReply
  pub line : Option (List ℕ)
  pub sends : List SendReply
  pub polls : List PollReply

pub data LiveError : Type 0 where
  poll_error receive_error : Errno → LiveError
  disconnected socket_error invalid_command encoding_failed send_error : LiveError

-- The local variables, all that has gone to the socket, and how often it has been closed.
pub record Session : Type 0 where
  pub processor : GroundStreamProcessor
  pub sequencer : CommandSequencer
  pub wire : List ℕ
  pub errors : List LiveError
  pub closed : ℕ

abbrev pub start : Session
start = record {
  processor = Ground.initial;
  sequencer = Sequencer.initial;
  wire = [];
  errors = [];
  closed = 0;
}

-- A part of the loop's body ends by going on to the next part, by `continue`, by `return`, or it waits
-- in a call.
pub data Step : Type 0 where
  proceed again waiting : Session → Step
  exit : ℕ → Session → Step

infixl 5 ◌>>=◌
abbrev pub ◌>>=◌ : Step → (Session → Step) → Step
proceed s >>= f = f s
again s >>= f = again s
waiting s >>= f = waiting s
exit code s >>= f = exit code s

abbrev pub report : LiveError → Session → Session
report e s = record s { errors = s.errors ++ (e ∷ []) }

-- `close(socket_fd); return code;`.
unfoldable pub close_with : ℕ → Session → Step
close_with code s = exit code (record s { closed = s.closed + 1 })

-- The lines on "Server disconnected".
unfoldable pub disconnect : Session → Step
unfolding close_with
disconnect s =
    close_with 0 (record (report disconnected s) { processor = Ground.finish s.processor })

-- The loop round `recv`; `none` while it waits.
unfoldable pub receive : List RecvReply → Option RecvReply
receive [] = none
receive (received bytes ∷ _) = some (received bytes)
receive (recv_failed eintr ∷ replies) = receive replies
receive (recv_failed errno ∷ _) = some (recv_failed errno)

unfoldable pub take_received : RecvReply → Session → Step
unfolding close_with disconnect
take_received (received []) s = disconnect s
take_received (received (byte ∷ bytes)) s =
    proceed (record s { processor = feed (take io_buffer_size (byte ∷ bytes)) s.processor })
take_received (recv_failed errno) s = close_with 1 (report (receive_error errno) s)

unfoldable pub read_socket : Revents → List RecvReply → Session → Step
unfolding receive take_received
read_socket revents replies s =
    if not revents.readable
    then proceed s
    else elim (receive replies) [ none ↦ waiting s | some reply ↦ take_received reply s ]

unfoldable pub check_socket : Revents → Session → Step
unfolding close_with disconnect
check_socket revents s =
    if revents.error || revents.invalid
    then close_with 1 (report socket_error s)
    else if revents.hung_up
    then disconnect s
    else proceed s

abbrev pub is_encoded : CommandEncodeStatus → Bool
is_encoded CommandEncodeStatus.ok = true
is_encoded _ = false

abbrev pub sent_step : SendStatus → Session → Step
sent_step all_sent s = proceed s
sent_step not_sent s = exit 1 (record (report send_error s) { closed = s.closed + 1 })
sent_step pending s = waiting s

unfoldable pub send_command : CommandMessage → List SendReply → List PollReply → Session → Step
send_command command sends polls s =
    let encoded = encode_command command in
    let sending = send_all encoded.frame s.wire sends polls in
    if not (is_encoded encoded.status)
    then again (report encoding_failed s)
    else sent_step sending.status (record s { wire = sending.wire })

-- What follows `parse`.
abbrev pub obey_line :
    LocalCommandStatus → CommandMessage → List SendReply → List PollReply → Session → Step
obey_line LocalCommandStatus.quit command sends polls s = close_with 0 s
obey_line LocalCommandStatus.invalid_syntax command sends polls s = again (report invalid_command s)
obey_line LocalCommandStatus.command command sends polls s = send_command command sends polls s

abbrev pub take_line : Option (List ℕ) → List SendReply → List PollReply → Session → Step
take_line none sends polls s = close_with 0 s
take_line (some line) sends polls s =
    let (sequencer, result) = parse line s.sequencer in
    obey_line result.status result.command sends polls (record s { sequencer = sequencer })

unfoldable pub read_input :
    Revents → Option (List ℕ) → List SendReply → List PollReply → Session → Step
unfolding close_with send_command
read_input revents line sends polls s =
    if not revents.readable then proceed s else take_line line sends polls s

unfoldable pub check_input : Revents → Session → Step
unfolding close_with
check_input revents s =
    if revents.hung_up || revents.error || revents.invalid then close_with 0 s else proceed s

abbrev pub round_on : PollBoth → Turn → Session → Step
round_on (poll_failed eintr) t s = again s
round_on (poll_failed errno) t s = close_with 1 (report (poll_error errno) s)
round_on (polled socket input) t s =
    read_socket socket t.recvs s
    >>= check_socket socket
    >>= read_input input t.line t.sends t.polls
    >>= check_input input

-- One round of the loop.
unfoldable pub round : Turn → Session → Step
unfolding read_socket check_socket read_input check_input close_with
round t s = round_on t.poll t s

-- The loop, over the rounds.
unfoldable pub rounds : List Turn → Session → Step
rounds [] s = again s
rounds (t ∷ ts) s = elim (round t s) [
  | proceed s' ↦ rounds ts s'
  | again s' ↦ rounds ts s'
  | waiting s' ↦ waiting s'
  | exit code s' ↦ exit code s'
]

-- After `connect_tcp`; without a socket there is nothing to close.
unfoldable pub run_live : ConnectStatus → List Turn → Step
unfolding rounds
run_live unconnected ts = exit 1 start
run_live connecting ts = waiting start
run_live (connected _) ts = rounds ts start
