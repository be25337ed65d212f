-- ===== src/Tests/Client.antt =====
-- The client program on concrete replies of the system calls.
use apogee_fc.Frame.Encode.{encode, write_frame}
use apogee_fc.Base.{
  ℕ, ◌<◌, ◌↔◌, ◌≡◌, refl, arith, List, [], ◌∷◌, ◌++◌, true, false, some, none, length, codes,
}
use apogee_fc.Command.Codec.{encode_command, command_frame}
use apogee_fc.Stream.Delivery.{joined}
use apogee_fc.Client.Socket.{
  eintr, eagain, ready, room, send_failed, no_socket, candidate, connect_done, connect_failed,
  unlisted, addresses, Address, SendReply, PollReply, all_sent, send_all, connect_tcp, connected,
}
use apogee_fc.Client.Socket.SendAll.{Handed, send_all-Handed, send_all-all_sent}
use apogee_fc.Client.Socket.Connect.{Settled, connect_tcp-Settled}
use apogee_fc.Client.Offline.{run_offline}
use apogee_fc.Client.Offline.Whole.{whole, run_offline-whole, run_offline-AllSent}
use apogee_fc.Client.Live.{Revents, Turn, received, polled, run_live}
use apogee_fc.Client.Live.Closing.{IsOrderly, run_live-IsOrderly}
use apogee_fc.Client.Live.Uplink.{StepUplinked, run_live-Uplinked}
use apogee_fc.Tests.Data.{ping, ping_bytes}
use apogee_fc.Tests.Ground.{two_frames, two_lines, two_frames-AllSent}

-- A socket that is full after five bytes, until it has become writable again.
abbrev pub five_bytes : List SendReply
five_bytes = room 5 ∷ send_failed eagain ∷ room 100 ∷ []

abbrev writable : List PollReply
writable = ready true ∷ []

send_all-Handed_example :
    Handed
      (encode_command ping).frame
      []
      (send_all (encode_command ping).frame [] five_bytes writable)
send_all-Handed_example = send_all-Handed (encode_command ping).frame [] five_bytes writable

ping_size : (encode_command ping).frame.size ≡ 13
unfolding encode_command encode command_frame write_frame
ping_size = refl

send_all-all_sent_example :
    (send_all (encode_command ping).frame [] (room 5 ∷ send_failed eintr ∷ room 100 ∷ []) []).status
    ≡ all_sent
send_all-all_sent_example =
    send_all-all_sent (encode_command ping).frame [] (room 5 ∷ send_failed eintr ∷ room 100 ∷ []) []
      (omega arith, (omega arith, tt)) (omega (arith, ping_size))

-- The second address refuses, the third accepts.
abbrev found : List Address
found =
    no_socket
    ∷ candidate 3 (connect_failed (unlisted 111) ∷ [])
    ∷ candidate 4 (connect_failed eintr ∷ connect_done ∷ [])
    ∷ []

connect_tcp-Settled_example : let c = (connect_tcp (addresses found)).0 in Settled c c.status
connect_tcp-Settled_example = connect_tcp-Settled (addresses found)

run_offline-whole_example :
    let run = run_offline (some (record { contents = 0 ∷ ping_bytes; bad = false })) in
    (run.processor ≡ whole (0 ∷ ping_bytes))
    × ((run.code ≡ 0) ↔ ((0 < length run.processor.output) × (run.processor.errors ≡ [])))
run_offline-whole_example = run_offline-whole (0 ∷ ping_bytes)

run_offline-AllSent_example :
    let run = run_offline (some (record { contents = joined two_frames; bad = false })) in
    (run.code ≡ 0)
    × (run.processor.output ≡ two_lines)
    × (run.processor.errors ≡ [])
    × (run.errors ≡ [])
run_offline-AllSent_example =
    run_offline-AllSent two_frames two_lines two_frames-AllSent (omega arith)

abbrev quiet : Revents
quiet = record { readable = false; hung_up = false; error = false; invalid = false }

abbrev readable : Revents
readable = record quiet { readable = true }

-- The operator types a line while the socket takes the bytes in two parts.
abbrev typed : List ℕ → Turn
typed line = record {
  poll = polled quiet readable;
  recvs = [];
  line = some line;
  sends = five_bytes;
  polls = writable;
}

-- A ping, a line that is no command, and a second ping.
abbrev pub typed_lines : List Turn
typed_lines = typed (codes "ping") ∷ typed (codes "pong") ∷ typed (codes " ping\t") ∷ []

-- The server closes the connection.
abbrev closing : Turn
closing = record {
  poll = polled readable quiet;
  recvs = received [] ∷ [];
  line = none;
  sends = [];
  polls = [];
}

run_live-Uplinked_example : StepUplinked (run_live (connected 3) typed_lines)
run_live-Uplinked_example = run_live-Uplinked 3 typed_lines

run_live-IsOrderly_example : IsOrderly (run_live (connected 3) (typed_lines ++ (closing ∷ [])))
run_live-IsOrderly_example = run_live-IsOrderly 3 (typed_lines ++ (closing ∷ []))
