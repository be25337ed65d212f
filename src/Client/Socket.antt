-- ===== src/Client/Socket.antt =====
-- host/apogee_ground_client.cpp: `wait_until_writable`, `send_all` and `connect_tcp`. What the system
-- calls return is a list of replies, taken in order; where it ends, the program waits in a call.
pub mod SendAll
pub mod Connect
use apogee_fc.Base.{
  ℕ, zero, suc, ◌+◌, ◌-◌, List, [], ◌∷◌, ◌++◌, Bool, true, false, not, ltb, if◌then◌else◌, take,
  drop, Option, none, some,
}
use Prim.Native.Nat.{min}
use apogee_fc.Frame.{EncodedFrame}

-- `errno` after a failed call.
pub data Errno : Type 0 where
  eintr eagain ewouldblock : Errno
  unlisted : ℕ → Errno

-- `poll` on one descriptor, for writing: a positive status with or without POLLOUT, 0, or -1.
pub data PollReply : Type 0 where
  ready : Bool → PollReply
  expired : PollReply
  poll_failed : Errno → PollReply

-- `send`: it takes what there is room for, and at most what it is offered; or -1.
pub data SendReply : Type 0 where
  room : ℕ → SendReply
  send_failed : Errno → SendReply

-- A call that has returned, with the replies that are left, or that waits.
pub data Waited : Type 0 where
  returned : Bool → List PollReply → Waited
  waiting : Waited

unfoldable pub wait_until_writable : List PollReply → Waited
wait_until_writable [] = waiting
wait_until_writable (ready writable ∷ polls) = returned writable polls
wait_until_writable (expired ∷ polls) = returned false polls
wait_until_writable (poll_failed eintr ∷ polls) = wait_until_writable polls
wait_until_writable (poll_failed _ ∷ polls) = returned false polls

-- The tests of `errno` after a failed `send`: whether the loop goes on.
unfoldable pub retry : Errno → List PollReply → Waited
retry eintr polls = returned true polls
retry eagain polls = wait_until_writable polls
retry ewouldblock polls = wait_until_writable polls
retry (unlisted _) polls = returned false polls

pub data SendStatus : Type 0 where
  all_sent not_sent pending : SendStatus

-- How `send_all` stands at its end, or where it waits, and all that has gone to the socket.
pub record Sending : Type 0 where
  pub status : SendStatus
  pub wire : List ℕ

abbrev pub sending : SendStatus → List ℕ → Sending
sending status wire = record { status = status; wire = wire }

-- The loop of `send_all` at `offset`.
unfoldable pub send_from : EncodedFrame → ℕ → List ℕ → List SendReply → List PollReply → Sending
send_from frame offset wire [] polls =
    sending (if ltb offset frame.size then pending else all_sent) wire
send_from frame offset wire (room n ∷ sends) polls =
    let sent = min n (frame.size - offset) in
    let wire' = wire ++ take sent (drop offset frame.bytes) in
    let rest = send_from frame (offset + sent) wire' sends polls in
    if not (ltb offset frame.size)
    then sending all_sent wire
    else if ltb 0 sent
    then rest
    else sending not_sent wire
send_from frame offset wire (send_failed errno ∷ sends) polls =
    if not (ltb offset frame.size) then sending all_sent wire else elim (retry errno polls) [
      | returned true polls' ↦ send_from frame offset wire sends polls'
      | returned false _ ↦ sending not_sent wire
      | waiting ↦ sending pending wire
    ]

unfoldable pub send_all : EncodedFrame → List ℕ → List SendReply → List PollReply → Sending
send_all frame wire sends polls = send_from frame 0 wire sends polls

-- `connect`: 0, or -1.
pub data ConnectReply : Type 0 where
  connect_done : ConnectReply
  connect_failed : Errno → ConnectReply

-- One address: `socket` fails, or it gives a descriptor, on which `connect` replies.
pub data Address : Type 0 where
  no_socket : Address
  candidate : ℕ → List ConnectReply → Address

-- The loop round `connect`: whether the status is 0; `none` while it waits.
unfoldable pub connect_candidate : List ConnectReply → Option Bool
connect_candidate [] = none
connect_candidate (connect_done ∷ replies) = some true
connect_candidate (connect_failed eintr ∷ replies) = connect_candidate replies
connect_candidate (connect_failed _ ∷ replies) = some false

pub data ConnectStatus : Type 0 where
  connected : ℕ → ConnectStatus
  unconnected connecting : ConnectStatus

-- The descriptors that are opened and closed on the way, in order.
pub record Connecting : Type 0 where
  pub status : ConnectStatus
  pub opened : List ℕ
  pub closed : List ℕ

unfoldable pub try_addresses : List Address → List ℕ → List ℕ → Connecting
try_addresses [] opened closed = record { status = unconnected; opened = opened; closed = closed }
try_addresses (no_socket ∷ addresses) opened closed = try_addresses addresses opened closed
try_addresses (candidate fd replies ∷ addresses) opened closed =
    let opened' = opened ++ (fd ∷ []) in
    elim (connect_candidate replies) [
      | none ↦ record { status = connecting; opened = opened'; closed = closed }
      | some true ↦ record { status = connected fd; opened = opened'; closed = closed }
      | some false ↦ try_addresses addresses opened' (closed ++ (fd ∷ []))
    ]

-- The error lines of `connect_tcp`.
pub data ConnectError : Type 0 where
  lookup_failed : ℕ → ConnectError
  unable_to_connect : ConnectError

-- `getaddrinfo`: its status, or the addresses.
pub data Lookup : Type 0 where
  no_addresses : ℕ → Lookup
  addresses : List Address → Lookup

abbrev pub connect_errors : ConnectStatus → List ConnectError
connect_errors unconnected = unable_to_connect ∷ []
connect_errors _ = []

unfoldable pub connect_tcp : Lookup → Connecting × List ConnectError
unfolding try_addresses
connect_tcp (no_addresses status) =
    (record { status = unconnected; opened = []; closed = [] }, lookup_failed status ∷ [])
connect_tcp (addresses found) =
    let result = try_addresses found [] [] in (result, connect_errors result.status)
