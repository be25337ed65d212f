-- ===== src/Client/Socket/Connect.antt =====
-- The descriptors that `connect_tcp` opens and closes.
use apogee_fc.Base.{ℕ, ◌≡◌, refl, List, [], ◌∷◌, ◌++◌, none, some, true, false, sym, append-nil}
use apogee_fc.Client.Socket.{
  Address, no_socket, candidate, connect_candidate, ConnectStatus, connected, unconnected,
  connecting, Connecting, try_addresses, Lookup, no_addresses, addresses, connect_tcp,
}

-- What is still open.
abbrev pub Open : Connecting → List ℕ → Type 0
Open c fds = c.opened ≡ c.closed ++ fds

-- Nothing is open without a connection, and exactly the connected descriptor with one; while
-- `connect` waits, it is the one that it is called on.
abbrev pub Settled : Connecting → ConnectStatus → Type 0
Settled c unconnected = Open c []
Settled c (connected fd) = Open c (fd ∷ [])
Settled c connecting = (fd : ℕ) × Open c (fd ∷ [])

try_addresses-Settled :
    (found : List Address) (closed : List ℕ)
    → let c = try_addresses found closed closed in Settled c c.status
unfolding try_addresses
try_addresses-Settled [] closed = sym (append-nil closed)
try_addresses-Settled (no_socket ∷ found) closed = try_addresses-Settled found closed
try_addresses-Settled (candidate fd replies ∷ found) closed =
    elim (connect_candidate replies)
      as (λ o.
        let c : Connecting = (elim o [
          | none ↦ record { status = connecting; opened = closed ++ (fd ∷ []); closed = closed }
          | some true ↦ record {
            status = connected fd;
            opened = closed ++ (fd ∷ []);
            closed = closed;
          }
          | some false ↦ try_addresses found (closed ++ (fd ∷ [])) (closed ++ (fd ∷ []))
        ]) in
        Settled c c.status) [
          | none ↦ (fd, refl)
          | some true ↦ refl
          | some false ↦ try_addresses-Settled found (closed ++ (fd ∷ []))
        ]

-- Whatever the addresses and the replies: what `connect_tcp` has opened and not closed again is nothing
-- without a connection, and otherwise the one descriptor that it returns or waits on.
pub connect_tcp-Settled : (lookup : Lookup) → let c = (connect_tcp lookup).0 in Settled c c.status
unfolding connect_tcp
connect_tcp-Settled (no_addresses status) = refl
connect_tcp-Settled (addresses found) = try_addresses-Settled found []
