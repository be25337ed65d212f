-- ===== src/Client/Live/Carrying.antt =====
-- The commands of a session, over the parts of a round that read no line.
use apogee_fc.Base.{
  ◌^◌, ◌<◌, ◌≡◌, List, [], ◌∷◌, Bool, true, false, not, ◌||◌, if◌then◌else◌, none, some,
}
use apogee_fc.Command.{CommandMessage}
use apogee_fc.Command.Known.{command_frames}
use apogee_fc.Stream.Delivery.{joined}
use apogee_fc.Ground.Sequencer.{CommandSequencer}
use apogee_fc.Client.Live.{
  Revents, RecvReply, received, recv_failed, Session, Step, proceed, again, waiting, exit, ◌>>=◌,
  close_with, disconnect, receive, take_received, read_socket, check_socket, check_input,
}

-- A session with the sequencer `q`, whose socket has taken the frames of `cs`.
pub record Carries (cs : List CommandMessage) (q : CommandSequencer) (s : Session) : Type 0 where
  pub sequencer : s.sequencer ≡ q
  pub fits : q.next_sequence < 2 ^ 32
  pub wire : s.wire ≡ joined (command_frames cs)

-- `P` holds if the step goes on to the next part, `A` if the loop goes on.
abbrev pub Goes : (Session → Type 0) → (Session → Type 0) → Step → Type 0
Goes P A (proceed s) = P s
Goes P A (again s) = A s
Goes P A (waiting s) = Unit
Goes P A (exit code s) = Unit

pub choose-Goes :
    (P A : Session → Type 0) (b : Bool) (x y : Step)
    → Goes P A x
    → Goes P A y
    → Goes P A (if b then x else y)
choose-Goes P A true x y h k = h
choose-Goes P A false x y h k = k

pub >>=-Goes :
    (P Q A : Session → Type 0) (m : Step) (f : Session → Step)
    → Goes P A m
    → ((s : Session) → P s → Goes Q A (f s))
    → Goes Q A (m >>= f)
>>=-Goes P Q A (proceed s) f h k = k s h
>>=-Goes P Q A (again s) f h k = h
>>=-Goes P Q A (waiting s) f h k = tt
>>=-Goes P Q A (exit code s) f h k = tt

-- The socket's part of a round leaves the sequencer and the wire alone.
module _ (cs : List CommandMessage) (q : CommandSequencer) (A : Session → Type 0) where
  take_received-Goes :
      (reply : RecvReply) (s : Session)
      → Carries cs q s
      → Goes (Carries cs q) A (take_received reply s)
  unfolding take_received disconnect close_with
  take_received-Goes (received []) s c = tt
  take_received-Goes (received (_ ∷ _)) s c = record {
    sequencer = c.sequencer;
    fits = c.fits;
    wire = c.wire;
  }
  take_received-Goes (recv_failed _) s c = tt

  pub read_socket-Goes :
      (revents : Revents) (replies : List RecvReply) (s : Session)
      → Carries cs q s
      → Goes (Carries cs q) A (read_socket revents replies s)
  unfolding read_socket
  read_socket-Goes revents replies s c =
      choose-Goes (Carries cs q) A (not revents.readable) _ _ c
        (elim (receive replies)
          as (λ r.
            Goes (Carries cs q) A
              (elim r [ none ↦ waiting s | some reply ↦ take_received reply s ])) [
                | none ↦ tt
                | some reply ↦ take_received-Goes reply s c
              ])

  pub check_socket-Goes :
      (revents : Revents) (s : Session)
      → Carries cs q s
      → Goes (Carries cs q) A (check_socket revents s)
  unfolding check_socket disconnect close_with
  check_socket-Goes revents s c =
      choose-Goes (Carries cs q) A (revents.error || revents.invalid) _ _ tt
        (choose-Goes (Carries cs q) A revents.hung_up _ _ tt c)

  pub check_input-Goes :
      (revents : Revents) (s : Session)
      → Carries cs q s
      → Goes (Carries cs q) A (check_input revents s)
  unfolding check_input close_with
  check_input-Goes revents s c =
      choose-Goes (Carries cs q) A (revents.hung_up || revents.error || revents.invalid) _ _ tt c
