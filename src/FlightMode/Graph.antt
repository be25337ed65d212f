-- ===== src/FlightMode/Graph.antt =====
-- The transition diagram of the flight modes, and traces of events through it.
use apogee_fc.Base.{Bool, true, false, ◌≡◌, ◌≢◌, refl, ◌⊎◌, inl, inr, arith, List, [], ◌∷◌}
use apogee_fc.FlightMode.{
  FlightMode, boot, safe, nominal, unlisted, FlightEvent, boot_completed, health_confirmed,
  fault_detected, safe_mode_requested, FlightModeStateMachine, dispatch, transition,
}

-- The edges, with the event that labels each.
pub data Edge : FlightMode → FlightEvent → FlightMode → Type 0 where
  booted : Edge boot boot_completed safe
  confirmed : Edge safe health_confirmed nominal
  faulted : Edge nominal fault_detected safe
  requested : Edge nominal safe_mode_requested safe

ruleset edges = (booted, confirmed, faulted, requested)

-- What `dispatch` did: it followed an edge, or refused the event.
abbrev pub Followed : FlightMode → FlightEvent → FlightModeStateMachine × Bool → Type 0
Followed m e (s, changed) = (changed ≡ true) × Edge m e s.mode

abbrev pub Refused : FlightModeStateMachine → FlightEvent → FlightModeStateMachine × Bool → Type 0
Refused s e (s', changed) = (changed ≡ false) × (s' ≡ s) × ((m : FlightMode) → ¬ Edge s.mode e m)

transition_no_edge :
    (m : FlightMode) (e : FlightEvent)
    → (transition m e).1 ≡ false
    → (m' : FlightMode) → ¬ Edge m e m'
transition_no_edge boot boot_completed h m' d = cc
transition_no_edge safe health_confirmed h m' d = cc
transition_no_edge nominal fault_detected h m' d = cc
transition_no_edge nominal safe_mode_requested h m' d = cc
transition_no_edge boot health_confirmed h m' d = elim d [ ]
transition_no_edge boot fault_detected h m' d = elim d [ ]
transition_no_edge boot safe_mode_requested h m' d = elim d [ ]
transition_no_edge safe boot_completed h m' d = elim d [ ]
transition_no_edge safe fault_detected h m' d = elim d [ ]
transition_no_edge safe safe_mode_requested h m' d = elim d [ ]
transition_no_edge nominal boot_completed h m' d = elim d [ ]
transition_no_edge nominal health_confirmed h m' d = elim d [ ]
transition_no_edge (unlisted n) e h m' d = elim d [ ]

transition-Edge :
    (m : FlightMode) (e : FlightEvent)
    → Followed m e (record { mode = (transition m e).0 }, (transition m e).1)
      ⊎ Refused (record { mode = m }) e (record { mode = (transition m e).0 }, (transition m e).1)
transition-Edge boot boot_completed = inl (refl, booted)
transition-Edge safe health_confirmed = inl (refl, confirmed)
transition-Edge nominal fault_detected = inl (refl, faulted)
transition-Edge nominal safe_mode_requested = inl (refl, requested)
transition-Edge m e = inr (refl, refl, transition_no_edge m e refl)

-- `dispatch` follows the edge of the mode diagram that the event labels and returns true; where
-- there is none it returns false and changes nothing.
pub dispatch-Edge :
    (s : FlightModeStateMachine) (e : FlightEvent)
    → Followed s.mode e (dispatch s e) ⊎ Refused s e (dispatch s e)
unfolding dispatch
dispatch-Edge s e = transition-Edge s.mode e

-- A batch of events, one after the other.
pub dispatch_all : FlightModeStateMachine → List FlightEvent → FlightModeStateMachine
dispatch_all s [] = s
dispatch_all s (e ∷ es) = dispatch_all (dispatch s e).0 es

abbrev pub HasBooted : FlightMode → Type 0
HasBooted m = (m ≡ safe) ⊎ (m ≡ nominal)

dispatch-HasBooted :
    (s : FlightModeStateMachine) (e : FlightEvent)
    → HasBooted s.mode
    → HasBooted (dispatch s e).0.mode
unfolding dispatch
dispatch-HasBooted s e h = ground arith

pub dispatch_all-HasBooted :
    (s : FlightModeStateMachine) (es : List FlightEvent)
    → HasBooted s.mode
    → HasBooted (dispatch_all s es).mode
unfolding dispatch_all
dispatch_all-HasBooted s [] h = h
dispatch_all-HasBooted s (e ∷ es) h =
    dispatch_all-HasBooted (dispatch s e).0 es (dispatch-HasBooted s e h)

-- An event that leads from another mode to the nominal mode is a confirmation of health, in the safe
-- mode.
pub nominal_needs_confirmation :
    (s : FlightModeStateMachine) (e : FlightEvent)
    → s.mode ≢ nominal
    → (dispatch s e).0.mode ≡ nominal
    → (s.mode ≡ safe) × (e ≡ health_confirmed)
unfolding dispatch
nominal_needs_confirmation s e h k = ground arith
