-- ===== src/FlightMode.antt =====
-- common/include/apogee/flight_mode.hpp: the flight-mode state machine.
pub mod Graph
use apogee_fc.Base.{ℕ, Bool, true, false}

-- `unlisted n` is a value of the underlying type that no enumerator names.
pub data FlightMode : Type 0 where
  boot safe nominal : FlightMode
  unlisted : ℕ → FlightMode

pub data FlightEvent : Type 0 where
  boot_completed health_confirmed fault_detected safe_mode_requested : FlightEvent

-- The state of `FlightModeStateMachine`; `mode()` is its field.
pub record FlightModeStateMachine : Type 0 where
  pub mode : FlightMode

abbrev pub initial : FlightModeStateMachine
initial = record { mode = boot }

-- The `switch` of `dispatch`: the mode that is stored and the returned flag.
abbrev transition : FlightMode → FlightEvent → FlightMode × Bool
transition boot boot_completed = (safe, true)
transition safe health_confirmed = (nominal, true)
transition nominal fault_detected = (safe, true)
transition nominal safe_mode_requested = (safe, true)
transition m _ = (m, false)

unfoldable pub dispatch : FlightModeStateMachine → FlightEvent → FlightModeStateMachine × Bool
dispatch machine event =
    let (mode, changed) = transition machine.mode event in (record machine { mode = mode }, changed)
