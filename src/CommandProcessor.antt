-- ===== src/CommandProcessor.antt =====
-- common/include/apogee/command_processor.hpp and flight_configuration.hpp: what a command does.
pub mod Outcome
use apogee_fc.Base.{ℕ, Bool, true, false, ltb, ◌||◌, if◌then◌else◌}
use apogee_fc.FlightMode.{
  FlightMode, boot, safe, nominal, FlightModeStateMachine, dispatch, safe_mode_requested,
}
use apogee_fc.Command.{
  CommandId, ping, enter_safe_mode, set_telemetry_period, CommandMessage, CommandAckMessage,
  CommandAckStatus, accepted, invalid_command, invalid_argument, rejected_by_state,
}

abbrev pub minimum_telemetry_period_ms : ℕ
minimum_telemetry_period_ms = 250

abbrev pub maximum_telemetry_period_ms : ℕ
maximum_telemetry_period_ms = 10000

pub record FlightConfiguration : Type 0 where
  pub telemetry_period_ms : ℕ  -- uint32

abbrev pub default_configuration : FlightConfiguration
default_configuration = record { telemetry_period_ms = 1000 }

-- The two objects that the processor holds by reference.
pub record CommandProcessor : Type 0 where
  pub state_machine : FlightModeStateMachine
  pub configuration : FlightConfiguration

-- The `switch` of `enter_safe_mode`, on the mode.
abbrev enter_safe_mode_in : FlightMode → CommandProcessor → CommandProcessor × CommandAckStatus
enter_safe_mode_in boot p = (p, rejected_by_state)
enter_safe_mode_in safe p = (p, accepted)
enter_safe_mode_in nominal p =
    let (machine, changed) = dispatch p.state_machine safe_mode_requested in
    (record p { state_machine = machine }, if changed then accepted else rejected_by_state)
enter_safe_mode_in (FlightMode.unlisted _) p = (p, rejected_by_state)

abbrev request_safe_mode : CommandProcessor → CommandProcessor × CommandAckStatus
request_safe_mode p = enter_safe_mode_in p.state_machine.mode p

abbrev change_telemetry_period : CommandProcessor → ℕ → CommandProcessor × CommandAckStatus
change_telemetry_period p period_ms =
    if ltb period_ms minimum_telemetry_period_ms || ltb maximum_telemetry_period_ms period_ms
    then (p, invalid_argument)
    else (record p { configuration = record { telemetry_period_ms = period_ms } }, accepted)

-- The `switch` of `process`.
abbrev run_command : CommandId → ℕ → CommandProcessor → CommandProcessor × CommandAckStatus
run_command ping period_ms p = (p, accepted)
run_command enter_safe_mode period_ms p = request_safe_mode p
run_command set_telemetry_period period_ms p = change_telemetry_period p period_ms
run_command (CommandId.unlisted _) period_ms p = (p, invalid_command)

unfoldable pub process : CommandProcessor → CommandMessage → CommandProcessor × CommandAckMessage
unfolding dispatch
process p command =
    let (p', status) = run_command command.command command.period_ms p in
    (p', record { sequence = command.sequence; command = command.command; status = status })
