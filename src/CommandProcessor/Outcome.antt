-- ===== src/CommandProcessor/Outcome.antt =====
-- What the acknowledgement says of the effect of a command.
use apogee_fc.Base.{ℕ, ◌≤◌, ◌<◌, ◌≡◌, ◌≢◌, ◌⊎◌, arith}
use apogee_fc.FlightMode.{safe, nominal}
use apogee_fc.Command.{
  CommandId, ping, enter_safe_mode, set_telemetry_period, CommandMessage, CommandAckMessage,
  CommandAckStatus, accepted, invalid_command, invalid_argument, rejected_by_state,
}
use apogee_fc.CommandProcessor.{
  CommandProcessor, minimum_telemetry_period_ms, maximum_telemetry_period_ms, process,
}

-- What an accepted command has done.
abbrev pub Effect : CommandId → ℕ → CommandProcessor → CommandProcessor → Type 0
Effect ping period p p' = p' ≡ p
Effect enter_safe_mode period p p' =
    ((p.state_machine.mode ≡ safe) ⊎ (p.state_machine.mode ≡ nominal))
    × (p' ≡ record p { state_machine = record { mode = safe } })
Effect set_telemetry_period period p p' =
    (minimum_telemetry_period_ms ≤ period)
    × (period ≤ maximum_telemetry_period_ms)
    × (p' ≡ record p { configuration = record { telemetry_period_ms = period } })
Effect (CommandId.unlisted _) period p p' = ⊥

-- Why a command is refused.
abbrev pub Reason : CommandId → ℕ → CommandProcessor → CommandAckStatus → Type 0
Reason enter_safe_mode period p rejected_by_state =
    (p.state_machine.mode ≢ safe) × (p.state_machine.mode ≢ nominal)
Reason set_telemetry_period period p invalid_argument =
    (period < minimum_telemetry_period_ms) ⊎ (maximum_telemetry_period_ms < period)
Reason (CommandId.unlisted _) period p invalid_command = Unit
Reason _ period p _ = ⊥

-- The outcome: accepted with its effect, or refused for its reason with nothing changed.
abbrev pub Outcome :
    CommandMessage → CommandProcessor → CommandProcessor × CommandAckMessage → Type 0
Outcome c p (p', ack) =
    (ack.sequence ≡ c.sequence)
    × (ack.command ≡ c.command)
    × (((ack.status ≡ accepted) × Effect c.command c.period_ms p p')
        ⊎ ((p' ≡ p) × Reason c.command c.period_ms p ack.status))

-- Every command is acknowledged under its own sequence number and identifier; it is either accepted
-- with exactly its effect, or refused for its reason with the state machine and the configuration
-- unchanged.
pub process-Outcome : (p : CommandProcessor) (c : CommandMessage) → Outcome c p (process p c)
unfolding process
process-Outcome p c = ground arith
