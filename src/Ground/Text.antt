-- ===== src/Ground/Text.antt =====
-- host/include/apogee/ground_client.hpp: the names of the enumerators, and the text of the lines that
-- `print_telemetry`, `print_acknowledgement` and `report_stream_error` write.
pub mod Unique
use apogee_fc.Base.{ℕ, ◌+◌, List, [], ◌∷◌, ◌++◌, codes, decimal}
use apogee_fc.Base.Int.{ℤ, pos, negsuc}
use apogee_fc.FlightMode.{FlightMode, boot, safe, nominal}
use apogee_fc.Telemetry.{TelemetrySnapshot}
use apogee_fc.Command.{
  CommandId, CommandAckStatus, CommandAckMessage, ping, enter_safe_mode, set_telemetry_period,
  accepted, invalid_command, invalid_argument, rejected_by_state,
}
use apogee_fc.TelemetryCodec.{TelemetryMessage}
use apogee_fc.Ground.{
  OutputLine, telemetry, ack, ErrorLine, malformed_frame, unexpected_command, malformed_telemetry,
  malformed_ack, discarded, truncated_frame, rejected_frame,
}

abbrev pub mode_name : FlightMode → List ℕ
mode_name boot = codes "Boot"
mode_name safe = codes "Safe"
mode_name nominal = codes "Nominal"
mode_name (FlightMode.unlisted _) = codes "Unknown"

abbrev pub command_name : CommandId → List ℕ
command_name ping = codes "Ping"
command_name enter_safe_mode = codes "EnterSafeMode"
command_name set_telemetry_period = codes "SetTelemetryPeriod"
command_name (CommandId.unlisted _) = codes "Unknown"

abbrev pub acknowledgement_name : CommandAckStatus → List ℕ
acknowledgement_name accepted = codes "Accepted"
acknowledgement_name invalid_command = codes "InvalidCommand"
acknowledgement_name invalid_argument = codes "InvalidArgument"
acknowledgement_name rejected_by_state = codes "RejectedByState"
acknowledgement_name (CommandAckStatus.unlisted _) = codes "Unknown"

-- What `operator<<` writes for a signed number.
unfoldable pub signed_decimal : ℤ → List ℕ
signed_decimal (pos n) = decimal n
signed_decimal (negsuc n) = b'-' ∷ decimal (n + 1)

unfoldable pub telemetry_text : TelemetryMessage → List ℕ
telemetry_text m =
    let snapshot = m.snapshot in
    let readings = snapshot.sensor_readings in
    codes "sequence="
    ++ (decimal snapshot.sequence
        ++ (codes " uptime_ms="
            ++ (decimal snapshot.uptime_ms
                ++ (codes " mode="
                    ++ (mode_name snapshot.flight_mode
                        ++ (codes " battery_mv="
                            ++ (decimal readings.battery_mv
                                ++ (codes " temperature_centi_c="
                                    ++ (signed_decimal readings.board_temperature_centi_c
                                        ++ (codes " solar_current_ma="
                                            ++ (decimal readings.solar_current_ma
                                                ++ (codes " fault_mask="
                                                    ++ (decimal m.latched_fault_mask
                                                        ++ codes "\n")))))))))))))

unfoldable pub ack_text : CommandAckMessage → List ℕ
ack_text m =
    codes "ack sequence="
    ++ (decimal m.sequence
        ++ (codes " command="
            ++ (command_name m.command
                ++ (codes " status=" ++ (acknowledgement_name m.status ++ codes "\n")))))

unfoldable pub line_text : OutputLine → List ℕ
unfolding telemetry_text ack_text
line_text (telemetry m) = telemetry_text m
line_text (ack m) = ack_text m

unfoldable pub error_text : ErrorLine → List ℕ
error_text malformed_frame = codes "Malformed frame\n"
error_text unexpected_command = codes "Unexpected command frame\n"
error_text malformed_telemetry = codes "Malformed telemetry frame\n"
error_text malformed_ack = codes "Malformed acknowledgement frame\n"
error_text (discarded count) = codes "Discarded " ++ (decimal count ++ codes " noise byte(s)\n")
error_text truncated_frame = codes "Truncated frame at end of stream\n"
error_text rejected_frame = codes "Rejected malformed frame\n"
