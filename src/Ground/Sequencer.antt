-- ===== src/Ground/Sequencer.antt =====
-- host/include/apogee/ground_client.hpp: `trim` and `CommandSequencer`. A line is a list of bytes.
pub mod Spacing
pub mod Lines
pub mod Numbers
pub mod Grammar
use apogee_fc.Base.{
  ℕ, ◌+◌, ◌-◌, List, [], ◌∷◌, Bool, true, false, not, ◌||◌, ◌==◌, if◌then◌else◌, Option, none, some,
  length, get_or, take, drop, u32, codes, text_eq, starts_with, FromChars, invalid_argument,
  result_out_of_range, converted, from_chars,
}
use apogee_fc.Command.{CommandId, CommandMessage, default_message, ping, enter_safe_mode}
use apogee_fc.Command.{set_telemetry_period}

pub data LocalCommandStatus : Type 0 where
  command quit invalid_syntax : LocalCommandStatus

pub record LocalCommandResult : Type 0 where
  pub status : LocalCommandStatus
  pub command : CommandMessage

-- The characters of `whitespace`.
abbrev pub is_space : ℕ → Bool
is_space c = c == b' ' || c == b'\t' || c == b'\r' || c == b'\n'

-- `find_first_not_of` and `find_last_not_of`; `none` is `npos`.
unfoldable pub find_first_not_of : List ℕ → Option ℕ
find_first_not_of [] = none
find_first_not_of (c ∷ s) =
    let rest : Option ℕ = elim (find_first_not_of s) [ none ↦ none | some i ↦ some (i + 1) ] in
    if is_space c then rest else some 0

unfoldable pub find_last_not_of : List ℕ → Option ℕ
find_last_not_of [] = none
find_last_not_of (c ∷ s) = elim (find_last_not_of s) [
  | some i ↦ some (i + 1)
  | none ↦ if is_space c then none else some 0
]

-- A `substr` whose count comes from `npos` reaches to the end.
unfoldable pub trim : List ℕ → List ℕ
unfolding find_first_not_of find_last_not_of
trim text = elim (find_first_not_of text) [
  | none ↦ []
  | some first ↦ elim (find_last_not_of text) [
    | none ↦ drop first text
    | some last ↦ take (last - first + 1) (drop first text)
  ]
]

pub record CommandSequencer : Type 0 where
  pub next_sequence : ℕ  -- uint32

abbrev pub initial : CommandSequencer
initial = record { next_sequence = 1 }

-- `return {};`, and `return {LocalCommandStatus::Quit, {}};`.
abbrev pub invalid : LocalCommandResult
invalid = record { status = LocalCommandStatus.invalid_syntax; command = default_message }

abbrev pub quitting : LocalCommandResult
quitting = record { status = LocalCommandStatus.quit; command = default_message }

unfoldable pub make_command :
    CommandId → ℕ → CommandSequencer → CommandSequencer × LocalCommandResult
make_command id period_ms s = (
  record s { next_sequence = u32 (s.next_sequence + 1) },
  record {
    status = LocalCommandStatus.command;
    command = record { sequence = s.next_sequence; command = id; period_ms = period_ms };
  },
)

-- The result of the conversion, which has to read the whole text.
abbrev pub use_conversion : FromChars → CommandSequencer → CommandSequencer × LocalCommandResult
use_conversion invalid_argument s = (s, invalid)
use_conversion (result_out_of_range _) s = (s, invalid)
use_conversion (converted period_ms []) s = make_command set_telemetry_period period_ms s
use_conversion (converted _ (_ ∷ _)) s = (s, invalid)

abbrev pub period_prefix : List ℕ
period_prefix = codes "period"

-- The lines of `parse` after the fixed words.
unfoldable pub parse_period : List ℕ → CommandSequencer → CommandSequencer × LocalCommandResult
parse_period command_text s =
    let separator = get_or command_text (length period_prefix) 0 in
    let value_text = trim (drop (length period_prefix) command_text) in
    if not (starts_with command_text period_prefix)
      || length command_text == length period_prefix
      || not (separator == b' ' || separator == b'\t')
    then (s, invalid)
    else if length value_text == 0
    then (s, invalid)
    else use_conversion (from_chars value_text) s

unfoldable pub parse : List ℕ → CommandSequencer → CommandSequencer × LocalCommandResult
unfolding parse_period make_command
parse input s =
    let command_text = trim input in
    if text_eq command_text (codes "quit")
    then (s, quitting)
    else if text_eq command_text (codes "ping")
    then make_command ping 0 s
    else if text_eq command_text (codes "safe")
    then make_command enter_safe_mode 0 s
    else parse_period command_text s
