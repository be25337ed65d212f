-- ===== src/Ground/Text/Unique.antt =====
-- The text of printed lines, read back.
use apogee_fc.Base.{
  ℕ, ◌+◌, ◌≡◌, refl, sym, ap, ◌∙◌, subst, arith, List, ◌∷◌, ◌++◌, some, codes, drop, length,
  drop-append, decimal, StopsDigits, read_digits, read_digits-decimal, AreDigits, decimal_lem,
  decimal-nonempty, get_or,
}
use apogee_fc.Base.Int.{ℤ, pos, negsuc}
use apogee_fc.FlightMode.{FlightMode, boot, safe, nominal}
use apogee_fc.Command.{
  CommandId, CommandAckStatus, CommandAckMessage, ping, enter_safe_mode, set_telemetry_period,
  accepted, invalid_command, invalid_argument, rejected_by_state, encode_command_id,
  encode_ack_status,
}
use apogee_fc.TelemetryCodec.{TelemetryMessage, encode_flight_mode}
use apogee_fc.Ground.{OutputLine, telemetry, ack}
use apogee_fc.Ground.Text.{
  mode_name, command_name, acknowledgement_name, signed_decimal, telemetry_text, ack_text,
  line_text,
}

-- A common beginning can be taken away.
cancel : (s t t' : List ℕ) → s ++ t ≡ s ++ t' → t ≡ t'
cancel s t t' e =
    sym (drop-append (length s) s t refl)
    ∙ ap (drop (length s)) e
    ∙ drop-append (length s) s t' refl

-- A number and what follows it can be told apart.
decimal_unique :
    (n n' : ℕ) (t t' : List ℕ)
    → StopsDigits t
    → StopsDigits t'
    → decimal n ++ t ≡ decimal n' ++ t'
    → (n ≡ n') × (t ≡ t')
decimal_unique n n' t t' h h' e =
    let same : ◌≡◌ {A = ℕ × List ℕ} (n, t) (n', t') =
      sym (read_digits-decimal n t h)
      ∙ ap (λ s. read_digits s 0) e
      ∙ read_digits-decimal n' t' h' in
    (ap (λ r. r.0) same, ap (λ r. r.1) same)

-- A sign is no digit.
sign-ne-decimal : (n : ℕ) (t t' : List ℕ) → decimal n ++ t ≡ b'-' ∷ t' → ⊥
sign-ne-decimal n t t' e =
    let (c, s, starts) = decimal-nonempty n in
    let digits : AreDigits (c ∷ s) = subst AreDigits starts (decimal_lem n).0 in
    let first : c ≡ b'-' = ap (λ r. get_or (r ++ t) 0 0) (sym starts) ∙ ap (λ r. get_or r 0 0) e in
    omega (arith, digits.0, first)

signed_unique :
    (n n' : ℤ) (t t' : List ℕ)
    → StopsDigits t
    → StopsDigits t'
    → signed_decimal n ++ t ≡ signed_decimal n' ++ t'
    → (n ≡ n') × (t ≡ t')
unfolding signed_decimal
signed_unique (pos n) (pos n') t t' h h' e =
    let (same, rest) = decimal_unique n n' t t' h h' e in (ap pos same, rest)
signed_unique (pos n) (negsuc n') t t' h h' e =
    absurd (sign-ne-decimal n t (decimal (n' + 1) ++ t') e)
signed_unique (negsuc n) (pos n') t t' h h' e =
    absurd (sign-ne-decimal n' t' (decimal (n + 1) ++ t) (sym e))
signed_unique (negsuc n) (negsuc n') t t' h h' e =
    let (same, rest) = decimal_unique (n + 1) (n' + 1) t t' h h' (ap (drop 1) e) in
    (ap negsuc (omega (arith, same)), rest)

-- Texts that are equal have equal letters.
letter : (i : ℕ) (s s' : List ℕ) → s ≡ s' → get_or s i 0 ≡ get_or s' i 0
letter i s s' e = ap (λ r. get_or r i 0) e

mode_unique :
    (f f' : FlightMode) (k k' : ℕ) (t t' : List ℕ)
    → encode_flight_mode f ≡ some k
    → encode_flight_mode f' ≡ some k'
    → mode_name f ++ t ≡ mode_name f' ++ t'
    → (f ≡ f') × (t ≡ t')
mode_unique boot boot k k' t t' h h' e = (refl, cancel (mode_name boot) t t' e)
mode_unique boot safe k k' t t' h h' e = absurd (omega (arith, letter 0 _ _ e))
mode_unique boot nominal k k' t t' h h' e = absurd (omega (arith, letter 0 _ _ e))
mode_unique boot (FlightMode.unlisted _) k k' t t' h h' e = cc
mode_unique safe boot k k' t t' h h' e = absurd (omega (arith, letter 0 _ _ e))
mode_unique safe safe k k' t t' h h' e = (refl, cancel (mode_name safe) t t' e)
mode_unique safe nominal k k' t t' h h' e = absurd (omega (arith, letter 0 _ _ e))
mode_unique safe (FlightMode.unlisted _) k k' t t' h h' e = cc
mode_unique nominal boot k k' t t' h h' e = absurd (omega (arith, letter 0 _ _ e))
mode_unique nominal safe k k' t t' h h' e = absurd (omega (arith, letter 0 _ _ e))
mode_unique nominal nominal k k' t t' h h' e = (refl, cancel (mode_name nominal) t t' e)
mode_unique nominal (FlightMode.unlisted _) k k' t t' h h' e = cc
mode_unique (FlightMode.unlisted _) f' k k' t t' h h' e = cc

command_unique :
    (c c' : CommandId) (k k' : ℕ) (t t' : List ℕ)
    → encode_command_id c ≡ some k
    → encode_command_id c' ≡ some k'
    → command_name c ++ t ≡ command_name c' ++ t'
    → (c ≡ c') × (t ≡ t')
command_unique ping ping k k' t t' h h' e = (refl, cancel (command_name ping) t t' e)
command_unique ping enter_safe_mode k k' t t' h h' e = absurd (omega (arith, letter 0 _ _ e))
command_unique ping set_telemetry_period k k' t t' h h' e = absurd (omega (arith, letter 0 _ _ e))
command_unique ping (CommandId.unlisted _) k k' t t' h h' e = cc
command_unique enter_safe_mode ping k k' t t' h h' e = absurd (omega (arith, letter 0 _ _ e))
command_unique enter_safe_mode enter_safe_mode k k' t t' h h' e =
    (refl, cancel (command_name enter_safe_mode) t t' e)
command_unique enter_safe_mode set_telemetry_period k k' t t' h h' e =
    absurd (omega (arith, letter 0 _ _ e))
command_unique enter_safe_mode (CommandId.unlisted _) k k' t t' h h' e = cc
command_unique set_telemetry_period ping k k' t t' h h' e = absurd (omega (arith, letter 0 _ _ e))
command_unique set_telemetry_period enter_safe_mode k k' t t' h h' e =
    absurd (omega (arith, letter 0 _ _ e))
command_unique set_telemetry_period set_telemetry_period k k' t t' h h' e =
    (refl, cancel (command_name set_telemetry_period) t t' e)
command_unique set_telemetry_period (CommandId.unlisted _) k k' t t' h h' e = cc
command_unique (CommandId.unlisted _) c' k k' t t' h h' e = cc

status_unique :
    (a a' : CommandAckStatus) (j j' : ℕ) (t t' : List ℕ)
    → encode_ack_status a ≡ some j
    → encode_ack_status a' ≡ some j'
    → acknowledgement_name a ++ t ≡ acknowledgement_name a' ++ t'
    → (a ≡ a') × (t ≡ t')
status_unique accepted accepted j j' t t' h h' e =
    (refl, cancel (acknowledgement_name accepted) t t' e)
status_unique accepted invalid_command j j' t t' h h' e = absurd (omega (arith, letter 0 _ _ e))
status_unique accepted invalid_argument j j' t t' h h' e = absurd (omega (arith, letter 0 _ _ e))
status_unique accepted rejected_by_state j j' t t' h h' e = absurd (omega (arith, letter 0 _ _ e))
status_unique accepted (CommandAckStatus.unlisted _) j j' t t' h h' e = cc
status_unique invalid_command accepted j j' t t' h h' e = absurd (omega (arith, letter 0 _ _ e))
status_unique invalid_command invalid_command j j' t t' h h' e =
    (refl, cancel (acknowledgement_name invalid_command) t t' e)
status_unique invalid_command invalid_argument j j' t t' h h' e =
    absurd (omega (arith, letter 7 _ _ e))
status_unique invalid_command rejected_by_state j j' t t' h h' e =
    absurd (omega (arith, letter 0 _ _ e))
status_unique invalid_command (CommandAckStatus.unlisted _) j j' t t' h h' e = cc
status_unique invalid_argument accepted j j' t t' h h' e = absurd (omega (arith, letter 0 _ _ e))
status_unique invalid_argument invalid_command j j' t t' h h' e =
    absurd (omega (arith, letter 7 _ _ e))
status_unique invalid_argument invalid_argument j j' t t' h h' e =
    (refl, cancel (acknowledgement_name invalid_argument) t t' e)
status_unique invalid_argument rejected_by_state j j' t t' h h' e =
    absurd (omega (arith, letter 0 _ _ e))
status_unique invalid_argument (CommandAckStatus.unlisted _) j j' t t' h h' e = cc
status_unique rejected_by_state accepted j j' t t' h h' e = absurd (omega (arith, letter 0 _ _ e))
status_unique rejected_by_state invalid_command j j' t t' h h' e =
    absurd (omega (arith, letter 0 _ _ e))
status_unique rejected_by_state invalid_argument j j' t t' h h' e =
    absurd (omega (arith, letter 0 _ _ e))
status_unique rejected_by_state rejected_by_state j j' t t' h h' e =
    (refl, cancel (acknowledgement_name rejected_by_state) t t' e)
status_unique rejected_by_state (CommandAckStatus.unlisted _) j j' t t' h h' e = cc
status_unique (CommandAckStatus.unlisted _) a' j j' t t' h h' e = cc

-- A line whose enumerators all have a name of their own.
abbrev pub IsNamed : OutputLine → Type 0
IsNamed (telemetry m) = (k : ℕ) × (encode_flight_mode m.snapshot.flight_mode ≡ some k)
IsNamed (ack m) =
    ((k : ℕ) × (encode_command_id m.command ≡ some k))
    × ((j : ℕ) × (encode_ack_status m.status ≡ some j))

ack_text_unique :
    (m m' : CommandAckMessage)
    → IsNamed (ack m)
    → IsNamed (ack m')
    → ack_text m ≡ ack_text m'
    → m ≡ m'
unfolding ack_text
ack_text_unique m m' h h' e =
    let number = decimal_unique _ _ _ _ refl refl (cancel (codes "ack sequence=") _ _ e) in
    let command =
      command_unique _ _ h.0.0 h'.0.0 _ _ h.0.1 h'.0.1 (cancel (codes " command=") _ _ number.1) in
    let status =
      status_unique _ _ h.1.0 h'.1.0 _ _ h.1.1 h'.1.1 (cancel (codes " status=") _ _ command.1) in
    λ i. record { sequence = number.0 i; command = command.0 i; status = status.0 i }

telemetry_text_unique :
    (m m' : TelemetryMessage)
    → IsNamed (telemetry m)
    → IsNamed (telemetry m')
    → telemetry_text m ≡ telemetry_text m'
    → m ≡ m'
unfolding telemetry_text
telemetry_text_unique m m' h h' e =
    let number = decimal_unique _ _ _ _ refl refl (cancel (codes "sequence=") _ _ e) in
    let time = decimal_unique _ _ _ _ refl refl (cancel (codes " uptime_ms=") _ _ number.1) in
    let mode = mode_unique _ _ h.0 h'.0 _ _ h.1 h'.1 (cancel (codes " mode=") _ _ time.1) in
    let battery = decimal_unique _ _ _ _ refl refl (cancel (codes " battery_mv=") _ _ mode.1) in
    let temperature =
      signed_unique _ _ _ _ refl refl (cancel (codes " temperature_centi_c=") _ _ battery.1) in
    let current =
      decimal_unique _ _ _ _ refl refl (cancel (codes " solar_current_ma=") _ _ temperature.1) in
    let mask = decimal_unique _ _ _ _ refl refl (cancel (codes " fault_mask=") _ _ current.1) in
    λ i. record {
      snapshot = record {
        sequence = number.0 i;
        uptime_ms = time.0 i;
        flight_mode = mode.0 i;
        sensor_readings = record {
          battery_mv = battery.0 i;
          board_temperature_centi_c = temperature.0 i;
          solar_current_ma = current.0 i;
        };
      };
      latched_fault_mask = mask.0 i;
    }

-- Two printed lines with the same text are the same line: no two messages, of known modes, commands and
-- statuses, look alike on the terminal.
pub line_text_unique :
    (l l' : OutputLine) → IsNamed l → IsNamed l' → line_text l ≡ line_text l' → l ≡ l'
unfolding line_text telemetry_text ack_text
line_text_unique (telemetry m) (telemetry m') h h' e =
    ap telemetry (telemetry_text_unique m m' h h' e)
line_text_unique (ack m) (ack m') h h' e = ap ack (ack_text_unique m m' h h' e)
line_text_unique (telemetry m) (ack m') h h' e = absurd (omega (arith, letter 0 _ _ e))
line_text_unique (ack m) (telemetry m') h h' e = absurd (omega (arith, letter 0 _ _ e))
