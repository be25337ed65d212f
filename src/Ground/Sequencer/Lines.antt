-- ===== src/Ground/Sequencer/Lines.antt =====
-- The command language: what each line of it makes of the sequencer.
use apogee_fc.Base.{
  ℕ, ◌+◌, ◌^◌, ◌<◌, ◌≡◌, refl, sym, ap, ◌∙◌, arith, List, [], ◌∷◌, ◌++◌, true, false, ◌||◌, some,
  length, length-append, append-nil, u32, codes, ◌==◌, lt→ltb, is_digit, IsDigit, AreDigits,
  digits_value, read_digits-append, read_digits, text_eq, starts_with-append, from_chars, in_range,
  converted,
}
use apogee_fc.Command.{CommandId, ping, enter_safe_mode, set_telemetry_period}
use apogee_fc.Ground.Sequencer.{
  CommandSequencer, LocalCommandStatus, LocalCommandResult, is_space, find_first_not_of,
  find_last_not_of, trim, parse, parse_period, make_command, quitting,
}
use apogee_fc.Ground.Sequencer.Spacing.{AreSpaces, IsTrimmed, trim-spaced, last-append}

pub data Request : Type 0 where
  quit : Request
  request : CommandId → ℕ → Request

-- A separator of the word `period` and its number: a blank or a tab, and any spaces.
abbrev pub IsGap : List ℕ → Type 0
IsGap [] = ⊥
IsGap (c ∷ s) = ((c == b' ') || (c == b'\t') ≡ true) × AreSpaces s

abbrev pub IsNonempty : List ℕ → Type 0
IsNonempty [] = ⊥
IsNonempty (_ ∷ _) = Unit

-- The texts of the command language.
pub data Spelled : List ℕ → Request → Type 0 where
  quit_text : Spelled (codes "quit") quit
  ping_text : Spelled (codes "ping") (request ping 0)
  safe_text : Spelled (codes "safe") (request enter_safe_mode 0)
  period_text :
      (gap number : List ℕ)
      → IsGap gap
      → IsNonempty number
      → AreDigits number
      → digits_value 0 number < 2 ^ 32
      → Spelled
          (codes "period" ++ (gap ++ number))
          (request set_telemetry_period (digits_value 0 number))

-- What a request makes of the sequencer.
abbrev pub granted : Request → CommandSequencer → CommandSequencer × LocalCommandResult
granted quit s = (s, quitting)
granted (request id period_ms) s = (
  record { next_sequence = u32 (s.next_sequence + 1) },
  record {
    status = LocalCommandStatus.command;
    command = record { sequence = s.next_sequence; command = id; period_ms = period_ms };
  },
)

digit-solid : (c : ℕ) → IsDigit c → is_space c ≡ false
digit-solid c h = ground arith

first-AreDigits : (s : List ℕ) → IsNonempty s → AreDigits s → find_first_not_of s ≡ some 0
unfolding find_first_not_of
first-AreDigits [] h k = absurd h
first-AreDigits (c ∷ s) h k = rw (digit-solid c k.0)

pub last-AreDigits :
    (s : List ℕ)
    → IsNonempty s
    → AreDigits s
    → (n : ℕ) × (length s ≡ n + 1) × (find_last_not_of s ≡ some n)
unfolding find_last_not_of
last-AreDigits [] h k = absurd h
last-AreDigits (c ∷ []) h k = (0, omega arith, rw (digit-solid c k.0))
last-AreDigits (c ∷ d ∷ s) h k =
    let (n, size, last) = last-AreDigits (d ∷ s) tt k.1 in (n + 1, omega arith, rw last)

AreDigits-IsTrimmed : (s : List ℕ) → IsNonempty s → AreDigits s → IsTrimmed s
AreDigits-IsTrimmed s h k = record { first = first-AreDigits s h k; last = last-AreDigits s h k }

IsGap-AreSpaces : (gap : List ℕ) → IsGap gap → AreSpaces gap
IsGap-AreSpaces [] h = absurd h
IsGap-AreSpaces (c ∷ s) h = (ground (arith, h.0), h.1)

pub period_text-IsTrimmed :
    (gap number : List ℕ)
    → IsNonempty number
    → AreDigits number
    → IsTrimmed (codes "period" ++ (gap ++ number))
unfolding find_first_not_of
period_text-IsTrimmed gap number h k =
    let (n, size, last) = last-AreDigits number h k in
    record {
      first = refl;
      last = (
        6 + (length gap + n),
        omega (arith, length-append gap number, size),
        last-append (codes "period") (gap ++ number) (length gap + n)
            (last-append gap number n last),
      );
    }

pub Spelled-IsTrimmed : (text : List ℕ) (r : Request) → Spelled text r → IsTrimmed text
unfolding find_first_not_of find_last_not_of
Spelled-IsTrimmed _ _ quit_text = record { first = refl; last = (3, refl, refl) }
Spelled-IsTrimmed _ _ ping_text = record { first = refl; last = (3, refl, refl) }
Spelled-IsTrimmed _ _ safe_text = record { first = refl; last = (3, refl, refl) }
Spelled-IsTrimmed _ _ (period_text gap number g h k v) = period_text-IsTrimmed gap number h k

from_chars-AreDigits :
    (number : List ℕ)
    → IsNonempty number
    → AreDigits number
    → digits_value 0 number < 2 ^ 32
    → from_chars number ≡ converted (digits_value 0 number) []
unfolding from_chars in_range
from_chars-AreDigits [] h k v = absurd h
from_chars-AreDigits (c ∷ s) h k v =
    let all : read_digits (c ∷ s) 0 ≡ (digits_value 0 (c ∷ s), []) =
      ap (λ t. read_digits t 0) (sym (append-nil (c ∷ s))) ∙ read_digits-append (c ∷ s) [] 0 k tt in
    let digit : is_digit c ≡ true = ground arith in
    rw (digit, all, lt→ltb (digits_value 0 (c ∷ s)) (2 ^ 32) v)

trim-gap :
    (gap number : List ℕ)
    → IsGap gap
    → IsNonempty number
    → AreDigits number
    → trim (gap ++ number) ≡ number
trim-gap gap number g h k =
    ap (λ t. trim (gap ++ t)) (sym (append-nil number))
    ∙ trim-spaced gap number [] (IsGap-AreSpaces gap g) tt (AreDigits-IsTrimmed number h k)

pub parse_period-text :
    (gap number : List ℕ) (s : CommandSequencer)
    → IsGap gap
    → IsNonempty number
    → AreDigits number
    → digits_value 0 number < 2 ^ 32
    → parse_period (codes "period" ++ (gap ++ number)) s
      ≡ granted (request set_telemetry_period (digits_value 0 number)) s
unfolding parse_period make_command
parse_period-text [] number s g h k v = absurd g
parse_period-text (c ∷ gap) [] s g h k v = absurd h
parse_period-text (c ∷ gap) (d ∷ number) s g h k v =
    rw
      (
        starts_with-append (codes "period") ((c ∷ gap) ++ (d ∷ number)),
        g.0,
        trim-gap (c ∷ gap) (d ∷ number) g h k,
        from_chars-AreDigits (d ∷ number) h k v,
      )
      (ground arith)

pub parse-text :
    (text : List ℕ) (r : Request) (s : CommandSequencer) (line : List ℕ)
    → Spelled text r
    → trim line ≡ text
    → parse line s ≡ granted r s
unfolding parse parse_period make_command text_eq
parse-text _ _ s line quit_text e = rw e
parse-text _ _ s line ping_text e = rw e
parse-text _ _ s line safe_text e = rw e
parse-text _ _ s line (period_text gap number g h k v) e =
    rw e (parse_period-text gap number s g h k v)

-- A line of the command language, with any spaces around it, is parsed as the request that it
-- spells: a command takes the next sequence number, which then grows by one modulo 2^32, and `quit`
-- leaves it alone.
pub parse-Spelled :
    (before text after : List ℕ) (r : Request) (s : CommandSequencer)
    → AreSpaces before
    → AreSpaces after
    → Spelled text r
    → parse (before ++ (text ++ after)) s ≡ granted r s
parse-Spelled before text after r s hb ha h =
    parse-text text r s (before ++ (text ++ after)) h
      (trim-spaced before text after hb ha (Spelled-IsTrimmed text r h))
