-- ===== src/Base/Text.antt =====
-- `std::string_view` as a list of bytes, and what the standard library reads and writes of numbers.
use Prim.Native.Nat.{ℕ, zero, suc, ◌+◌, ◌-◌, ◌*◌, ◌/◌, ◌%◌, ◌^◌, ◌≤◌, ◌<◌}
use Prim.Native.Char.{code}
use Prim.Native.String.{String}
use mathlib.Core.Path.{◌≡◌, refl, ap, ◌∙◌}
use mathlib.Core.Logic.{inl, inr}
use mathlib.Core.Bool.{Bool, true, false, ◌&&◌}
use mathlib.Core.List.{List, [], ◌∷◌, ◌++◌}
use native.Mathlib.Omega.{arith}
use apogee_fc.Base.Tests.{ltb, leb, ◌==◌, if◌then◌else◌, ==_refl, ltb→lt, Bool-cases}

-- The bytes of an ASCII literal.
abbrev pub codes : String → List ℕ
codes String.[] = []
codes (String.◌∷◌ c s) = code c ∷ codes s

-- `operator==` and `starts_with` of `std::string_view`.
unfoldable pub text_eq : List ℕ → List ℕ → Bool
text_eq [] [] = true
text_eq (a ∷ s) (b ∷ t) = a == b && text_eq s t
text_eq [] (_ ∷ _) = false
text_eq (_ ∷ _) [] = false

unfoldable pub starts_with : List ℕ → List ℕ → Bool
starts_with s [] = true
starts_with [] (_ ∷ _) = false
starts_with (a ∷ s) (b ∷ t) = a == b && starts_with s t

abbrev pub is_digit : ℕ → Bool
is_digit c = leb b'0' c && leb c b'9'

abbrev pub IsDigit : ℕ → Type 0
IsDigit c = (b'0' ≤ c) × (c ≤ b'9')

abbrev pub AreDigits : List ℕ → Type 0
AreDigits [] = Unit
AreDigits (c ∷ s) = IsDigit c × AreDigits s

-- The number that digits stand for, behind `n`.
abbrev pub digits_value : ℕ → List ℕ → ℕ
digits_value n [] = n
digits_value n (c ∷ s) = digits_value (n * 10 + (c - b'0')) s

-- No digit comes first.
abbrev pub StopsDigits : List ℕ → Type 0
StopsDigits [] = Unit
StopsDigits (c ∷ s) = is_digit c ≡ false

-- The longest run of digits: its value behind `n`, and what follows it.
unfoldable pub read_digits : List ℕ → ℕ → ℕ × List ℕ
read_digits [] n = (n, [])
read_digits (c ∷ s) n = if is_digit c then read_digits s (n * 10 + (c - b'0')) else (n, c ∷ s)

-- `std::from_chars` for `std::uint32_t` in base 10: an error, or the value and what follows it.
pub data FromChars : Type 0 where
  invalid_argument : FromChars
  result_out_of_range : List ℕ → FromChars
  converted : ℕ → List ℕ → FromChars

unfoldable pub in_range : ℕ × List ℕ → FromChars
in_range (n, rest) = if ltb n (2 ^ 32) then converted n rest else result_out_of_range rest

unfoldable pub from_chars : List ℕ → FromChars
from_chars [] = invalid_argument
from_chars (c ∷ s) = if is_digit c then in_range (read_digits (c ∷ s) 0) else invalid_argument

-- The digits of a number, put before `out`; fuel above the number is enough.
unfoldable pub write_digits : ℕ → ℕ → List ℕ → List ℕ
write_digits zero n out = out
write_digits (suc fuel) n out =
    let rest = write_digits fuel (n / 10) ((b'0' + n % 10) ∷ out) in
    if ltb n 10 then (b'0' + n) ∷ out else rest

-- What `operator<<` writes for an unsigned number.
unfoldable pub decimal : ℕ → List ℕ
unfolding write_digits
decimal n = write_digits (suc n) n []

pub text_eq_refl : (s : List ℕ) → text_eq s s ≡ true
unfolding text_eq
text_eq_refl [] = refl
text_eq_refl (a ∷ s) = rw (==_refl a, text_eq_refl s)

pub text_eq_sound : (s t : List ℕ) → text_eq s t ≡ true → s ≡ t
unfolding text_eq
text_eq_sound [] [] h = refl
text_eq_sound [] (_ ∷ _) h = cc
text_eq_sound (_ ∷ _) [] h = cc
text_eq_sound (a ∷ s) (b ∷ t) h = ground (arith, text_eq_sound s t)

pub starts_with-append : (s t : List ℕ) → starts_with (s ++ t) s ≡ true
unfolding starts_with
starts_with-append [] t = refl
starts_with-append (a ∷ s) t = rw (==_refl a, starts_with-append s t)

pub read_digits-append :
    (s rest : List ℕ) (n : ℕ)
    → AreDigits s
    → StopsDigits rest
    → read_digits (s ++ rest) n ≡ (digits_value n s, rest)
unfolding read_digits
read_digits-append [] [] n h k = refl
read_digits-append [] (c ∷ rest) n h k = rw k
read_digits-append (c ∷ s) rest n h k =
    ground (arith, read_digits-append s rest (n * 10 + (c - b'0')))

last_digit : (n : ℕ) → 0 * 10 + (b'0' + n - b'0') ≡ n
last_digit n = omega arith

more_digits : (n : ℕ) → n / 10 * 10 + (b'0' + n % 10 - b'0') ≡ n
more_digits n = omega arith

write_digits_lem :
    (fuel n : ℕ) (out : List ℕ)
    → n < fuel
    → AreDigits out
    → AreDigits (write_digits fuel n out)
      × (digits_value 0 (write_digits fuel n out) ≡ digits_value n out)
unfolding write_digits
write_digits_lem zero n out h k = absurd (omega arith)
write_digits_lem (suc fuel) n out h k = elim (Bool-cases (ltb n 10)) [
  | inl small ↦
      rw small
        (((omega (arith, ltb→lt n 10 small), k)), ap (λ v. digits_value v out) (last_digit n))
  | inr large ↦
      let rest =
        write_digits_lem fuel (n / 10) ((b'0' + n % 10) ∷ out) (ground arith) (omega arith, k) in
      rw large (rest.0, rest.1 ∙ ap (λ v. digits_value v out) (more_digits n))
]

-- The decimal digits of a number, and back.
pub decimal_lem : (n : ℕ) → AreDigits (decimal n) × (digits_value 0 (decimal n) ≡ n)
unfolding decimal
decimal_lem n = write_digits_lem (suc n) n [] (omega arith) tt

write_digits-nonempty :
    (fuel n : ℕ) (out : List ℕ)
    → n < fuel
    → (c : ℕ) × (s : List ℕ) × (write_digits fuel n out ≡ c ∷ s)
unfolding write_digits
write_digits-nonempty zero n out h = absurd (omega arith)
write_digits-nonempty (suc fuel) n out h = elim (Bool-cases (ltb n 10)) [
  | inl small ↦ rw small (b'0' + n, out, refl)
  | inr large ↦
      rw large (write_digits-nonempty fuel (n / 10) ((b'0' + n % 10) ∷ out) (ground arith))
]

pub decimal-nonempty : (n : ℕ) → (c : ℕ) × (s : List ℕ) × (decimal n ≡ c ∷ s)
unfolding decimal
decimal-nonempty n = write_digits-nonempty (suc n) n [] (omega arith)

pub read_digits-decimal :
    (n : ℕ) (rest : List ℕ) → StopsDigits rest → read_digits (decimal n ++ rest) 0 ≡ (n, rest)
read_digits-decimal n rest h =
    let (all, value) = decimal_lem n in
    read_digits-append (decimal n) rest 0 all h ∙ ap (λ v. (v, rest)) value
