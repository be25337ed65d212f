-- ===== src/Ground/Sequencer/Numbers.antt =====
-- What `parse` reads behind the word `period`.
use apogee_fc.Base.{
  ℕ, ◌+◌, ◌*◌, ◌-◌, ◌^◌, ◌<◌, ◌≡◌, refl, sym, ap, ◌∙◌, subst, arith, List, [], ◌∷◌, ◌++◌, Bool,
  true, ◌||◌, some, ◌⊎◌, inl, inr, Bool-cases, length, get_or, length-append, append_assoc,
  append-nil, codes, ◌==◌, is_digit, AreDigits, digits_value, read_digits, starts_with, from_chars,
  in_range, invalid_argument, result_out_of_range, converted, FromChars,
}
use apogee_fc.Command.{set_telemetry_period}
use apogee_fc.Ground.Sequencer.{
  CommandSequencer, LocalCommandResult, find_last_not_of, use_conversion, invalid,
}
use apogee_fc.Ground.Sequencer.Spacing.{
  AreSpaces, IsTrimmed, Trimming, last-append, last-append_spaces,
}
use apogee_fc.Ground.Sequencer.Lines.{
  Request, request, Spelled, period_text, IsGap, IsNonempty, granted,
}

-- The digits that `read_digits` has read.
pub read_digits_sound :
    (s : List ℕ) (n v : ℕ) → read_digits s n ≡ (v, []) → AreDigits s × (v ≡ digits_value n s)
unfolding read_digits
read_digits_sound [] n v h = (tt, sym (ap (λ r. r.0) h))
read_digits_sound (c ∷ s) n v h = elim (Bool-cases (is_digit c)) [
  | inl digit ↦
      let later = read_digits_sound s (n * 10 + (c - b'0')) v (ground (arith, h)) in
      ((ground arith, later.0), later.1)
  | inr other ↦ absurd (ground (arith, ap (λ r. r.1) h))
]

pub in_range_sound :
    (r : ℕ × List ℕ) (v : ℕ) → in_range r ≡ converted v [] → (r ≡ (v, [])) × (v < 2 ^ 32)
unfolding in_range
in_range_sound (n, rest) v h = ground arith

pub from_chars_sound :
    (s : List ℕ) (v : ℕ)
    → from_chars s ≡ converted v []
    → IsNonempty s × AreDigits s × (v ≡ digits_value 0 s) × (v < 2 ^ 32)
unfolding from_chars in_range
from_chars_sound [] v h = cc
from_chars_sound (c ∷ s) v h = elim (Bool-cases (is_digit c)) [
  | inl digit ↦
      let (whole, fits) = in_range_sound (read_digits (c ∷ s) 0) v (ground (arith, h)) in
      let (all, value) = read_digits_sound (c ∷ s) 0 v whole in (tt, all, value, fits)
  | inr other ↦ absurd (ground (arith, h))
]

-- The lines that follow a word.
pub starts_with_sound :
    (s word : List ℕ) → starts_with s word ≡ true → (rest : List ℕ) × (s ≡ word ++ rest)
unfolding starts_with
starts_with_sound s [] h = (s, refl)
starts_with_sound [] (b ∷ word) h = cc
starts_with_sound (a ∷ s) (b ∷ word) h =
    let (rest, e) = starts_with_sound s word (ground arith) in
    let same : a ≡ b = ground arith in (rest, λ i. same i ∷ e i)

-- A trimmed text has no spaces at its end.
pub no_spaces_after :
    (s after : List ℕ)
    → IsTrimmed (s ++ after)
    → AreSpaces after
    → (n : ℕ) → length s ≡ n + 1
    → find_last_not_of s ≡ some n
    → after ≡ []
no_spaces_after s [] t h n size last = refl
no_spaces_after s (c ∷ after) t h n size last =
    let (m, whole, e) = t.last in
    let same : m ≡ n = ground (arith, e, last, last-append_spaces s (c ∷ after) h) in
    absurd (omega (arith, whole, same, size, length-append s (c ∷ after)))

pub conversion_cases :
    (x : FromChars)
    → ((v : ℕ) × (x ≡ converted v []))
      ⊎ ((s : CommandSequencer) → use_conversion x s ≡ (s, invalid))
conversion_cases invalid_argument = inr (λ s. refl)
conversion_cases (result_out_of_range _) = inr (λ s. refl)
conversion_cases (converted v []) = inl (v, refl)
conversion_cases (converted v (_ ∷ _)) = inr (λ s. refl)

abbrev pub separates : ℕ → Bool
separates c = c == b' ' || c == b'\t'

-- What stands between the word and its number.
pub gap_lem :
    (before core after : List ℕ) (c : ℕ) (rest : List ℕ)
    → c ∷ rest ≡ before ++ (core ++ after)
    → separates c ≡ true
    → AreSpaces before
    → IsNonempty core
    → AreDigits core
    → IsGap before
gap_lem [] [] after c rest e sep h n k = absurd n
gap_lem [] (d ∷ core) after c rest e sep h n k =
    let same : get_or (c ∷ rest) 0 0 ≡ d = ap (λ t. get_or t 0 0) e in absurd (ground arith)
gap_lem (b ∷ before) core after c rest e sep h n k =
    let same : get_or (c ∷ rest) 0 0 ≡ b = ap (λ t. get_or t 0 0) e in (ground arith, h.1)

-- The text spells a request and is granted, or it is refused.
abbrev pub Decided : List ℕ → CommandSequencer → (CommandSequencer × LocalCommandResult) → Type 0
Decided text s result =
    ((r : Request) × Spelled text r × (result ≡ granted r s)) ⊎ (result ≡ (s, invalid))

pub period_number :
    (c : ℕ) (rest : List ℕ) (t : Trimming (c ∷ rest)) (v : ℕ)
    → IsTrimmed (codes "period" ++ (c ∷ rest))
    → separates c ≡ true
    → from_chars t.core ≡ converted v []
    → Spelled (codes "period" ++ (c ∷ rest)) (request set_telemetry_period v)
period_number c rest t v h sep e =
    let (nonempty, digits, value, fits) = from_chars_sound t.core v e in
    let gap = gap_lem t.before t.core t.after c rest t.whole sep t.spaces_before nonempty digits in
    let front = codes "period" ++ t.before in
    let split : codes "period" ++ (c ∷ rest) ≡ (front ++ t.core) ++ t.after =
      ap (λ r. codes "period" ++ r) t.whole
      ∙ sym (append_assoc (codes "period") t.before (t.core ++ t.after))
      ∙ sym (append_assoc front t.core t.after) in
    let (n, size, last) = t.trimmed.last in
    let none_after : t.after ≡ [] =
      no_spaces_after (front ++ t.core) t.after (subst IsTrimmed split h) t.spaces_after
        (length front + n) (omega (arith, length-append front t.core, size))
        (last-append front t.core n last) in
    let whole : codes "period" ++ (t.before ++ t.core) ≡ codes "period" ++ (c ∷ rest) = sym (
      ap (λ r. codes "period" ++ r) t.whole
      ∙ ap (λ a. codes "period" ++ (t.before ++ (t.core ++ a))) none_after
      ∙ ap (λ a. codes "period" ++ (t.before ++ a)) (append-nil t.core)) in
    subst (λ w. Spelled w (request set_telemetry_period v)) whole
      (rw value (period_text t.before t.core gap nonempty digits (rw (← value) fits)))
