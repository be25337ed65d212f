-- ===== src/Ground/Sequencer/Grammar.antt =====
-- `parse` on any line, against the command language.
use apogee_fc.Base.{
  ℕ, ◌≡◌, refl, sym, ap, ◌∙◌, subst, arith, List, [], ◌∷◌, ◌++◌, true, false, inl, inr, Bool-cases,
  length, if◌then◌else◌, codes, ◌==◌, text_eq, text_eq_sound, starts_with, from_chars, converted,
}
use apogee_fc.Command.{ping, enter_safe_mode, set_telemetry_period}
use apogee_fc.Ground.Sequencer.{
  CommandSequencer, LocalCommandResult, trim, parse, parse_period, make_command, use_conversion,
  invalid,
}
use apogee_fc.Ground.Sequencer.Spacing.{AreSpaces, IsTrimmed, trimming, trim-core, trim-AreSpaces}
use apogee_fc.Ground.Sequencer.Lines.{
  Request, quit, request, Spelled, quit_text, ping_text, safe_text, granted,
}
use apogee_fc.Ground.Sequencer.Numbers.{
  starts_with_sound, conversion_cases, separates, Decided, period_number,
}

-- The end of `parse_period`, on the text of the number.
abbrev valued : List ℕ → CommandSequencer → CommandSequencer × LocalCommandResult
valued number s = if length number == 0 then (s, invalid) else use_conversion (from_chars number) s

parse_period-separated :
    (c : ℕ) (rest : List ℕ) (s : CommandSequencer)
    → separates c ≡ true
    → parse_period (codes "period" ++ (c ∷ rest)) s ≡ valued (trim (c ∷ rest)) s
unfolding parse_period starts_with
parse_period-separated c rest s sep = ground arith

parse_period-unseparated :
    (c : ℕ) (rest : List ℕ) (s : CommandSequencer)
    → separates c ≡ false
    → parse_period (codes "period" ++ (c ∷ rest)) s ≡ (s, invalid)
unfolding parse_period starts_with
parse_period-unseparated c rest s sep = ground arith

valued-converted :
    (number : List ℕ) (v : ℕ) (s : CommandSequencer)
    → from_chars number ≡ converted v []
    → valued number s ≡ granted (request set_telemetry_period v) s
unfolding make_command from_chars
valued-converted [] v s e = cc
valued-converted (d ∷ number) v s e = ground (arith, e)

valued-refused :
    (number : List ℕ) (s : CommandSequencer)
    → ((s' : CommandSequencer) → use_conversion (from_chars number) s' ≡ (s', invalid))
    → valued number s ≡ (s, invalid)
valued-refused [] s h = refl
valued-refused (d ∷ number) s h = ground (arith, h s)

separated-Decided :
    (c : ℕ) (rest : List ℕ) (s : CommandSequencer)
    → IsTrimmed (codes "period" ++ (c ∷ rest))
    → separates c ≡ true
    → Decided (codes "period" ++ (c ∷ rest)) s (parse_period (codes "period" ++ (c ∷ rest)) s)
separated-Decided c rest s h sep =
    let value = parse_period-separated c rest s sep in
    elim (trimming (c ∷ rest)) [
      | inl blank ↦ inr (value ∙ ap (λ t. valued t s) (trim-AreSpaces (c ∷ rest) blank))
      | inr t ↦
          let cored = value ∙ ap (λ w. valued w s) (trim-core (c ∷ rest) t) in
          elim (conversion_cases (from_chars t.core)) [
            | inl (v, e) ↦ inl (
              request set_telemetry_period v,
              period_number c rest t v h sep e,
              cored ∙ valued-converted t.core v s e,
            )
            | inr refused ↦ inr (cored ∙ valued-refused t.core s refused)
          ]
    ]

after_word :
    (rest : List ℕ) (s : CommandSequencer)
    → IsTrimmed (codes "period" ++ rest)
    → Decided (codes "period" ++ rest) s (parse_period (codes "period" ++ rest) s)
unfolding parse_period starts_with
after_word [] s h = inr refl
after_word (c ∷ rest) s h = elim (Bool-cases (separates c)) [
  | inl sep ↦ separated-Decided c rest s h sep
  | inr other ↦ inr (parse_period-unseparated c rest s other)
]

period-Decided :
    (text : List ℕ) (s : CommandSequencer) → IsTrimmed text → Decided text s (parse_period text s)
unfolding parse_period
period-Decided text s h = elim (Bool-cases (starts_with text (codes "period"))) [
  | inr other ↦ inr (rw other)
  | inl word ↦
      let (rest, e) = starts_with_sound text (codes "period") word in
      subst (λ t. Decided t s (parse_period t s)) (sym e) (after_word rest s (subst IsTrimmed e h))
]

Spelled-word :
    (text word : List ℕ) (r : Request) → text_eq text word ≡ true → Spelled word r → Spelled text r
Spelled-word text word r e h = subst (λ w. Spelled w r) (sym (text_eq_sound text word e)) h

-- `parse` on a trimmed text.
text-Decided :
    (text : List ℕ) (s : CommandSequencer) (line : List ℕ)
    → trim line ≡ text
    → IsTrimmed text
    → Decided text s (parse line s)
unfolding parse
text-Decided text s line e h = elim (Bool-cases (text_eq text (codes "quit"))) [
  | inl q ↦ inl (quit, Spelled-word text (codes "quit") quit q quit_text, rw (e, q))
  | inr q ↦ elim (Bool-cases (text_eq text (codes "ping"))) [
    | inl p ↦ inl (request ping 0, Spelled-word text (codes "ping") _ p ping_text, rw (e, q, p))
    | inr p ↦ elim (Bool-cases (text_eq text (codes "safe"))) [
      | inl f ↦ inl (
        request enter_safe_mode 0,
        Spelled-word text (codes "safe") _ f safe_text,
        rw (e, q, p, f),
      )
      | inr f ↦ rw (e, q, p, f) (period-Decided text s h)
    ]
  ]
]

blank-invalid :
    (line : List ℕ) (s : CommandSequencer) → trim line ≡ [] → parse line s ≡ (s, invalid)
unfolding parse parse_period text_eq starts_with
blank-invalid line s e = rw e

-- A line is read as a request that it spells with spaces around it, or it is refused, and then the
-- sequencer keeps its state.
pub data Reading (line : List ℕ) (s : CommandSequencer) : Type 0 where
  spelled :
      (before text after : List ℕ) (r : Request)
      → AreSpaces before
      → AreSpaces after
      → line ≡ before ++ (text ++ after)
      → Spelled text r
      → parse line s ≡ granted r s
      → Reading line s
  refused : parse line s ≡ (s, invalid) → Reading line s

-- `parse` reads every line as a request that the line spells, with spaces around it, and grants it, or
-- it refuses the line as invalid and leaves the sequencer alone.
pub parse-Reading : (line : List ℕ) (s : CommandSequencer) → Reading line s
parse-Reading line s = elim (trimming line) [
  | inl blank ↦ refused (blank-invalid line s (trim-AreSpaces line blank))
  | inr t ↦ elim (text-Decided t.core s line (trim-core line t) t.trimmed) [
    | inl (r, h, e) ↦ spelled t.before t.core t.after r t.spaces_before t.spaces_after t.whole h e
    | inr e ↦ refused e
  ]
]
