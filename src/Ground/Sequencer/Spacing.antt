-- ===== src/Ground/Sequencer/Spacing.antt =====
-- What `trim` takes away.
use apogee_fc.Base.{
  ℕ, ◌+◌, ◌-◌, ◌≡◌, refl, sym, ap, ◌∙◌, arith, List, [], ◌∷◌, ◌++◌, true, none, some, ◌⊎◌, inl, inr,
  Bool-cases, length, take-append, drop-append,
}
use apogee_fc.Ground.Sequencer.{is_space, find_first_not_of, find_last_not_of, trim}

abbrev pub AreSpaces : List ℕ → Type 0
AreSpaces [] = Unit
AreSpaces (c ∷ s) = (is_space c ≡ true) × AreSpaces s

-- A text that begins and ends with other characters than spaces.
pub record IsTrimmed (s : List ℕ) : Type 0 where
  pub first : find_first_not_of s ≡ some 0
  pub last : (n : ℕ) × (length s ≡ n + 1) × (find_last_not_of s ≡ some n)

pub first-append_text :
    (s after : List ℕ) → find_first_not_of s ≡ some 0 → find_first_not_of (s ++ after) ≡ some 0
unfolding find_first_not_of
first-append_text [] after e = cc
first-append_text (c ∷ s) after e = elim (Bool-cases (is_space c)) [
  | inl blank ↦ absurd (ground arith)
  | inr solid ↦ rw solid
]

first-append :
    (before rest : List ℕ)
    → AreSpaces before
    → find_first_not_of rest ≡ some 0
    → find_first_not_of (before ++ rest) ≡ some (length before)
unfolding find_first_not_of
first-append [] rest h e = e
first-append (c ∷ before) rest h e =
    rw (h.0, first-append before rest h.1 e) (ap some (omega arith))

last-AreSpaces : (after : List ℕ) → AreSpaces after → find_last_not_of after ≡ none
unfolding find_last_not_of
last-AreSpaces [] h = refl
last-AreSpaces (c ∷ after) h = rw (last-AreSpaces after h.1, h.0)

pub last-append_spaces :
    (s after : List ℕ) → AreSpaces after → find_last_not_of (s ++ after) ≡ find_last_not_of s
unfolding find_last_not_of
last-append_spaces [] after h = last-AreSpaces after h
last-append_spaces (c ∷ s) after h = rw (last-append_spaces s after h)

pub last-append :
    (before s : List ℕ) (n : ℕ)
    → find_last_not_of s ≡ some n
    → find_last_not_of (before ++ s) ≡ some (length before + n)
unfolding find_last_not_of
last-append [] s n e = e ∙ ap some (omega arith)
last-append (c ∷ before) s n e = rw (last-append before s n e) (ap some (omega arith))

-- Spaces around a trimmed text are taken away, and nothing else.
pub trim-spaced :
    (before s after : List ℕ)
    → AreSpaces before
    → AreSpaces after
    → IsTrimmed s
    → trim (before ++ (s ++ after)) ≡ s
unfolding trim
trim-spaced before s after hb ha h =
    let (n, size, last) = h.last in
    let count : length before + n - length before + 1 ≡ n + 1 = omega arith in
    rw
      (
        first-append before (s ++ after) hb (first-append_text s after h.first),
        last-append before (s ++ after) n (last-append_spaces s after ha ∙ last),
        drop-append (length before) before (s ++ after) refl,
        count,
        trim,
      )
      (take-append (n + 1) s after size)

-- What stands around the text that `trim` leaves.
pub record Trimming (text : List ℕ) : Type 0 where
  pub before : List ℕ
  pub core : List ℕ
  pub after : List ℕ
  pub spaces_before : AreSpaces before
  pub spaces_after : AreSpaces after
  pub whole : text ≡ before ++ (core ++ after)
  pub trimmed : IsTrimmed core

record Front (text : List ℕ) : Type 0 where
  before : List ℕ
  rest : List ℕ
  spaces : AreSpaces before
  whole : text ≡ before ++ rest
  first : find_first_not_of rest ≡ some 0

record Back (text : List ℕ) : Type 0 where
  core : List ℕ
  after : List ℕ
  spaces : AreSpaces after
  whole : text ≡ core ++ after
  last : (n : ℕ) × (length core ≡ n + 1) × (find_last_not_of core ≡ some n)

front : (text : List ℕ) → AreSpaces text ⊎ Front text
unfolding find_first_not_of
front [] = inl tt
front (c ∷ s) = elim (Bool-cases (is_space c)) [
  | inl blank ↦ elim (front s) [
    | inl all ↦ inl (blank, all)
    | inr f ↦ inr (record {
      before = c ∷ f.before;
      rest = f.rest;
      spaces = (blank, f.spaces);
      whole = ap (λ t. c ∷ t) f.whole;
      first = f.first;
    })
  ]
  | inr solid ↦
      inr (record { before = []; rest = c ∷ s; spaces = tt; whole = refl; first = rw solid })
]

back : (text : List ℕ) → AreSpaces text ⊎ Back text
unfolding find_last_not_of
back [] = inl tt
back (c ∷ s) = elim (back s) [
  | inr b ↦ inr (record {
    core = c ∷ b.core;
    after = b.after;
    spaces = b.spaces;
    whole = ap (λ t. c ∷ t) b.whole;
    last = let (n, size, last) = b.last in (n + 1, omega arith, rw last);
  })
  | inl all ↦ elim (Bool-cases (is_space c)) [
    | inl blank ↦ inl (blank, all)
    | inr solid ↦ inr (record {
      core = c ∷ [];
      after = s;
      spaces = all;
      whole = refl;
      last = (0, omega arith, rw solid);
    })
  ]
]

-- A nonempty beginning of a text that starts with no space.
first-core :
    (core after : List ℕ)
    → find_first_not_of (core ++ after) ≡ some 0
    → (n : ℕ) → length core ≡ n + 1
    → find_first_not_of core ≡ some 0
unfolding find_first_not_of
first-core [] after e n h = absurd (omega arith)
first-core (c ∷ core) after e n h = elim (Bool-cases (is_space c)) [
  | inl blank ↦ absurd (ground arith)
  | inr solid ↦ rw solid
]

not_spaces : (s : List ℕ) → AreSpaces s → find_first_not_of s ≡ none
unfolding find_first_not_of
not_spaces [] h = refl
not_spaces (c ∷ s) h = rw (not_spaces s h.1, h.0)

-- Every text is only spaces, or has a trimmed core with spaces around it.
pub trimming : (text : List ℕ) → AreSpaces text ⊎ Trimming text
trimming text = elim (front text) [
  | inl all ↦ inl all
  | inr f ↦ elim (back f.rest) [
    | inl all ↦ absurd (cc (f.first, not_spaces f.rest all))
    | inr b ↦ inr (record {
      before = f.before;
      core = b.core;
      after = b.after;
      spaces_before = f.spaces;
      spaces_after = b.spaces;
      whole = f.whole ∙ ap (λ t. f.before ++ t) b.whole;
      trimmed = record {
        first =
            first-core b.core b.after (ap find_first_not_of (sym b.whole) ∙ f.first) b.last.0
              b.last.1;
        last = b.last;
      };
    })
  ]
]

pub trim-AreSpaces : (s : List ℕ) → AreSpaces s → trim s ≡ []
unfolding trim
trim-AreSpaces s h = rw (not_spaces s h, trim)

pub trim-core : (text : List ℕ) (t : Trimming text) → trim text ≡ t.core
trim-core text t =
    ap trim t.whole ∙ trim-spaced t.before t.core t.after t.spaces_before t.spaces_after t.trimmed
