-- ===== src/Base/Lists.antt =====
-- C++ arrays and spans as lists with native indices.
use Prim.Native.Nat.{ℕ, zero, suc, ◌+◌, ◌-◌, ◌≤◌, ◌<◌, min}
use mathlib.Core.Path.{◌≡◌, refl, ap}
use mathlib.Core.Logic.{◌≢◌}
use mathlib.Core.List.{List, [], ◌∷◌, ◌++◌}
use native.Mathlib.Nat.{suc-add, zero-add}
use native.Mathlib.Omega.{arith}

module _ {ℓ} {A : Type ℓ} where
  abbrev pub length : List A → ℕ
  length [] = 0
  length (x ∷ xs) = suc (length xs)

  abbrev pub get_or : List A → ℕ → A → A
  get_or [] i d = d
  get_or (x ∷ xs) zero d = x
  get_or (x ∷ xs) (suc i) d = get_or xs i d

  -- A write out of range shows: it makes the list longer.
  abbrev pub set : List A → ℕ → A → List A
  set [] zero v = v ∷ []
  set [] (suc i) v = v ∷ set [] i v
  set (x ∷ xs) zero v = v ∷ xs
  set (x ∷ xs) (suc i) v = x ∷ set xs i v

  abbrev pub take : ℕ → List A → List A
  take zero xs = []
  take (suc n) [] = []
  take (suc n) (x ∷ xs) = x ∷ take n xs

  abbrev pub drop : ℕ → List A → List A
  drop zero xs = xs
  drop (suc n) [] = []
  drop (suc n) (x ∷ xs) = drop n xs

  abbrev pub replicate : ℕ → A → List A
  replicate zero a = []
  replicate (suc n) a = a ∷ replicate n a

  pub length-append : (xs ys : List A) → length (xs ++ ys) ≡ length xs + length ys
  length-append [] ys = omega arith
  length-append (x ∷ xs) ys = omega (arith, length-append xs ys)

  pub length-set : (xs : List A) (i : ℕ) (v : A) → i < length xs → length (set xs i v) ≡ length xs
  length-set [] i v h = absurd (omega arith)
  length-set (x ∷ xs) zero v h = refl
  length-set (x ∷ xs) (suc i) v h = ap suc (length-set xs i v (omega arith))

  pub length-take : (n : ℕ) (xs : List A) → length (take n xs) ≡ min n (length xs)
  length-take zero xs = omega arith
  length-take (suc n) [] = omega arith
  length-take (suc n) (x ∷ xs) = omega (arith, length-take n xs)

  pub length-drop : (n : ℕ) (xs : List A) → length (drop n xs) ≡ length xs - n
  length-drop zero xs = omega arith
  length-drop (suc n) [] = omega arith
  length-drop (suc n) (x ∷ xs) = omega (arith, length-drop n xs)

  pub length-replicate : (n : ℕ) (a : A) → length (replicate n a) ≡ n
  length-replicate zero a = refl
  length-replicate (suc n) a = ap suc (length-replicate n a)

  pub take-append-drop : (n : ℕ) (xs : List A) → take n xs ++ drop n xs ≡ xs
  take-append-drop zero xs = refl
  take-append-drop (suc n) [] = refl
  take-append-drop (suc n) (x ∷ xs) = ap (λ r. x ∷ r) (take-append-drop n xs)

  pub take-append : (n : ℕ) (xs ys : List A) → length xs ≡ n → take n (xs ++ ys) ≡ xs
  take-append zero [] ys h = refl
  take-append (suc n) [] ys h = absurd (omega arith)
  take-append zero (x ∷ xs) ys h = absurd (omega arith)
  take-append (suc n) (x ∷ xs) ys h = ap (λ r. x ∷ r) (take-append n xs ys (omega arith))

  pub drop-append : (n : ℕ) (xs ys : List A) → length xs ≡ n → drop n (xs ++ ys) ≡ ys
  drop-append zero [] ys h = refl
  drop-append (suc n) [] ys h = absurd (omega arith)
  drop-append zero (x ∷ xs) ys h = absurd (omega arith)
  drop-append (suc n) (x ∷ xs) ys h = drop-append n xs ys (omega arith)

  pub take-all : (n : ℕ) (xs : List A) → length xs ≤ n → take n xs ≡ xs
  take-all zero [] h = refl
  take-all zero (x ∷ xs) h = absurd (omega arith)
  take-all (suc n) [] h = refl
  take-all (suc n) (x ∷ xs) h = ap (λ r. x ∷ r) (take-all n xs (omega arith))

  -- A write just behind a prefix.
  pub set-append :
      (n : ℕ) (xs ys : List A) (y v : A) → length xs ≡ n → set (xs ++ (y ∷ ys)) n v ≡ xs ++ (v ∷ ys)
  set-append zero [] ys y v h = refl
  set-append (suc n) [] ys y v h = absurd (omega arith)
  set-append zero (x ∷ xs) ys y v h = absurd (omega arith)
  set-append (suc n) (x ∷ xs) ys y v h = ap (λ r. x ∷ r) (set-append n xs ys y v (omega arith))

  pub get_or-append :
      (n : ℕ) (xs ys : List A) (y d : A) → length xs ≡ n → get_or (xs ++ (y ∷ ys)) n d ≡ y
  get_or-append zero [] ys y d h = refl
  get_or-append (suc n) [] ys y d h = absurd (omega arith)
  get_or-append zero (x ∷ xs) ys y d h = absurd (omega arith)
  get_or-append (suc n) (x ∷ xs) ys y d h = get_or-append n xs ys y d (omega arith)

  pub drop-cons :
      (n : ℕ) (xs : List A) (d : A) → n < length xs → drop n xs ≡ get_or xs n d ∷ drop (suc n) xs
  drop-cons n [] d h = absurd (omega arith)
  drop-cons zero (x ∷ xs) d h = refl
  drop-cons (suc n) (x ∷ xs) d h = drop-cons n xs d (omega arith)

  pub take-suc :
      (n : ℕ) (xs : List A) (d : A)
      → n < length xs
      → take (suc n) xs ≡ take n xs ++ (get_or xs n d ∷ [])
  take-suc n [] d h = absurd (omega arith)
  take-suc zero (x ∷ xs) d h = refl
  take-suc (suc n) (x ∷ xs) d h = ap (λ r. x ∷ r) (take-suc n xs d (omega arith))

  pub get_or-drop : (k i : ℕ) (xs : List A) (d : A) → get_or (drop k xs) i d ≡ get_or xs (k + i) d
  get_or-drop zero i xs d = rw zero-add
  get_or-drop (suc k) i [] d = refl
  get_or-drop (suc k) i (x ∷ xs) d = rw (suc-add k i) (get_or-drop k i xs d)

  pub last_two :
      (n : ℕ) (xs : List A) (d : A)
      → length xs ≡ n + 2
      → xs ≡ take n xs ++ (get_or xs n d ∷ get_or xs (n + 1) d ∷ [])
  last_two zero (a ∷ b ∷ []) d h = refl
  last_two zero _ d h = absurd (omega arith)
  last_two (suc n) [] d h = absurd (omega arith)
  last_two (suc n) (a ∷ xs) d h = rw (suc-add n 1) (ap (λ r. a ∷ r) (last_two n xs d (omega arith)))

  pub get_or-append_left :
      (xs ys : List A) (i : ℕ) (d : A) → i < length xs → get_or (xs ++ ys) i d ≡ get_or xs i d
  get_or-append_left [] ys i d h = absurd (omega arith)
  get_or-append_left (x ∷ xs) ys zero d h = refl
  get_or-append_left (x ∷ xs) ys (suc i) d h = get_or-append_left xs ys i d (omega arith)

  pub get_or-take : (n i : ℕ) (xs : List A) (d : A) → i < n → get_or (take n xs) i d ≡ get_or xs i d
  get_or-take zero i xs d h = absurd (omega arith)
  get_or-take (suc n) i [] d h = refl
  get_or-take (suc n) zero (x ∷ xs) d h = refl
  get_or-take (suc n) (suc i) (x ∷ xs) d h = get_or-take n i xs d (omega arith)

  pub get_or-set_self :
      (xs : List A) (i : ℕ) (v d : A) → i < length xs → get_or (set xs i v) i d ≡ v
  get_or-set_self [] i v d h = absurd (omega arith)
  get_or-set_self (x ∷ xs) zero v d h = refl
  get_or-set_self (x ∷ xs) (suc i) v d h = get_or-set_self xs i v d (omega arith)

  pub get_or-set_ne :
      (xs : List A) (i j : ℕ) (v d : A)
      → i < length xs
      → i ≢ j
      → get_or (set xs i v) j d ≡ get_or xs j d
  get_or-set_ne [] i j v d l h = absurd (omega arith)
  get_or-set_ne (x ∷ xs) zero zero v d l h = absurd (h refl)
  get_or-set_ne (x ∷ xs) zero (suc j) v d l h = refl
  get_or-set_ne (x ∷ xs) (suc i) zero v d l h = refl
  get_or-set_ne (x ∷ xs) (suc i) (suc j) v d l h =
      get_or-set_ne xs i j v d (omega arith) (λ e. h (ap suc e))

  -- A shorter prefix of a prefix.
  pub take-take-append :
      (m n : ℕ) (xs ys : List A) → m ≤ n → n ≤ length xs → take m (take n xs ++ ys) ≡ take m xs
  take-take-append zero n xs ys p q = refl
  take-take-append (suc m) zero xs ys p q = absurd (omega arith)
  take-take-append (suc m) (suc n) [] ys p q = absurd (omega arith)
  take-take-append (suc m) (suc n) (x ∷ xs) ys p q =
      ap (λ r. x ∷ r) (take-take-append m n xs ys (omega arith) (omega arith))

  -- A write at `n` extends the first `n` elements by one.
  pub take-set :
      (n : ℕ) (xs : List A) (v : A)
      → n < length xs
      → take (suc n) (set xs n v) ≡ take n xs ++ (v ∷ [])
  take-set n [] v h = absurd (omega arith)
  take-set zero (x ∷ xs) v h = refl
  take-set (suc n) (x ∷ xs) v h = ap (λ r. x ∷ r) (take-set n xs v (omega arith))

  pub drop-all : (n : ℕ) (xs : List A) → length xs ≤ n → drop n xs ≡ []
  drop-all zero [] h = refl
  drop-all zero (x ∷ xs) h = absurd (omega arith)
  drop-all (suc n) [] h = refl
  drop-all (suc n) (x ∷ xs) h = drop-all n xs (omega arith)
