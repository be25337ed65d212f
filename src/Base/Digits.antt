-- ===== src/Base/Digits.antt =====
-- The native bit operations stand for a recursion on binary digits with fuel. Here the fuel goes
-- away: one equation for the lowest digit.
use Prim.Native.Nat.{ℕ, zero, suc, ◌+◌, ◌*◌, ◌/◌, ◌%◌, ◌≤◌, digits, bitwise}
use mathlib.Core.Path.{◌≡◌, refl, ap}
use native.Mathlib.Nat.{le_refl}
use native.Mathlib.Omega.{arith}

module _ (z : ℕ → ℕ) (f : ℕ → ℕ → ℕ) where
  -- Fuel that covers the first operand is enough.
  digits_enough : (a n b m : ℕ) → a ≤ m → a ≤ n → digits z f m a b ≡ digits z f n a b
  digits_enough zero zero b zero p q = refl
  digits_enough zero zero b (suc m) p q = refl
  digits_enough zero (suc n) b zero p q = refl
  digits_enough zero (suc n) b (suc m) p q = refl
  digits_enough (suc a) n b zero p q = absurd (omega arith)
  digits_enough (suc a) zero b (suc m) p q = absurd (omega arith)
  digits_enough (suc a) (suc n) b (suc m) p q =
      ap (λ high. high * 2 + f (suc a % 2) (b % 2))
        (digits_enough (suc a / 2) n (b / 2) m (omega arith) (omega arith))

  pub bitwise_lowest :
      (a b : ℕ)
      → bitwise z f (suc a) b ≡ bitwise z f (suc a / 2) (b / 2) * 2 + f (suc a % 2) (b % 2)
  bitwise_lowest a b =
      ap (λ high. high * 2 + f (suc a % 2) (b % 2))
        (digits_enough (suc a / 2) (suc a / 2) (b / 2) a (omega arith) (le_refl _))
