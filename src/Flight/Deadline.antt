-- ===== src/Flight/Deadline.antt =====
-- The absolute deadline of the telemetry.
use apogee_fc.Base.{ℕ, zero, suc, ◌+◌, ◌*◌, ◌≤◌, ◌<◌, ◌≡◌, inl, inr, ◌∙◌, arith, leb, Bool-cases}
use apogee_fc.Flight.{advance}

-- From a deadline that is not in the future, with a positive period and fuel beyond `now -
-- deadline`, the deadline loop ends with a deadline in the future, at most one period ahead.
pub advance_bounds :
    (fuel period now deadline : ℕ)
    → 0 < period
    → deadline ≤ now
    → now < deadline + fuel
    → (now < advance fuel period now deadline) × (advance fuel period now deadline ≤ now + period)
unfolding advance
advance_bounds zero period now deadline p d f = absurd (omega arith)
advance_bounds (suc fuel) period now deadline p d f =
    ground (arith, advance_bounds fuel period now (deadline + period))

-- With any fuel but 0, the deadline moves by a positive number of whole periods, so that the
-- telemetry does not drift.
pub advance_grid :
    (fuel period now deadline : ℕ)
    → (k : ℕ) × (advance (suc fuel) period now deadline ≡ deadline + suc k * period)
unfolding advance
advance_grid zero period now deadline = (0, ground arith)
advance_grid (suc fuel) period now deadline = elim (Bool-cases (leb (deadline + period) now)) [
  | inl again ↦
      let (k, e) = advance_grid fuel period now (deadline + period) in
      (suc k, rw again (e ∙ omega arith))
  | inr done ↦ (0, rw done (omega arith))
]
