-- ===== src/FaultManager/Invariant.antt =====
-- What holds of the fault manager between two updates.
use apogee_fc.Base.{
  ℕ, ◌≤◌, ◌<◌, Bool, true, false, ◌≡◌, refl, arith, bit_or, holds_below, holds_at, ltb, ltb→lt,
}
use apogee_fc.Health.{HealthReport}
use apogee_fc.FaultManager.{FaultManager, new, update}

-- The report of a health monitor: the three known bits only.
abbrev pub IsReport : HealthReport → Type 0
IsReport r = r.active_faults < 8

pub record IsConsistent (m : FaultManager) : Type 0 where
  pub known : m.latched_fault_mask < 8
  pub counting : m.faulted ≡ true → m.healthy_streak < 3
  pub bounded : m.healthy_streak ≤ 3
  pub cleared : m.faulted ≡ false → m.latched_fault_mask ≡ 0

-- Masks of the three known bits join to such a mask.
or_table : holds_below (λ a. holds_below (λ b. ltb (bit_or a b) 8) 8) 8 ≡ true
unfolding holds_below
or_table = refl

pub bit_or-lt : (a b : ℕ) → a < 8 → b < 8 → bit_or a b < 8
bit_or-lt a b ha hb = ltb→lt _ _ (holds_at _ 8 b hb (holds_at _ 8 a ha or_table))

pub new-IsConsistent : (b : Bool) → IsConsistent (new b)
new-IsConsistent b = ground arith

-- Every update with a report of the known faults keeps the fault manager consistent: the latched
-- mask has known bits only and is empty when there is no fault, and the streak stops at three, which
-- it reaches only when the fault is cleared.
pub update-IsConsistent :
    (m : FaultManager) (r : HealthReport)
    → IsReport r
    → IsConsistent m
    → IsConsistent (update m r).0
unfolding update
update-IsConsistent m r hr h =
    ground (arith, bit_or-lt m.latched_fault_mask r.active_faults h.known hr)
