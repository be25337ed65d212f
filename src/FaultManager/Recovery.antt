-- ===== src/FaultManager/Recovery.antt =====
-- The fault manager against the history of reports.
use apogee_fc.Base.{
  Bool, ◌&&◌, ℕ, ◌+◌, ◌<◌, true, false, ◌≡◌, ◌↔◌, refl, ap, ◌∙◌, arith, some, ltb, List, [], ◌∷◌,
  if◌then◌else◌,
}
use Prim.Native.Nat.{min}
use apogee_fc.FlightMode.{health_confirmed, fault_detected}
use apogee_fc.Health.{HealthReport, healthy}
use apogee_fc.FaultManager.{FaultManager, new, update}

-- A batch of reports, one after the other.
pub update_all : FaultManager → List HealthReport → FaultManager
update_all m [] = m
update_all m (r ∷ rs) = update_all (update m r).0 rs

-- How many healthy reports stand at the end of a history, `k` more if all of it is healthy.
pub healthy_run : ℕ → List HealthReport → ℕ
healthy_run k [] = k
healthy_run k (r ∷ rs) = healthy_run (if healthy r then k + 1 else 0) rs

-- Whether a manager that starts with the fault pending or not, as `seen` says, has had one by the end.
pub ever_faulted : Bool → List HealthReport → Bool
ever_faulted seen [] = seen
ever_faulted seen (r ∷ rs) = ever_faulted (if healthy r then seen else true) rs

-- The manager holds what such a history leaves; without a fault its streak is not counted.
abbrev Recovers : FaultManager → Bool → ℕ → Type 0
Recovers m seen k = (m.faulted ≡ (seen && ltb k 3)) × (seen ≡ true → m.healthy_streak ≡ min k 3)

update-Recovers :
    (m : FaultManager) (r : HealthReport) (seen : Bool) (k : ℕ)
    → Recovers m seen k
    → Recovers (update m r).0 (if healthy r then seen else true) (if healthy r then k + 1 else 0)
unfolding update
update-Recovers m r seen k h = ground arith

update_all-Recovers :
    (m : FaultManager) (rs : List HealthReport) (seen : Bool) (k : ℕ)
    → Recovers m seen k
    → Recovers (update_all m rs) (ever_faulted seen rs) (healthy_run k rs)
unfolding update_all healthy_run ever_faulted
update_all-Recovers m [] seen k h = h
update_all-Recovers m (r ∷ rs) seen k h =
    update_all-Recovers (update m r).0 rs (if healthy r then seen else true)
      (if healthy r then k + 1 else 0) (update-Recovers m r seen k h)

new-Recovers : (seen : Bool) → Recovers (new seen) seen 0
new-Recovers true = (refl, λ e. refl)
new-Recovers false = (refl, λ e. refl)

ever_faulted-true : (rs : List HealthReport) → ever_faulted true rs ≡ true
unfolding ever_faulted
ever_faulted-true [] = refl
ever_faulted-true (r ∷ rs) =
    ap (λ b. ever_faulted b rs) (if_same (healthy r)) ∙ ever_faulted-true rs
  where
    if_same : (b : Bool) → (if b then true else true) ≡ true
    if_same true = refl
    if_same false = refl

-- A fault manager that starts faulted is faulted after any history exactly while fewer than three
-- healthy reports stand at its end.
pub faulted_iff_short_run :
    (rs : List HealthReport) → ((update_all (new true) rs).faulted ≡ true) ↔ (healthy_run 0 rs < 3)
faulted_iff_short_run rs =
    ground
      (arith, update_all-Recovers (new true) rs true 0 (new-Recovers true), ever_faulted-true rs)

confirmed_at :
    (m : FaultManager) (r : HealthReport) (seen : Bool) (k : ℕ)
    → Recovers m seen k
    → ((update m r).1 ≡ some health_confirmed) ↔ ((seen ≡ true) × (healthy r ≡ true) × (k ≡ 2))
unfolding update
confirmed_at m r seen k h = ground arith

-- Of a new fault manager, whether it starts faulted or not: after any history, health is confirmed by a
-- report exactly if the manager started faulted or the history has an unhealthy report, and the report
-- is healthy and the third of a run of healthy reports.
pub confirmed_iff_third :
    (faulted : Bool) (rs : List HealthReport) (r : HealthReport)
    → ((update (update_all (new faulted) rs) r).1 ≡ some health_confirmed)
      ↔ ((ever_faulted faulted rs ≡ true) × (healthy r ≡ true) × (healthy_run 0 rs ≡ 2))
confirmed_iff_third faulted rs r =
    confirmed_at (update_all (new faulted) rs) r (ever_faulted faulted rs) (healthy_run 0 rs)
      (update_all-Recovers (new faulted) rs faulted 0 (new-Recovers faulted))

-- A fault is announced by a report exactly if it is unhealthy and no fault was pending.
pub detected_iff :
    (m : FaultManager) (r : HealthReport)
    → ((update m r).1 ≡ some fault_detected) ↔ ((healthy r ≡ false) × (m.faulted ≡ false))
unfolding update
detected_iff m r = ground arith
