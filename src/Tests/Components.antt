-- ===== src/Tests/Components.antt =====
-- The parts of the flight computer on concrete inputs.
use apogee_fc.Base.{◌≤◌, ◌<◌, ◌≡◌, ◌≢◌, refl, arith, [], ◌∷◌, true, some, ◌⊎◌, ◌↔◌, false}
use apogee_fc.FlightMode.{safe, nominal, health_confirmed, dispatch}
use apogee_fc.FlightMode.Graph.{Followed, Refused, dispatch-Edge, nominal_needs_confirmation}
use apogee_fc.Health.{HealthReport, battery_undervoltage, evaluate, has_fault, healthy}
use apogee_fc.Health.Faults.{Violates, has_fault-evaluate}
use apogee_fc.FaultManager.{new, update}
use apogee_fc.FaultManager.Invariant.{IsConsistent, new-IsConsistent, update-IsConsistent}
use apogee_fc.FaultManager.Recovery.{
  update_all, healthy_run, ever_faulted, faulted_iff_short_run, confirmed_iff_third,
}
use apogee_fc.CommandProcessor.{CommandProcessor, default_configuration, process}
use apogee_fc.CommandProcessor.Outcome.{Outcome, process-Outcome}
use apogee_fc.Flight.{advance}
use apogee_fc.Flight.Deadline.{advance_bounds}
use apogee_fc.Tests.Data.{cold, too_slow}

abbrev good : HealthReport
good = record { active_faults = 0 }

abbrev bad : HealthReport
bad = record { active_faults = 5 }

abbrev processor : CommandProcessor
processor = record { state_machine = record { mode = safe }; configuration = default_configuration }

process-Outcome_example : Outcome too_slow processor (process processor too_slow)
process-Outcome_example = process-Outcome processor too_slow

faulted_iff_short_run_example :
    ((update_all (new true) (bad ∷ good ∷ good ∷ [])).faulted ≡ true)
    ↔ (healthy_run 0 (bad ∷ good ∷ good ∷ []) < 3)
faulted_iff_short_run_example = faulted_iff_short_run (bad ∷ good ∷ good ∷ [])

confirmed_iff_third_example :
    ((update (update_all (new false) (bad ∷ good ∷ good ∷ [])) good).1 ≡ some health_confirmed) ↔ (
      (ever_faulted false (bad ∷ good ∷ good ∷ []) ≡ true)
      × (healthy good ≡ true)
      × (healthy_run 0 (bad ∷ good ∷ good ∷ []) ≡ 2))
confirmed_iff_third_example = confirmed_iff_third false (bad ∷ good ∷ good ∷ []) good

update-IsConsistent_example : IsConsistent (update (new true) bad).0
update-IsConsistent_example =
    update-IsConsistent (new true) bad (omega arith) (new-IsConsistent true)

has_fault-evaluate_example :
    (has_fault (evaluate cold) battery_undervoltage ≡ true) ↔ Violates cold battery_undervoltage
has_fault-evaluate_example = has_fault-evaluate cold battery_undervoltage

dispatch-Edge_example :
    Followed safe health_confirmed (dispatch (record { mode = safe }) health_confirmed)
    ⊎ Refused
        (record { mode = safe })
        health_confirmed
        (dispatch (record { mode = safe }) health_confirmed)
dispatch-Edge_example = dispatch-Edge (record { mode = safe }) health_confirmed

safe_not_nominal : safe ≢ nominal
safe_not_nominal e = ground arith

confirmed_mode : (dispatch (record { mode = safe }) health_confirmed).0.mode ≡ nominal
unfolding dispatch
confirmed_mode = refl

nominal_needs_confirmation_example : (safe ≡ safe) × (health_confirmed ≡ health_confirmed)
nominal_needs_confirmation_example =
    nominal_needs_confirmation (record { mode = safe }) health_confirmed safe_not_nominal
      confirmed_mode

advance_bounds_example : (2700 < advance 1701 500 2700 1000) × (advance 1701 500 2700 1000 ≤ 3200)
advance_bounds_example = advance_bounds 1701 500 2700 1000 (omega arith) (omega arith) (omega arith)
