-- ===== src/Payments/Race/Tests.antt =====
-- Two deliveries of one event and a third of another, and the theorems at those schedules.
use theokit_plugins.Common.{
  ℕ, String, Bool, true, false, List, [], ◌∷◌, ◌≡◌, ◌≢◌, refl, arith, if◌then◌else◌, nat_beq,
}
use theokit_plugins.Payments.Race.{dispatching, succeeded, duplicate, failed, run_schedule, at_rest}
use theokit_plugins.Payments.Race.Exclusion.{run_schedule-single, run_schedule-final}

abbrev events : ℕ → String
events i = if nat_beq i 2 then "evt_b" else "evt_a"

-- The two deliveries start together; the first claims and its handlers return.
abbrev together : List (ℕ × Bool)
together = (0, true) ∷ (1, true) ∷ (2, true) ∷ (0, true) ∷ (1, true) ∷ (0, true) ∷ (0, true) ∷ []

together_phases :
    ((run_schedule events together at_rest).phase 0 ≡ succeeded)
    × ((run_schedule events together at_rest).phase 1 ≡ duplicate)
unfolding run_schedule
together_phases = (refl, refl)

-- The first fails and releases; the second, which comes later, runs the handlers.
abbrev retried : List (ℕ × Bool)
retried =
    (0, true)
    ∷ (0, true)
    ∷ (0, true)
    ∷ (0, false)
    ∷ (0, true)
    ∷ (1, true)
    ∷ (1, true)
    ∷ (1, true)
    ∷ []

retried_phases :
    ((run_schedule events retried at_rest).phase 0 ≡ failed)
    × ((run_schedule events retried at_rest).phase 1 ≡ dispatching)
unfolding run_schedule
retried_phases = (refl, refl)

run_schedule-single_example : ◌≡◌ {A = ℕ} 1 1
unfolding run_schedule
run_schedule-single_example = run_schedule-single events retried 1 1 refl refl refl

run_schedule-final_example :
    (run_schedule events ((1, true) ∷ (1, true) ∷ []) (run_schedule events together at_rest)).phase
      1
    ≢ dispatching
unfolding run_schedule
run_schedule-final_example =
    run_schedule-final events together ((1, true) ∷ (1, true) ∷ []) 0 1 (omega arith) refl refl
