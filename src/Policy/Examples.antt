-- ===== src/Policy/Examples.antt =====
-- Runs of the model of vaaet-core/src/vaaet/inference/policy.py at concrete readings.
use vaaet.Prelude.{
  ℕ, zero, suc, ◌≤◌, ◌<◌, String, ◌≡◌, refl, Bool, true, false, Option, none, some, List, [], ◌∷◌,
  ◌++◌, arith, some-ne_of_beq, nat_key, string_key,
}
use vaaet.Float.{FloatOps, ten_thousandths}
use vaaet.Policy.Stable
use vaaet.Policy.Stable.{Report, Reading, Settings, Persistence, stabilize_codes}
use vaaet.Policy.Stable.Adjacency.{HasThresholds, IsStepwise, stabilize_codes-IsStepwise}
use vaaet.Policy.Stable.Hysteresis.{
  machine_after, streak, follow, change_needs_streak, change_on_time,
}
use vaaet.Policy.Stable.Isolation.{both, stabilize_codes-append}
use vaaet.Policy.Incident
use vaaet.Policy.Incident.{Row, incident_activity, accident_gate, is_persistent}
use vaaet.Policy.Incident.Gate.{
  IsGated, accident_gate-IsPublication, persistent_needs_two, expected_marks,
  incident_activity-expected,
}
use vaaet.Policy.Incident.Memory.{Minute, is_open, active-is_open}

instance abbrev scaled : FloatOps ℕ
scaled = ten_thousandths

-- WORSENING_PERSISTENCE_MINUTES and RECOVERY_PERSISTENCE_MINUTES of settings.py
abbrev minutes : Persistence
minutes = record { worsening = 2; recovery = 3 }

abbrev defaults : ℕ → Option ℕ
defaults zero = some 6000
defaults (suc zero) = some 6000
defaults (suc (suc zero)) = some 7000
defaults _ = none

abbrev settings : Settings ℕ
settings = record { thresholds = defaults; minimum_margin = 1000; persistence = minutes }

abbrev reading : String → ℕ → Reading ℕ
reading key code = record { key = key; raw_code = code; confidence = 8000; margin = 5000 }

abbrev jam : List (Reading ℕ)
jam = reading "a" 0 ∷ reading "a" 2 ∷ reading "a" 2 ∷ reading "b" 2 ∷ []

defaults-HasThresholds : HasThresholds settings
defaults-HasThresholds zero h = (6000, refl)
defaults-HasThresholds (suc zero) h = (6000, refl)
defaults-HasThresholds (suc (suc zero)) h = (7000, refl)
defaults-HasThresholds (suc (suc (suc n))) h = absurd (omega arith)

abbrev report : ℕ → Bool → Report
report code abstained = record { code = code; abstained = abstained }

-- Two readings of Congested move one step, and a new segment starts at Reduced.
stabilize-jam :
    stabilize_codes settings jam
    ≡ some (report 0 false ∷ report 0 true ∷ report 1 false ∷ report 1 true ∷ [])
unfolding stabilize_codes Stable.stabilize_from Stable.advance Stable.transition Stable.settle
    Stable.register_pending Stable.adjacent_target Stable.entered
stabilize-jam = refl

stabilize_codes-IsStepwise_example :
    (out : List Report) × (stabilize_codes settings jam ≡ some out) × IsStepwise none none jam out
stabilize_codes-IsStepwise_example =
    stabilize_codes-IsStepwise settings defaults-HasThresholds jam (omega arith)

stabilize_codes-append_example :
    stabilize_codes settings ((reading "a" 0 ∷ []) ++ reading "b" 2 ∷ [])
    ≡ both
        (stabilize_codes settings (reading "a" 0 ∷ []))
        (stabilize_codes settings (reading "b" 2 ∷ []))
stabilize_codes-append_example =
    stabilize_codes-append settings (reading "a" 0 ∷ []) (reading "b" 2) []
      (some-ne_of_beq "a" "b" refl)

-- The definitions that the machines' runs compute with.
program : Unit {0}
unfolding machine_after streak follow Stable.transition Stable.settle Stable.register_pending
    Stable.adjacent_target Incident.group Incident.count_strong is_persistent Incident.is_strong
    Incident.is_quality_reliable
program = tt

change_needs_streak_example :
    (2 ≤ streak 0 1 ((true, 2) ∷ (true, 1) ∷ (true, 0) ∷ []))
    × (1 ≤ streak 0 1 ((true, 2) ∷ (true, 1) ∷ (true, 0) ∷ []))
unfolding program
change_needs_streak_example =
    change_needs_streak minutes (true, 2) ((true, 1) ∷ (true, 0) ∷ []) 0 1 refl refl (omega arith)

abbrev calm : Stable.Machine
calm = record { stable = some 2; pending = none; pending_count = 0 }

change_on_time_example :
    ((follow minutes (0 ∷ 1 ∷ []) calm).stable ≡ some 2)
    × (follow minutes ((0 ∷ 1 ∷ []) ++ 0 ∷ []) calm
        ≡ record { stable = some 1; pending = none; pending_count = 0 })
unfolding program
change_on_time_example =
    change_on_time minutes 2 1 (omega arith) calm (0 ∷ 1 ∷ []) 0 refl (λ e. cc)
      (refl, (refl, (refl, tt))) refl

abbrev row : String → ℕ → Row ℕ
row key evidence = record {
  key = key;
  predicted_state = 1;
  state_label = "Reduced";
  confidence = some 6000;
  total_vehicles = some 30000;
  optical_flow = some 9000;
  evidence_score = evidence;
  recent_braking = true;
  cumulative_braking = false;
  motion_evidence = true;
  quality_ok = true;
}

abbrev crash : List (Row ℕ)
crash = row "a" 8000 ∷ row "a" 9000 ∷ row "a" 1000 ∷ []

accident_gate-IsPublication_example :
    IsGated crash (expected_marks none [] [] crash) (accident_gate crash)
accident_gate-IsPublication_example = accident_gate-IsPublication crash

incident_activity-expected_example :
    incident_activity none Incident.reset [] crash ≡ expected_marks none [] [] crash
incident_activity-expected_example = incident_activity-expected crash

active-is_open_example :
    ((Incident.Memory.machine_after (record { persistent = true; strong = true } ∷ [])).active
      ≡ is_open (record { persistent = true; strong = true } ∷ []))
    × ((Incident.Memory.machine_after (record { persistent = true; strong = true } ∷ [])).weak_count
        < Incident.recovery_minutes)
active-is_open_example = active-is_open (record { persistent = true; strong = true } ∷ [])

persistent_needs_two_example :
    (◌≡◌ {A = Bool} true true)
    × ((rest : List Bool) × (Incident.group "a" (("a", true) ∷ []) ≡ true ∷ rest))
unfolding program
persistent_needs_two_example = persistent_needs_two "a" true (("a", true) ∷ []) refl
