-- ===== src/Motion/Examples.antt =====
-- The motion trackers at concrete calls.
use vaaet.Prelude.{
  leb, length, sum, ℕ, ◌+◌, ◌/◌, ◌≤◌, String, ◌≡◌, refl, true, none, some, List, [], ◌∷◌,
}
use vaaet.Float.{FloatOps, NumPy, ten_thousandths}
use vaaet.Motion.Limits.{estimate_speed-limits}
use vaaet.Motion.Speed as Speed
use vaaet.Motion.Speed.{Geometry}
use vaaet.ViewPlan.{CameraCalibration}
use vaaet.ViewPlan.Calibration as Calibration
use vaaet.ViewPlan.Calibration.{CalibrationReference}
use vaaet.Motion.Smoothing as Smoothing
use vaaet.Motion.Smoothing.{run-newest}
use vaaet.Motion.Stationary as Stationary
use vaaet.Motion.Stationary.{run-IsTracked, IsTracked, still, moving, silent}

instance abbrev floats : FloatOps ℕ
floats = ten_thousandths

abbrev whole : NumPy ℕ
whole = record {
  median = λ xs. sum xs / length xs;
  mean = λ xs. sum xs / length xs;
  sort = λ xs. xs;
  maximum = sum;
}

-- Newest first: a gap in track 1, then three measurements of it, with one of track 2 between.
abbrev measured : List (Smoothing.Call ℕ)
measured =
    Smoothing.measure 1 (some 40) none
    ∷ Smoothing.measure 2 (some 90) none
    ∷ Smoothing.measure 1 (some 30) none
    ∷ Smoothing.measure 1 (some 20) none
    ∷ Smoothing.measure 1 none none
    ∷ Smoothing.measure 1 (some 10) none
    ∷ []

run-newest_example : Smoothing.deque_of (Smoothing.run whole 2 measured) 1 ≡ 30 ∷ 40 ∷ []
unfolding Smoothing.since_gap Smoothing.newest
run-newest_example = run-newest whole 2 measured 1

-- Two still observations confirm rest; one vote for motion of the two that are needed keeps it.
abbrev watched : List Stationary.Call
watched =
    Stationary.observe 5 moving
    ∷ Stationary.observe 6 still
    ∷ Stationary.observe 5 silent
    ∷ Stationary.observe 5 still
    ∷ Stationary.observe 5 still
    ∷ []

run-IsTracked_example :
    IsTracked 2 2 (Stationary.run 2 2 watched) 5 (moving ∷ silent ∷ still ∷ still ∷ [])
unfolding Stationary.votes_on
run-IsTracked_example = run-IsTracked 2 2 watched 5

keeps_rest : Stationary.at_rest 2 2 (moving ∷ silent ∷ still ∷ still ∷ []) ≡ true
unfolding Stationary.at_rest Stationary.still_run Stationary.moves_since
keeps_rest = refl

abbrev lengths : Geometry ℕ
lengths = record {
  np = whole;
  norm = λ x y. x + y;
  np_sum = sum;
  np_std = λ _. 0;
  hypot = λ x y. x + y;
  median = sum;
}

-- A car that moves ten pixels a frame.
abbrev history : List (ℕ × ℕ)
history =
    (100000, 5000000)
    ∷ (200000, 5000000)
    ∷ (300000, 5000000)
    ∷ (400000, 5000000)
    ∷ (500000, 5000000)
    ∷ (600000, 5000000)
    ∷ (700000, 5000000)
    ∷ (800000, 5000000)
    ∷ []

estimate_speed-limits_example :
    (2 ≤ 8)
    × (8 ≤ 8)
    × (kmh : ℕ) × (900122 ≡ kmh)
    × (leb 20000 kmh ≡ true)
    × (leb kmh 1200000 ≡ true)
unfolding Speed.default_settings Speed.speed_limits Speed.estimate_speed Speed.last_entries
    Speed.displacements_of Speed.diff Speed.distance_of Speed.robust_norms Speed.quiet Speed.cap
    Speed.get_perspective_factor Speed.blend_factor Speed.lerp Speed.clip Speed.accept_speed
estimate_speed-limits_example =
    estimate_speed-limits lengths Speed.default_settings history 300000 1080 none (some "car") none
      900122 refl

abbrev reference : ℕ → String → CalibrationReference ℕ
reference y id = record {
  reference_id = id;
  pixel_start = (1000000, y);
  pixel_end = (1600000, y);
  meters = 100000;
}

abbrev camera : CameraCalibration (CalibrationReference ℕ)
camera = record {
  profile_id = "near";
  revision = "2";
  width = 1920;
  height = 1080;
  references = reference 3000000 "far" ∷ reference 9000000 "near" ∷ [];
}
