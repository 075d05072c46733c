-- ===== src/Motion/Limits.antt =====
-- The speeds that `estimate_speed` of vaaet-core/src/vaaet/vision/speed.py gives, and when it gives one.
use vaaet.Prelude.{
  ltb, Bool-cases, length, drop, All, ok, ℕ, zero, suc, ◌-◌, ◌≤◌, min, max, String, ◌≡◌, refl, ap,
  inl, inr, true, false, Option, none, some, List, [], ◌∷◌, map, arith, bind-eq-ok, nat_key,
  string_key,
}
use vaaet.Float.{FloatOps, ◌<=◌}
use vaaet.Motion.{max_of}
use vaaet.ViewPlan.Calibration.{Point, camera_calibration}
use vaaet.ViewPlan.Scale.{InRange}
use vaaet.Motion.Speed.{
  Geometry, SpeedSettings, displacements_of, last_entries, speed_limits, MaybeCalibration, is_zero,
  distance_of, accept_speed, estimate_speed,
}

pub All-drop {ℓ} :
    {A : Type 0} (P : A → Type ℓ) (n : ℕ) (xs : List A) → All P xs → All P (drop n xs)
All-drop P zero xs h = h
All-drop P (suc n) [] h = tt
All-drop P (suc n) (x ∷ xs) h = All-drop P n xs h.1

pub length-map : {A B : Type 0} (g : A → B) (xs : List A) → length (map g xs) ≡ length xs
length-map g [] = refl
length-map g (x ∷ xs) = ap suc (length-map g xs)

module _ {F : Type 0} ⦃f : FloatOps F⦄ where
  -- A calibration that is given was accepted, and its depths are comparable with the points; without
  -- one the pixels per metre are not zero.
  abbrev pub IsUsable : Geometry F → SpeedSettings F → MaybeCalibration F → List (Point F) → Type 0
  IsUsable g settings none points = is_zero settings.pixels_per_meter ≡ false
  IsUsable g settings (some c) points =
      (camera_calibration c ≡ ok tt) × All (InRange g.hypot g.median c) points

  accept_speed-limits :
      (fps : F) (vehicle_type : Option String) (n_frames : ℕ) (distance_m v : F)
      → accept_speed fps vehicle_type n_frames distance_m ≡ some v
      → (kmh : F) × (v ≡ f.round 2 kmh)
        × ((speed_limits vehicle_type).0 <= kmh ≡ true)
        × (kmh <= (speed_limits vehicle_type).1 ≡ true)
  unfolding accept_speed
  accept_speed-limits fps vehicle_type n_frames distance_m v h = (
    f.mul (f.div distance_m (f.div (f.of_nat n_frames) (max_of fps (f.of_nat 1))))
        (f.literal 36000),
    ground arith,
    ground arith,
    ground arith,
  )

  -- A speed that is given is the rounding of one within the limits of the vehicle's type, from a
  -- history of two points at least and no fewer than the minimum length.
  pub estimate_speed-limits :
      (g : Geometry F) (settings : SpeedSettings F) (history : List (Point F)) (fps : F)
      (frame_height : ℕ) (global_motion : Option (Point F)) (vehicle_type : Option String)
      (calibration : MaybeCalibration F) (v : F)
      → estimate_speed g settings history fps frame_height global_motion vehicle_type calibration
        ≡ ok (some v)
      → (2 ≤ length history)
        × (settings.min_track_length ≤ length history)
        × (kmh : F) × (v ≡ f.round 2 kmh)
        × ((speed_limits vehicle_type).0 <= kmh ≡ true)
        × (kmh <= (speed_limits vehicle_type).1 ≡ true)
  unfolding estimate_speed
  estimate_speed-limits g settings history fps frame_height global_motion vehicle_type calibration v
        h =
      elim (Bool-cases (ltb (length history) (max 2 settings.min_track_length))) [
        | inl short ↦ absurd (ground arith)
        | inr enough ↦
            let positions = last_entries (min settings.window_frames (length history)) history in
            let (d, found, result) =
              bind-eq-ok
                (distance_of g settings frame_height calibration positions
                  (displacements_of global_motion positions))
                (λ d. ok (accept_speed fps vehicle_type (length positions - 1) d))
                (rw enough at h) in
            let accepted : accept_speed fps vehicle_type (length positions - 1) d ≡ some v = cc in
            let (kmh, rounded, low, high) =
              accept_speed-limits fps vehicle_type (length positions - 1) d v accepted in
            (ground arith, ground arith, kmh, rounded, low, high)
      ]
