-- ===== src/Motion/Speed.antt =====
-- vaaet-core/src/vaaet/vision/speed.py: `estimate_speed` with its correction of perspective. Numpy's
-- norm and sum are parameters, as are `hypot` and `statistics.median` of the calibration.
use vaaet.Prelude.{
  ltb, leb, if◌then◌else◌, length, drop, is_empty, Result, ok, err, ◌>>=◌, ◌==◌, ℕ, ◌-◌, min, max,
  String, Bool, not, ◌&&◌, ◌||◌, Option, none, some, List, [], ◌∷◌, map, nat_key, string_key,
}
use vaaet.Float.{FloatOps, NumPy, ◌<=◌}
use vaaet.Motion.{MotionStats, max_of, non_zero}
use vaaet.ViewPlan.{PlanError, zero_division, CameraCalibration}
use vaaet.ViewPlan.Calibration.{Point, CalibrationReference, distance_meters}

pub record Geometry (F : Type 0) : Type 0 where
  pub np : NumPy F
  pub norm : F → F → F
  pub np_sum : List F → F
  pub np_std : List F → F
  pub hypot : F → F → F
  pub median : List F → F

-- The arguments of `estimate_speed` that have a default.
pub record SpeedSettings (F : Type 0) : Type 0 where
  pub pixels_per_meter : F
  pub min_track_length : ℕ
  pub window_frames : ℕ
  pub noise_floor : F

abbrev pub MaybeCalibration : Type 0 → Type 0
MaybeCalibration F = Option (CameraCalibration (CalibrationReference F))

module _ {F : Type 0} ⦃f : FloatOps F⦄ where
  -- PIXELS_PER_METER and its neighbours of settings.py
  unfoldable pub default_settings : SpeedSettings F
  default_settings = record {
    pixels_per_meter = f.literal 120000;
    min_track_length = 8;
    window_frames = 30;
    noise_floor = f.literal 20000;
  }

  -- `_lerp`
  unfoldable pub lerp : F → F → F → F
  lerp start end alpha = f.add start (f.mul (f.sub end start) alpha)

  -- `np.clip(x, 0.0, 1.0)`
  unfoldable pub clip : F → F
  clip x = if f.lt x (f.of_nat 0) then f.of_nat 0 else if f.lt (f.of_nat 1) x then f.of_nat 1 else x

  abbrev pub or_default : Option F → F → F
  or_default none x = x
  or_default (some y) x = y

  -- The branches behind the ratio, for the thresholds and the band of settings.py.
  unfoldable pub blend_factor : F → F → F → F → F → F → F → F
  blend_factor near mid far ratio near_threshold mid_threshold band =
      if band <= f.of_nat 0
      then (if f.lt near_threshold ratio
          then near
          else if f.lt mid_threshold ratio
          then mid
          else far)
      else if f.add near_threshold band <= ratio
      then near
      else if ratio <= f.sub mid_threshold band
      then far
      else if f.sub near_threshold band <= ratio && ratio <= f.add near_threshold band
      then lerp mid near
          (clip (f.div (f.sub ratio (f.sub near_threshold band)) (f.mul (f.of_nat 2) band)))
      else if f.sub mid_threshold band <= ratio && ratio <= f.add mid_threshold band
      then lerp far mid
          (clip (f.div (f.sub ratio (f.sub mid_threshold band)) (f.mul (f.of_nat 2) band)))
      else if f.lt mid_threshold ratio
      then mid
      else far

  unfoldable pub get_perspective_factor : F → ℕ → Option F → Option F → Option F → F
  get_perspective_factor y frame_height near_factor mid_factor far_factor =
      blend_factor (or_default near_factor (f.literal 18000))
        (or_default mid_factor (f.literal 10000)) (or_default far_factor (f.literal 6000))
        (f.div y (f.of_nat (max frame_height 1))) (f.literal 6600) (f.literal 3300)
        (max_of (f.literal 500) (f.of_nat 0))

  -- `compensate_camera_motion`, which `estimate_speed` writes out.
  unfoldable pub compensate : Point F → Point F → Point F
  compensate global_motion d = (f.sub d.0 global_motion.0, f.sub d.1 global_motion.1)

  -- `np.diff(positions, axis=0)`
  unfoldable pub diff : List (Point F) → List (Point F)
  diff [] = []
  diff (p ∷ []) = []
  diff (p ∷ q ∷ ps) = let rest = diff (q ∷ ps) in (f.sub q.0 p.0, f.sub q.1 p.1) ∷ rest

  unfoldable pub displacements_of : Option (Point F) → List (Point F) → List (Point F)
  displacements_of none positions = diff positions
  displacements_of (some global_motion) positions = map (compensate global_motion) (diff positions)

  -- `list(history)[-n:]`
  unfoldable pub last_entries : ℕ → List (Point F) → List (Point F)
  last_entries n xs = if n == 0 then xs else drop (length xs - n) xs

  abbrev pub norms_of : Geometry F → List (Point F) → List F
  norms_of g ds = map (λ (d : Point F). g.norm d.0 d.1) ds

  -- `_recent_displacement_norms`, over its eight newest positions.
  unfoldable pub recent_displacement_norms : Geometry F → List (Point F) → List F
  recent_displacement_norms g history =
      if ltb (length history) 2 then [] else norms_of g (diff (last_entries 8 history))

  unfoldable pub motion_stats : Geometry F → List (Point F) → MotionStats F
  motion_stats g history =
      let frame_disps = norms_of g (diff history) in
      if ltb (length history) 2 || is_empty frame_disps
      then record {
        total_disp = f.of_nat 0;
        max_segment = f.of_nat 0;
        std_disp = f.of_nat 0;
        avg_frame = f.of_nat 0;
        max_frame = f.of_nat 0;
      }
      else record {
        total_disp = g.np_sum frame_disps;
        max_segment = g.np.maximum frame_disps;
        std_disp = g.np_std frame_disps;
        avg_frame = g.np.mean frame_disps;
        max_frame = g.np.maximum frame_disps;
      }

  unfoldable pub quiet : F → List F → List F
  quiet noise_floor norms = map (λ x. if f.lt x noise_floor then f.of_nat 0 else x) norms

  -- `np.minimum(norms, limit)`
  unfoldable pub cap : F → List F → List F
  cap limit norms = map (λ x. if f.lt limit x then limit else x) norms

  unfoldable pub robust_norms : NumPy F → F → List F → List F
  robust_norms np noise_floor raw_norms =
      let norms = quiet noise_floor raw_norms in
      let med = if is_empty (non_zero norms) then f.of_nat 0 else np.median (non_zero norms) in
      if leb 3 (length norms) && f.lt (f.of_nat 0) med
      then cap (f.mul (f.of_nat 3) med) norms
      else norms

  unfoldable pub scale_factor : F → F → F
  scale_factor norm raw = if f.lt (f.of_nat 0) raw then f.div norm raw else f.of_nat 0

  -- `displacements * scale_factors[:, np.newaxis]`
  unfoldable pub rescale : List (Point F) → List F → List F → List (Point F)
  rescale (d ∷ ds) (n ∷ ns) (r ∷ rs) =
      (f.mul d.0 (scale_factor n r), f.mul d.1 (scale_factor n r)) ∷ rescale ds ns rs
  rescale _ _ _ = []

  -- SPEED_LIMITS_PER_TYPE and SPEED_RANGE of settings.py
  unfoldable pub speed_limits : Option String → F × F
  speed_limits none = (f.literal 20000, f.literal 1200000)
  speed_limits (some kind) =
      if kind == "car"
      then (f.literal 20000, f.literal 1200000)
      else if kind == "truck"
      then (f.literal 20000, f.literal 900000)
      else if kind == "bus"
      then (f.literal 20000, f.literal 800000)
      else if kind == "motorcycle"
      then (f.literal 20000, f.literal 1300000)
      else if kind == "bicycle"
      then (f.literal 20000, f.literal 400000)
      else (f.literal 20000, f.literal 1200000)

  -- A division by a float of Python raises for both zeros.
  abbrev pub is_zero : F → Bool
  is_zero x = x <= f.of_nat 0 && f.of_nat 0 <= x

  unfoldable pub distance_of :
      Geometry F
      → SpeedSettings F
      → ℕ
      → MaybeCalibration F
      → List (Point F)
      → List (Point F)
      → Result PlanError F
  distance_of g settings frame_height calibration positions displacements =
      let raw_norms = norms_of g displacements in
      let norms = robust_norms g.np settings.noise_floor raw_norms in
      elim calibration [
        | none ↦
            let avg_y = g.np.mean (map (λ (p : Point F). p.1) positions) in
            let factor = get_perspective_factor avg_y frame_height none none none in
            if is_zero settings.pixels_per_meter
            then err zero_division
            else ok (f.div (f.mul (g.np_sum norms) factor) settings.pixels_per_meter)
        | some c ↦
            distance_meters g.hypot g.median c positions (rescale displacements norms raw_norms)
      ]

  -- The end of `estimate_speed`, from a distance over a number of frames.
  unfoldable pub accept_speed : F → Option String → ℕ → F → Option F
  accept_speed fps vehicle_type n_frames distance_m =
      let time_s = f.div (f.of_nat n_frames) (max_of fps (f.of_nat 1)) in
      let speed_kmh = f.mul (f.div distance_m time_s) (f.literal 36000) in
      let limits = speed_limits vehicle_type in
      if time_s <= f.of_nat 0
      then none
      else if not (limits.0 <= speed_kmh && speed_kmh <= limits.1)
      then none
      else some (f.round 2 speed_kmh)

  unfoldable pub estimate_speed :
      Geometry F
      → SpeedSettings F
      → (history : List (Point F)) (fps : F) (frame_height : ℕ) → (global_motion : Option (Point F))
      → (vehicle_type : Option String) → MaybeCalibration F
      → Result PlanError (Option F)
  estimate_speed g settings history fps frame_height global_motion vehicle_type calibration =
      let window = min settings.window_frames (length history) in
      let positions = last_entries window history in
      let displacements = displacements_of global_motion positions in
      if ltb (length history) (max 2 settings.min_track_length)
      then ok none
      else (distance_of g settings frame_height calibration positions displacements
          >>= λ distance_m. ok (accept_speed fps vehicle_type (length positions - 1) distance_m))
