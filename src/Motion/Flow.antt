-- ===== src/Motion/Flow.antt =====
-- vaaet-core/src/vaaet/vision/optical_flow.py: `OpticalFlowEstimator`. What OpenCV computes of two grey
-- images is a parameter; a grid step is positive.
use vaaet.Prelude.{
  leb, if◌then◌else◌, length, select, ◌==◌, ℕ, zero, suc, ◌+◌, ◌-◌, ◌/◌, max, Bool, ◌||◌, Option,
  none, some, List, [], ◌∷◌, ◌++◌, map, nat_key, string_key,
}
use vaaet.Float.{FloatOps, NumPy}
use vaaet.Motion.Smoothing.{append_bounded}
use vaaet.ViewPlan.Calibration.{Point}

-- OpenCV, for frames `Frame` and grey images `Gray`. Lucas-Kanade gives the new points and whether
-- each was followed, or nothing.
pub record OpenCv (Frame Gray F : Type 0) : Type 0 where
  pub to_gray : Frame → Gray
  -- the height and the width
  pub shape : Gray → ℕ × ℕ
  pub lucas_kanade : Gray → Gray → List (ℕ × ℕ) → Option (List (Point F) × List Bool)

pub record FlowSettings (F : Type 0) : Type 0 where
  pub grid_step : ℕ
  pub border_margin : ℕ
  pub running_mean_window : ℕ
  pub min_tracking_ratio : F

pub record OpticalFlow (Gray F : Type 0) : Type 0 where
  pub prev_gray : Option Gray
  pub motion_history : List (Point F)
  pub last_tracking_ratio : F
  pub last_good_points : ℕ
  pub last_total_points : ℕ

-- `np.arange(start, start + …, step)`, for a number of values.
unfoldable pub count_up : ℕ → ℕ → ℕ → List ℕ
count_up zero start step = []
count_up (suc n) start step = start ∷ count_up n (start + step) step

unfoldable pub arange : ℕ → ℕ → ℕ → List ℕ
arange start stop step = count_up ((stop - start + step - 1) / step) start step

unfoldable pub column : ℕ → List ℕ → List (ℕ × ℕ)
column x ys = map (λ y. (x, y)) ys

unfoldable pub grid : List ℕ → List ℕ → List (ℕ × ℕ)
grid [] ys = []
grid (x ∷ xs) ys = column x ys ++ grid xs ys

-- `_build_grid_points`
unfoldable pub build_grid_points : {F : Type 0} → FlowSettings F → ℕ → ℕ → List (ℕ × ℕ)
build_grid_points settings h w =
    let m = settings.border_margin in
    let step = settings.grid_step in
    if leb (w - m) m || leb (h - m) m
    then grid (arange 0 w step) (arange 0 h step)
    else grid (arange m (w - m) step) (arange m (h - m) step)

module _ {F : Type 0} ⦃f : FloatOps F⦄ where
  abbrev pub no_motion : Point F
  no_motion = (f.of_nat 0, f.of_nat 0)

  -- The displacements of the points that were followed.
  unfoldable pub good_displacements : List (ℕ × ℕ) → List (Point F) → List Bool → List (Point F)
  good_displacements (p ∷ ps) (q ∷ qs) (good ∷ status) =
      let rest = good_displacements ps qs status in
      if good then (f.sub q.0 (f.of_nat p.0), f.sub q.1 (f.of_nat p.1)) ∷ rest else rest
  good_displacements _ _ _ = []

  -- The median, or the mean, of each coordinate.
  abbrev pub of_axes : (List F → F) → List (Point F) → Point F
  of_axes summary ps =
      (summary (map (λ (p : Point F). p.0) ps), summary (map (λ (p : Point F). p.1) ps))

module _ {Gray F : Type 0} where
  unfoldable pub mark_points : ℕ → ℕ → F → OpticalFlow Gray F → OpticalFlow Gray F
  mark_points good total ratio s = record s {
    last_tracking_ratio = ratio;
    last_good_points = good;
    last_total_points = total;
  }

module _ {Gray F : Type 0} ⦃f : FloatOps F⦄ where
  unfoldable pub reset : OpticalFlow Gray F → OpticalFlow Gray F
  reset s = record {
    prev_gray = none;
    motion_history = [];
    last_tracking_ratio = f.of_nat 0;
    last_good_points = 0;
    last_total_points = 0;
  }

module _ {Frame Gray F : Type 0} ⦃f : FloatOps F⦄ where
  unfoldable pub compute_raw_motion :
      OpenCv Frame Gray F
      → NumPy F
      → FlowSettings F
      → Gray
      → Gray
      → OpticalFlow Gray F
      → OpticalFlow Gray F × Point F
  compute_raw_motion cv np settings prev gray s =
      let pts = build_grid_points settings (cv.shape gray).0 (cv.shape gray).1 in
      elim (cv.lucas_kanade prev gray pts) [
        | none ↦ (mark_points 0 (length pts) (f.of_nat 0) s, no_motion)
        | some (new_pts, status) ↦
            let good = length (select (λ b. b) status) in
            let ratio = f.div (f.of_nat good) (f.of_nat (max (length pts) 1)) in
            let after = mark_points good (length pts) ratio s in
            if good == 0
            then (after, no_motion)
            else if f.lt ratio settings.min_tracking_ratio
            then (after, no_motion)
            else (after, of_axes np.median (good_displacements pts new_pts status))
      ]

  unfoldable pub update :
      OpenCv Frame Gray F
      → NumPy F
      → FlowSettings F
      → Frame
      → OpticalFlow Gray F
      → OpticalFlow Gray F × Point F
  unfolding append_bounded
  update cv np settings frame s =
      let gray = cv.to_gray frame in
      elim s.prev_gray [
        | none ↦ (
          record s {
            prev_gray = some gray;
            last_tracking_ratio = f.of_nat 0;
            last_good_points = 0;
            last_total_points = 0;
          },
          no_motion,
        )
        | some prev ↦
            let (after, raw_motion) = compute_raw_motion cv np settings prev gray s in
            let moved : OpticalFlow Gray F = record after {
              motion_history =
                  append_bounded settings.running_mean_window after.motion_history raw_motion;
              prev_gray = some gray;
            } in
            (moved, of_axes np.mean moved.motion_history)
      ]
