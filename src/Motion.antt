-- ===== src/Motion.antt =====
-- vaaet-core/src/vaaet/vision/speed.py: the decisions and the state that it keeps for each track.
-- Norms of displacements are given by numpy, as lists.
pub mod Stationary
pub mod Smoothing
pub mod Speed
pub mod Limits
pub mod Flow
mod Examples
use vaaet.Prelude.{
  ltb, leb, if◌then◌else◌, length, drop, is_empty, select, ℕ, ◌+◌, ◌-◌, ◌*◌, Bool, true, false, not,
  ◌&&◌, Option, none, some, List, [], ◌∷◌, map, take,
}
use vaaet.Float.{FloatOps, NumPy, ◌<=◌}

-- The summary that `_motion_stats` returns of a history.
pub record MotionStats (F : Type 0) : Type 0 where
  pub total_disp : F
  pub max_segment : F
  pub std_disp : F
  pub avg_frame : F
  pub max_frame : F

module _ {F : Type 0} ⦃f : FloatOps F⦄ where
  -- NEAR_ZERO_TOTAL_DISP_MAX and its neighbours of settings.py
  unfoldable pub is_near_zero_motion : MotionStats F → Bool
  is_near_zero_motion s =
      f.lt s.total_disp (f.literal 120000)
      && f.lt s.max_segment (f.literal 60000)
      && f.lt s.std_disp (f.literal 40000)
      && f.lt s.avg_frame (f.literal 12000)
      && f.lt s.max_frame (f.literal 35000)

  -- STATIONARY_TOTAL_DISP_MAX and its neighbours of settings.py
  unfoldable pub is_stationary : MotionStats F → Bool
  is_stationary s =
      f.lt s.total_disp (f.literal 50000)
      && f.lt s.max_segment (f.literal 30000)
      && f.lt s.std_disp (f.literal 25000)
      && f.lt s.avg_frame (f.literal 3000)
      && f.lt s.max_frame (f.literal 15000)

  -- `max(a, b)` of Python: the second operand wins only if it is greater.
  abbrev pub max_of : F → F → F
  max_of a b = if f.lt a b then b else a

  abbrev pub non_zero : List F → List F
  non_zero norms = select (λ x. f.lt (f.of_nat 0) x) norms

  -- `is_speed_measurement_reliable`, for a history of a length and the norms of its recent steps.
  unfoldable pub is_speed_measurement_reliable :
      NumPy F
      → (history_length : ℕ) (norms : List F) (flow_tracking_ratio : F) (recovered_after_gap : ℕ)
        (min_flow_tracking_ratio : F) (recovery_skip_gap : ℕ)
      → Bool
  is_speed_measurement_reliable np history_length norms flow recovered min_flow skip_gap =
      if ltb history_length 8
      then false
      else if leb skip_gap recovered
      then false
      else if f.lt flow min_flow
      then false
      else if ltb (length norms) 3
      then true
      else if is_empty (non_zero norms)
      then true
      else let median_baseline = np.median (non_zero norms) in
        if median_baseline <= f.of_nat 0
        then true
        else np.maximum norms
          <= max_of (f.mul (f.literal 40000) median_baseline)
              (f.mul (f.literal 20000) (f.literal 30000))

  -- `robust_speed_summary`
  unfoldable pub within_sigma : F → F → F → F → Bool
  within_sigma sigma median mad x =
      f.abs (f.div (f.mul (f.literal 6745) (f.sub x median)) mad) <= sigma

  unfoldable pub reject_outliers : NumPy F → F → List F → List F
  reject_outliers np sigma arr =
      let median = np.median arr in
      let mad = np.median (map (λ x. f.abs (f.sub x median)) arr) in
      let filtered = select (within_sigma sigma median mad) arr in
      if f.lt (f.of_nat 0) mad && not (is_empty filtered) then filtered else arr

  -- `np.sort(arr)[n:-n]`
  unfoldable pub trim_ends : NumPy F → ℕ → List F → List F
  trim_ends np n arr = take (length arr - 2 * n) (drop n (np.sort arr))

  unfoldable pub trim : NumPy F → F → List F → List F
  trim np ratio arr =
      let n = f.trunc (f.mul (f.of_nat (length arr)) ratio) in
      if leb 4 (length arr)
        && f.lt (f.of_nat 0) ratio
        && f.lt ratio (f.literal 5000)
        && ltb 0 n
        && leb (1 + 2 * n) (length arr)
      then trim_ends np n arr
      else arr

  unfoldable pub robust_speed_summary : NumPy F → F → F → List F → F
  robust_speed_summary np ratio sigma speeds =
      let arr = select (λ x. f.of_nat 0 <= x) (select f.is_finite speeds) in
      elim arr [
        | [] ↦ f.of_nat 0
        | x ∷ [] ↦ f.round 2 x
        | x ∷ y ∷ rest ↦
            let trimmed = trim np ratio (reject_outliers np sigma (x ∷ y ∷ rest)) in
            if is_empty trimmed then f.of_nat 0 else f.round 2 (np.mean trimmed)
      ]

  -- SPEED_MLP_VALID_RANGE, SPEED_PHYSICS_WEIGHT and SPEED_MLP_WEIGHT of settings.py
  unfoldable pub fuse_speed : F → Option F → F
  fuse_speed physics none = physics
  fuse_speed physics (some mlp) =
      if f.literal 50000 <= mlp && mlp <= f.literal 1000000
      then f.round 2 (f.add (f.mul (f.literal 7000) physics) (f.mul (f.literal 3000) mlp))
      else physics
