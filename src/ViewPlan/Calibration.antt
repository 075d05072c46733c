-- ===== src/ViewPlan/Calibration.antt =====
-- vaaet-core/src/vaaet/vision/view_plan.py: `CalibrationReference` and `CameraCalibration`, the local
-- scale of a view by interpolation between its references. `hypot` is a parameter.
use vaaet.Prelude.{
  ltb, if◌then◌else◌, length, drop, any, Result, ok, err, ◌>>=◌, ◌>>◌, raise_if, ◌==◌, ℕ, ◌+◌,
  String, Bool, not, ◌&&◌, ◌||◌, List, [], ◌∷◌, ◌++◌, map, nat_key, string_key,
}
use vaaet.Float.{FloatOps, ◌<=◌}
use vaaet.ViewPlan.{
  PlanError, Check, CameraCalibration, has_repetition, invalid_reference, invalid_profile,
  outside_frame, no_local_scale, inconsistent_positions, no_entry,
}

abbrev pub Point : Type 0 → Type 0
Point F = F × F

pub record CalibrationReference (F : Type 0) : Type 0 where
  pub reference_id : String
  pub pixel_start : Point F
  pub pixel_end : Point F
  pub meters : F

-- An entry of `scales_by_depth`, and one of `scale_points`.
abbrev pub DepthScales : Type 0 → Type 0
DepthScales F = F × List F

module _ {F : Type 0} ⦃f : FloatOps F⦄ where
  abbrev pub is_finite_point : Point F → Bool
  is_finite_point p = f.is_finite p.0 && f.is_finite p.1

  abbrev pub depth_y : CalibrationReference F → F
  depth_y r = f.div (f.add r.pixel_start.1 r.pixel_end.1) (f.of_nat 2)

  -- `a == b` of two values that are not `nan`
  abbrev pub same_value : F → F → Bool
  same_value a b = a <= b && b <= a

  -- `_validate_reference_bounds`, for one point.
  unfoldable pub lies_inside : ℕ → ℕ → Point F → Bool
  lies_inside width height p =
      f.of_nat 0 <= p.0
      && f.lt p.0 (f.of_nat width)
      && f.of_nat 0 <= p.1
      && f.lt p.1 (f.of_nat height)

  unfoldable pub validate_reference_bounds :
      CameraCalibration (CalibrationReference F) → CalibrationReference F → Check
  validate_reference_bounds c r =
      raise_if (not (lies_inside c.width c.height r.pixel_start)) outside_frame
      >> raise_if (not (lies_inside c.width c.height r.pixel_end)) outside_frame

  unfoldable pub check_bounds :
      CameraCalibration (CalibrationReference F) → List (CalibrationReference F) → Check
  check_bounds c [] = ok tt
  check_bounds c (r ∷ rs) = let rest = check_bounds c rs in validate_reference_bounds c r >> rest

  -- `{reference.depth_y for reference in self.references}`
  unfoldable pub distinct_depths : List (CalibrationReference F) → List F
  distinct_depths [] = []
  distinct_depths (r ∷ rs) =
      let rest = distinct_depths rs in
      if any (same_value (depth_y r)) rest then rest else depth_y r ∷ rest

  abbrev pub reference_ids : List (CalibrationReference F) → List String
  reference_ids rs = map (λ (r : CalibrationReference F). r.reference_id) rs

  -- `CameraCalibration.__post_init__`
  unfoldable pub camera_calibration : CameraCalibration (CalibrationReference F) → Check
  camera_calibration c =
      raise_if (c.profile_id == "" || c.revision == "") invalid_profile
      >> raise_if (ltb c.width 1 || ltb c.height 1) invalid_profile
      >> raise_if (ltb (length c.references) 2) invalid_profile
      >> raise_if (has_repetition (reference_ids c.references)) invalid_profile
      >> check_bounds c c.references
      >> raise_if (ltb (length (distinct_depths c.references)) 2) invalid_profile

  -- `scales_by_depth.setdefault(depth, []).append(scale)`
  unfoldable pub add_scale : F → F → List (DepthScales F) → List (DepthScales F)
  add_scale depth scale [] = (depth, scale ∷ []) ∷ []
  add_scale depth scale ((d, scales) ∷ entries) =
      let rest = add_scale depth scale entries in
      if same_value d depth then (d, scales ++ scale ∷ []) ∷ entries else (d, scales) ∷ rest

  -- `sorted`, by the first component: the depths of a dictionary are distinct.
  unfoldable pub insert_point : Point F → List (Point F) → List (Point F)
  insert_point p [] = p ∷ []
  insert_point p (q ∷ qs) =
      let rest = insert_point p qs in if f.lt p.0 q.0 then p ∷ q ∷ qs else q ∷ rest

  unfoldable pub sort_points : List (Point F) → List (Point F)
  sort_points [] = []
  sort_points (p ∷ ps) = insert_point p (sort_points ps)

  unfoldable pub last_of : Point F → List (Point F) → Point F
  last_of p [] = p
  last_of p (q ∷ qs) = last_of q qs

  abbrev pub scale_between : F → Point F → Point F → F
  scale_between y p q = f.add p.1 (f.mul (f.sub q.1 p.1) (f.div (f.sub y p.0) (f.sub q.0 p.0)))

  -- The loop over neighbouring scale points.
  unfoldable pub interpolate : F → List (Point F) → Result PlanError F
  interpolate y [] = err no_local_scale
  interpolate y (p ∷ []) = err no_local_scale
  interpolate y (p ∷ q ∷ points) =
      let rest = interpolate y (q ∷ points) in
      if p.0 <= y && y <= q.0 then ok (scale_between y p q) else rest

  unfoldable pub scale_at : F → List (Point F) → Result PlanError F
  scale_at y [] = err no_entry
  scale_at y (p ∷ points) =
      if y <= p.0
      then ok p.1
      else if (last_of p points).0 <= y
      then ok (last_of p points).1
      else interpolate y (p ∷ points)

module _ {F : Type 0} ⦃f : FloatOps F⦄ (hypot : F → F → F) (median : List F → F) where
  unfoldable pub pixel_length : CalibrationReference F → F
  pixel_length r = hypot (f.sub r.pixel_end.0 r.pixel_start.0) (f.sub r.pixel_end.1 r.pixel_start.1)

  -- `CalibrationReference.__post_init__`
  unfoldable pub calibration_reference : CalibrationReference F → Check
  calibration_reference r =
      raise_if (r.reference_id == "") invalid_reference
      >> raise_if (not (f.is_finite r.meters) || r.meters <= f.of_nat 0) invalid_reference
      >> raise_if (not (is_finite_point r.pixel_start && is_finite_point r.pixel_end))
          invalid_reference
      >> raise_if (pixel_length r <= f.of_nat 0) invalid_reference

  unfoldable pub pixels_per_meter : CalibrationReference F → F
  pixels_per_meter r = f.div (pixel_length r) r.meters

  unfoldable pub scales_by_depth :
      List (DepthScales F) → List (CalibrationReference F) → List (DepthScales F)
  scales_by_depth entries [] = entries
  scales_by_depth entries (r ∷ rs) =
      scales_by_depth (add_scale (depth_y r) (pixels_per_meter r) entries) rs

  unfoldable pub scale_points : List (CalibrationReference F) → List (Point F)
  scale_points rs =
      sort_points (map (λ (e : DepthScales F). (e.0, median e.1)) (scales_by_depth [] rs))

  unfoldable pub pixels_per_meter_at :
      CameraCalibration (CalibrationReference F) → F → Result PlanError F
  pixels_per_meter_at c y = scale_at y (scale_points c.references)

  -- The sum of `distance_meters`, over positions without the first and displacements.
  unfoldable pub sum_meters :
      CameraCalibration (CalibrationReference F)
      → F
      → List (Point F)
      → List (Point F)
      → Result PlanError F
  sum_meters c total [] displacements = ok total
  sum_meters c total (p ∷ positions) [] = ok total
  sum_meters c total (p ∷ positions) (d ∷ displacements) = pixels_per_meter_at c p.1 >>= λ scale.
      sum_meters c (f.add total (f.div (hypot d.0 d.1) scale)) positions displacements

  unfoldable pub distance_meters :
      CameraCalibration (CalibrationReference F)
      → List (Point F)
      → List (Point F)
      → Result PlanError F
  distance_meters c positions displacements =
      raise_if (not (length positions == length displacements + 1)) inconsistent_positions
      >> sum_meters c (f.of_nat 0) (drop 1 positions) displacements
