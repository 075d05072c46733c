-- ===== src/ViewPlan/Scale.antt =====
-- The local scale of a calibration always has a value: proofs about vaaet-core/src/vaaet/vision/view_plan.py.
use vaaet.Prelude.{
  ltb, if◌then◌else◌, Bool-cases, length, drop, is_empty, All, Result, ok, err, nat_key, ◌+◌, ◌≡◌,
  refl, ap, ◌∙◌, ◌≢◌, inl, inr, true, false, ◌&&◌, ◌||◌, List, [], ◌∷◌, map, arith, beq-false,
  string_key,
}
use vaaet.Float.{FloatOps, ◌<=◌}
use vaaet.ViewPlan.{PlanError, CameraCalibration, inconsistent_positions}
use vaaet.ViewPlan.Calibration.{
  Point, CalibrationReference, DepthScales, depth_y, same_value, camera_calibration, add_scale,
  insert_point, sort_points, last_of, interpolate, scale_at, scale_between, scales_by_depth,
  scale_points, pixels_per_meter, pixels_per_meter_at, sum_meters, distance_meters,
}

-- A computation that returns.
abbrev pub Returns : {A : Type 0} → Result PlanError A → Type 0
Returns {A} m = (a : A) × (m ≡ ok a)

module _ {F : Type 0} ⦃f : FloatOps F⦄ where
  -- Neither of the two values is `nan`.
  abbrev pub IsComparable : F → F → Type 0
  IsComparable y depth = (y <= depth || depth <= y) ≡ true

  abbrev pub AllComparable : F → List (Point F) → Type 0
  AllComparable y points = All (λ (p : Point F). IsComparable y p.0) points

  interpolate-Returns :
      (y : F) (p : Point F) (points : List (Point F))
      → p.0 <= y ≡ true
      → (last_of p points).0 <= y ≡ false
      → AllComparable y points
      → Returns (interpolate y (p ∷ points))
  unfolding interpolate last_of
  interpolate-Returns y p [] reached before comparable = cc
  interpolate-Returns y p (q ∷ points) reached before comparable =
      elim (Bool-cases (p.0 <= y && y <= q.0)) [
        | inl between ↦ (
          scale_between y p q,
          ap (λ b. if b then ok (scale_between y p q) else interpolate y (q ∷ points)) between,
        )
        | inr beyond ↦
            let next : q.0 <= y ≡ true = ground (arith, comparable.0) in
            let (scale, e) = interpolate-Returns y q points next before comparable.1 in
            (
              scale,
              ap (λ b. if b then ok (scale_between y p q) else interpolate y (q ∷ points)) beyond
                  ∙ e,
            )
      ]

  scale_at-Returns :
      (y : F) (p : Point F) (points : List (Point F))
      → AllComparable y (p ∷ points)
      → Returns (scale_at y (p ∷ points))
  unfolding scale_at
  scale_at-Returns y p points comparable = elim (Bool-cases (y <= p.0)) [
    | inl below ↦ (p.1, rw below refl)
    | inr above ↦
        let reached : p.0 <= y ≡ true = ground (arith, comparable.0) in
        elim (Bool-cases ((last_of p points).0 <= y)) [
          | inl over ↦ ((last_of p points).1, rw (above, over) refl)
          | inr under ↦
              let (scale, e) = interpolate-Returns y p points reached under comparable.1 in
              (scale, rw (above, under) e)
        ]
  ]

  insert-comparable :
      (y : F) (p : Point F) (points : List (Point F))
      → IsComparable y p.0
      → AllComparable y points
      → AllComparable y (insert_point p points)
  unfolding insert_point
  insert-comparable y p [] h hs = (h, tt)
  insert-comparable y p (q ∷ points) h hs = elim (Bool-cases (f.lt p.0 q.0)) [
    | inl before ↦ rw before (h, hs)
    | inr after ↦ rw after (hs.0, insert-comparable y p points h hs.1)
  ]

  sort-comparable :
      (y : F) (points : List (Point F))
      → AllComparable y points
      → AllComparable y (sort_points points)
  unfolding sort_points
  sort-comparable y [] h = tt
  sort-comparable y (p ∷ points) h =
      insert-comparable y p (sort_points points) h.0 (sort-comparable y points h.1)

  insert-cons : (p : Point F) (points : List (Point F)) → is_empty (insert_point p points) ≡ false
  unfolding insert_point
  insert-cons p [] = refl
  insert-cons p (q ∷ points) = ground arith

  add-IsComparable :
      (y depth scale : F) (entries : List (DepthScales F))
      → IsComparable y depth
      → All (λ (e : DepthScales F). IsComparable y e.0) entries
      → All (λ (e : DepthScales F). IsComparable y e.0) (add_scale depth scale entries)
  unfolding add_scale
  add-IsComparable y depth scale [] h hs = (h, tt)
  add-IsComparable y depth scale ((d, scales) ∷ entries) h hs =
      elim (Bool-cases (same_value d depth)) [
        | inl same ↦ rw same hs
        | inr other ↦ rw other (hs.0, add-IsComparable y depth scale entries h hs.1)
      ]

  add-cons :
      (depth scale : F) (entries : List (DepthScales F))
      → is_empty (add_scale depth scale entries) ≡ false
  unfolding add_scale
  add-cons depth scale [] = refl
  add-cons depth scale ((d, scales) ∷ entries) = ground arith

  map-comparable :
      (y : F) (median : List F → F) (entries : List (DepthScales F))
      → All (λ (e : DepthScales F). IsComparable y e.0) entries
      → AllComparable y (map (λ (e : DepthScales F). (e.0, median e.1)) entries)
  map-comparable y median [] h = tt
  map-comparable y median (e ∷ entries) h = (h.0, map-comparable y median entries h.1)

module _ {F : Type 0} ⦃f : FloatOps F⦄ (hypot : F → F → F) (median : List F → F) where
  scales-IsComparable :
      (y : F) (entries : List (DepthScales F)) (rs : List (CalibrationReference F))
      → All (λ (e : DepthScales F). IsComparable y e.0) entries
      → All (λ (r : CalibrationReference F). IsComparable y (depth_y r)) rs
      → All (λ (e : DepthScales F). IsComparable y e.0) (scales_by_depth hypot median entries rs)
  unfolding scales_by_depth
  scales-IsComparable y entries [] h hs = h
  scales-IsComparable y entries (r ∷ rs) h hs =
      scales-IsComparable y (add_scale (depth_y r) (pixels_per_meter hypot median r) entries) rs
        (add-IsComparable y (depth_y r) (pixels_per_meter hypot median r) entries hs.0 h) hs.1

  scales-cons :
      (rs : List (CalibrationReference F)) (entries : List (DepthScales F))
      → is_empty entries ≡ false
      → is_empty (scales_by_depth hypot median entries rs) ≡ false
  unfolding scales_by_depth
  scales-cons [] entries h = h
  scales-cons (r ∷ rs) entries h =
      scales-cons rs (add_scale (depth_y r) (pixels_per_meter hypot median r) entries)
        (add-cons (depth_y r) (pixels_per_meter hypot median r) entries)

  points-cons :
      (rs : List (CalibrationReference F))
      → is_empty rs ≡ false
      → is_empty (scale_points hypot median rs) ≡ false
  unfolding scale_points scales_by_depth sort_points
  points-cons [] h = cc
  points-cons (r ∷ rs) h =
      let some_scales =
        scales-cons rs (add_scale (depth_y r) (pixels_per_meter hypot median r) [])
          (add-cons (depth_y r) (pixels_per_meter hypot median r) []) in
      sorted
        (scales_by_depth hypot median (add_scale (depth_y r) (pixels_per_meter hypot median r) [])
          rs)
        some_scales
    where
      sorted :
          (entries : List (DepthScales F))
          → is_empty entries ≡ false
          → is_empty (sort_points (map (λ (e : DepthScales F). (e.0, median e.1)) entries)) ≡ false
      sorted [] h = cc
      sorted (e ∷ entries) h = insert-cons (e.0, median e.1) _

  points-comparable :
      (y : F) (rs : List (CalibrationReference F))
      → All (λ (r : CalibrationReference F). IsComparable y (depth_y r)) rs
      → AllComparable y (scale_points hypot median rs)
  unfolding scale_points
  points-comparable y rs h = sort-comparable y _ (
      map-comparable y median (scales_by_depth hypot median [] rs)
        (scales-IsComparable y [] rs tt h))

  accepted-some :
      (c : CameraCalibration (CalibrationReference F))
      → camera_calibration c ≡ ok tt
      → is_empty c.references ≡ false
  unfolding camera_calibration
  accepted-some c h =
      let enough : ltb (length c.references) 2 ≡ false = ground arith in some_of c.references enough
    where
      some_of :
          (rs : List (CalibrationReference F)) → ltb (length rs) 2 ≡ false → is_empty rs ≡ false
      some_of [] few = cc
      some_of (r ∷ rs) few = refl

  scale-Returns :
      (y : F) (points : List (Point F))
      → is_empty points ≡ false
      → AllComparable y points
      → Returns (scale_at y points)
  scale-Returns y [] h comparable = cc
  scale-Returns y (p ∷ points) h comparable = scale_at-Returns y p points comparable

  -- At a height that is comparable with the depth of each reference, a calibration that was
  -- accepted has a local scale: the error behind the search is never raised there.
  pub pixels_per_meter_at-Returns :
      (c : CameraCalibration (CalibrationReference F)) (y : F)
      → camera_calibration c ≡ ok tt
      → All (λ (r : CalibrationReference F). IsComparable y (depth_y r)) c.references
      → Returns (pixels_per_meter_at hypot median c y)
  unfolding pixels_per_meter_at
  pixels_per_meter_at-Returns c y good comparable =
      scale-Returns y (scale_points hypot median c.references)
        (points-cons c.references (accepted-some c good))
        (points-comparable y c.references comparable)

  abbrev pub InRange : CameraCalibration (CalibrationReference F) → Point F → Type 0
  InRange c p = All (λ (r : CalibrationReference F). IsComparable p.1 (depth_y r)) c.references

  sum-Returns :
      (c : CameraCalibration (CalibrationReference F)) (positions displacements : List (Point F))
      (total : F)
      → camera_calibration c ≡ ok tt
      → All (InRange c) positions
      → Returns (sum_meters hypot median c total positions displacements)
  unfolding sum_meters
  sum-Returns c [] displacements total good h = (total, refl)
  sum-Returns c (p ∷ positions) [] total good h = (total, refl)
  sum-Returns c (p ∷ positions) (d ∷ displacements) total good h =
      let (scale, e) = pixels_per_meter_at-Returns c p.1 good h.0 in
      let (meters, e') =
        sum-Returns c positions displacements (f.add total (f.div (hypot d.0 d.1) scale)) good
          h.1 in
      (meters, rw e e')

  -- An accepted calibration turns displacements into a distance exactly when there is one position
  -- more than displacements, where every position is comparable with the depths of the references;
  -- otherwise it says that they are inconsistent.
  pub distance_meters-Returns :
      (c : CameraCalibration (CalibrationReference F)) (positions displacements : List (Point F))
      → camera_calibration c ≡ ok tt
      → All (InRange c) positions
      → (length positions ≡ length displacements + 1
          → Returns (distance_meters hypot median c positions displacements))
        × (length positions ≢ length displacements + 1
            → distance_meters hypot median c positions displacements ≡ err inconsistent_positions)
  unfolding distance_meters
  distance_meters-Returns c positions displacements good h = (
    (λ same.
        let (meters, e) =
          sum-Returns c (drop 1 positions) displacements (f.of_nat 0) good
            (All-drop_one positions h) in
        let test = (nat_key.test_iff (length positions) (length displacements + 1)).1 same in
        (meters, rw test e)),
    (λ other.
        let test = beq-false (length positions) (length displacements + 1) other in rw test refl),
  )
    where
      All-drop_one : (ps : List (Point F)) → All (InRange c) ps → All (InRange c) (drop 1 ps)
      All-drop_one [] h = tt
      All-drop_one (p ∷ ps) h = h.1
