-- ===== src/ViewPlan/Encoded.antt =====
-- The payload of a plan, and that `VideoViewPlan.from_mapping` of
-- vaaet-core/src/vaaet/vision/view_plan.py reads it back.
use vaaet.Prelude.{
  ltb, All, Result, ok, ◌==◌, string_key, ℕ, ◌≡◌, refl, ap, true, false, Option, none, some, List,
  [], ◌∷◌, map, arith, ℤ, pos, nat_key,
}
use vaaet.Float.{FloatOps, ◌<=◌}
use vaaet.ViewPlan.{
  PlanError, CameraCalibration, VideoViewSegment, VideoViewPlan, video_view_segment,
  video_view_plan, ends_by, schema_version,
}
use vaaet.ViewPlan.Calibration.{
  Point, CalibrationReference, camera_calibration, calibration_reference,
}
use vaaet.ViewPlan.Cover.{IsConstructed}
use vaaet.ViewPlan.Parsed.{IsReference, IsCalibration, IsPlan}
use vaaet.ViewPlan.Payload.{
  Value, Items, Entries, null, integer, number, text, array, object, end, item, empty, entry,
  as_mapping, required_string, required_list, positive_int, optional_int, get, to_list,
  parse_segment, parse_all, parse_reference, parse_profile, from_mapping, positive_float, point,
  finite_float,
}

module _ {F : Type 0} where
  unfoldable pub items_of : List (Value F) → Items F
  items_of [] = end
  items_of (v ∷ vs) = item v (items_of vs)

  list-items : (vs : List (Value F)) → to_list (items_of vs) ≡ vs
  unfolding to_list items_of
  list-items [] = refl
  list-items (v ∷ vs) = ap (λ xs. v ∷ xs) (list-items vs)

  abbrev encode_end : Option ℕ → Value F
  encode_end none = null
  encode_end (some n) = integer (pos n)

  unfoldable pub encode_segment : VideoViewSegment → Value F
  encode_segment s = object (
      entry "start_frame" (integer (pos s.start_frame))
        (entry "end_frame" (encode_end s.end_frame) (entry "profile_id" (text s.profile_id) empty)))

  unfoldable pub encode_point : Point F → Value F
  encode_point p = array (item (number p.0) (item (number p.1) end))

  unfoldable pub encode_reference : CalibrationReference F → Value F
  encode_reference r = object (
      entry "reference_id" (text r.reference_id) (
        entry "pixel_start" (encode_point r.pixel_start)
          (entry "pixel_end" (encode_point r.pixel_end) (entry "meters" (number r.meters) empty))))

  unfoldable pub encode_profile : CameraCalibration (CalibrationReference F) → Value F
  encode_profile c = object (
      entry "profile_id" (text c.profile_id) (
        entry "revision" (text c.revision) (
          entry "frame_size"
            (array (item (integer (pos c.width)) (item (integer (pos c.height)) end)))
            (entry "references" (array (items_of (map encode_reference c.references))) empty))))

  -- The payload of a plan.
  unfoldable pub encode_plan : VideoViewPlan (CalibrationReference F) → Entries F
  encode_plan plan = entry "schema_version" (text plan.version) (
      entry "profiles" (array (items_of (map encode_profile plan.profiles)))
        (entry "segments" (array (items_of (map encode_segment plan.segments))) empty))

  parse_all-encode :
      {A : Type 0} (P : A → Type 0) (encode : A → Value F) (parse : Value F → Result PlanError A)
      → ((x : A) → P x → parse (encode x) ≡ ok x)
      → (xs : List A) → All P xs
      → parse_all parse (map encode xs) ≡ ok xs
  unfolding parse_all
  parse_all-encode P encode parse back [] h = refl
  parse_all-encode P encode parse back (x ∷ xs) h =
      rw (back x h.0, parse_all-encode P encode parse back xs h.1) refl

optional_int-encode :
    (F : Type 0) (e : Option ℕ) (start : ℕ)
    → ltb start 1 ≡ false
    → ends_by e start ≡ false
    → optional_int (encode_end {F = F} e) ≡ ok e
unfolding optional_int positive_int
optional_int-encode F none start h k = refl
optional_int-encode F (some n) start h k =
    let positive : ltb n 1 ≡ false = ground arith in rw positive refl

parse_segment-encode :
    (F : Type 0) (s : VideoViewSegment)
    → IsConstructed s
    → parse_segment (encode_segment {F = F} s) ≡ ok s
unfolding video_view_segment parse_segment encode_segment as_mapping get required_string
    positive_int
parse_segment-encode F s h =
    let started : ltb s.start_frame 1 ≡ false = ground arith in
    let ended : ends_by s.end_frame s.start_frame ≡ false = ground arith in
    let named : s.profile_id == "" ≡ false = ground arith in
    let at_end = optional_int-encode F s.end_frame s.start_frame started ended in
    rw (started, at_end, named) (ground arith)

module _ {F : Type 0} ⦃f : FloatOps F⦄ (float_of : ℤ → Option F) (hypot : F → F → F)
    (median : List F → F) where
  point-encode :
      (p : Point F)
      → f.is_finite p.0 ≡ true
      → f.is_finite p.1 ≡ true
      → point float_of (encode_point p) ≡ ok p
  unfolding point encode_point finite_float
  point-encode p h k = rw (h, k) refl

  parse_reference-encode :
      (r : CalibrationReference F)
      → IsReference float_of hypot median r
      → parse_reference float_of hypot median (encode_reference r) ≡ ok r
  unfolding calibration_reference parse_reference encode_reference as_mapping get required_string
      positive_float
  parse_reference-encode r h =
      let named : r.reference_id == "" ≡ false = ground arith in
      let finite : f.is_finite r.meters ≡ true = ground arith in
      let positive : r.meters <= f.of_nat 0 ≡ false = ground arith in
      let start = point-encode r.pixel_start (ground arith) (ground arith) in
      let end_point = point-encode r.pixel_end (ground arith) (ground arith) in
      rw (named, start, end_point, finite, positive) (ground arith)

  parse_profile-encode :
      (c : CameraCalibration (CalibrationReference F))
      → IsCalibration float_of hypot median c
      → parse_profile float_of hypot median (encode_profile c) ≡ ok c
  unfolding camera_calibration parse_profile encode_profile as_mapping get required_string
      required_list positive_int to_list
  parse_profile-encode c h =
      let good = h.0 in
      let named : c.profile_id == "" ≡ false = ground arith in
      let revised : c.revision == "" ≡ false = ground arith in
      let wide : ltb c.width 1 ≡ false = ground arith in
      let high : ltb c.height 1 ≡ false = ground arith in
      let back =
        parse_all-encode (IsReference float_of hypot median) encode_reference
          (parse_reference float_of hypot median) parse_reference-encode c.references h.1 in
      rw (list-items (map encode_reference c.references), back, named, revised, wide, high)
        (ground arith)

  -- The payload of a plan of constructed parts, itself constructed, is read back as that plan.
  pub from_mapping-encode_plan :
      (plan : VideoViewPlan (CalibrationReference F))
      → IsPlan float_of hypot median plan
      → from_mapping float_of hypot median (encode_plan plan) ≡ ok plan
  unfolding video_view_plan from_mapping encode_plan get required_string required_list
  from_mapping-encode_plan plan h =
      let good = h.0 in
      let known : plan.version == schema_version ≡ true = ground arith in
      let same = (string_key.test_iff plan.version schema_version).0 known in
      let named : plan.version == "" ≡ false = rw same refl in
      let profiles =
        parse_all-encode (IsCalibration float_of hypot median) encode_profile
          (parse_profile float_of hypot median) parse_profile-encode plan.profiles h.1 in
      let segments =
        parse_all-encode IsConstructed (encode_segment {F = F}) parse_segment
          (parse_segment-encode F) plan.segments h.2 in
      rw
        (
          named,
          list-items (map encode_profile plan.profiles),
          profiles,
          list-items (map encode_segment plan.segments),
          segments,
        )
        (ground arith)
