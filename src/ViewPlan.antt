-- ===== src/ViewPlan.antt =====
-- vaaet-core/src/vaaet/vision/view_plan.py: the plan that gives each frame of a video a calibration.
-- A frame is a natural number; the source refuses a negative start as it refuses zero. The road
-- references of a calibration, of the type R, are not looked at.
pub mod Cover
pub mod Total
pub mod Steps
pub mod Calibration
pub mod Scale
pub mod Payload
pub mod Parsed
pub mod Encoded
mod Examples
use vaaet.Prelude.{
  ltb, leb, if◌then◌else◌, is_some, is_empty, Result, ok, err, ◌>>=◌, ◌>>◌, raise_if, ◌==◌,
  contains, option_eq, ℕ, ◌+◌, String, Bool, true, false, not, ◌&&◌, ◌||◌, Option, none, some, List,
  [], ◌∷◌, nat_key, string_key,
}

pub data PlanError : Type 0 where
  invalid_segment : PlanError
  unsupported_schema : PlanError
  missing_parts : PlanError
  repeated_profile : PlanError
  late_start : PlanError
  unknown_profile : PlanError
  not_open_ended : PlanError
  not_contiguous : PlanError
  not_covered : PlanError
  frame_size_differs : PlanError
  -- `next` of an empty generator
  stop_iteration : PlanError
  invalid_reference : PlanError
  invalid_profile : PlanError
  outside_frame : PlanError
  no_local_scale : PlanError
  inconsistent_positions : PlanError
  -- the first entry of an empty list
  no_entry : PlanError
  zero_division : PlanError
  malformed : PlanError
  -- an integer beyond every float
  overflow_error : PlanError

abbrev pub Check : Type 0
Check = Result PlanError (Unit {0})

pub record CameraCalibration (R : Type 0) : Type 0 where
  pub profile_id : String
  pub revision : String
  pub width : ℕ
  pub height : ℕ
  pub references : List R

pub record VideoViewSegment : Type 0 where
  pub start_frame : ℕ
  pub end_frame : Option ℕ
  pub profile_id : String

abbrev pub ends_by : Option ℕ → ℕ → Bool
ends_by none frame = false
ends_by (some e) frame = leb e frame

-- `VideoViewSegment.__post_init__`
unfoldable pub video_view_segment : VideoViewSegment → Check
video_view_segment s =
    raise_if (ltb s.start_frame 1) invalid_segment
    >> raise_if (ends_by s.end_frame s.start_frame) invalid_segment
    >> raise_if (s.profile_id == "") invalid_segment

-- `contains`
unfoldable pub covers : VideoViewSegment → ℕ → Bool
covers s frame = leb s.start_frame frame && not (ends_by s.end_frame frame)

abbrev pub schema_version : String
schema_version = "vaaet-view-plan-v1"

pub record VideoViewPlan (R : Type 0) : Type 0 where
  pub profiles : List (CameraCalibration R)
  pub segments : List VideoViewSegment
  pub version : String

-- `len(set(ids)) != len(ids)`
unfoldable pub has_repetition : List String → Bool
has_repetition [] = false
has_repetition (i ∷ ids) = contains i ids || has_repetition ids

unfoldable pub check_segments : List String → List VideoViewSegment → Check
check_segments profiles [] = ok tt
check_segments profiles (s ∷ []) =
    raise_if (not (contains s.profile_id profiles)) unknown_profile
    >> raise_if (is_some s.end_frame) not_open_ended
check_segments profiles (s ∷ t ∷ segments) =
    let rest = check_segments profiles (t ∷ segments) in
    raise_if (not (contains s.profile_id profiles)) unknown_profile
    >> raise_if (not (option_eq s.end_frame (some t.start_frame))) not_contiguous
    >> rest

unfoldable pub starts_late : List VideoViewSegment → Bool
starts_late [] = true
starts_late (s ∷ _) = not (s.start_frame == 1)

unfoldable pub profile_ids : {R : Type 0} → List (CameraCalibration R) → List String
profile_ids [] = []
profile_ids (p ∷ profiles) = let rest = profile_ids profiles in p.profile_id ∷ rest

-- `VideoViewPlan.__post_init__`
unfoldable pub video_view_plan : {R : Type 0} → VideoViewPlan R → Check
video_view_plan plan =
    raise_if (not (plan.version == schema_version)) unsupported_schema
    >> raise_if (is_empty plan.profiles || is_empty plan.segments) missing_parts
    >> raise_if (has_repetition (profile_ids plan.profiles)) repeated_profile
    >> raise_if (starts_late plan.segments) late_start
    >> check_segments (profile_ids plan.profiles) plan.segments

unfoldable pub index_from : ℕ → List VideoViewSegment → ℕ → Result PlanError ℕ
index_from i [] frame = err not_covered
index_from i (s ∷ segments) frame =
    let rest = index_from (i + 1) segments frame in if covers s frame then ok i else rest

unfoldable pub segment_index : {R : Type 0} → VideoViewPlan R → ℕ → Result PlanError ℕ
segment_index plan frame = index_from 0 plan.segments frame

unfoldable pub profile_named :
    {R : Type 0} → String → List (CameraCalibration R) → Result PlanError (CameraCalibration R)
profile_named name [] = err stop_iteration
profile_named name (p ∷ profiles) =
    let rest = profile_named name profiles in if p.profile_id == name then ok p else rest

unfoldable pub validate_frame_size : {R : Type 0} → ℕ → ℕ → CameraCalibration R → Check
validate_frame_size width height p =
    raise_if (not (p.width == width && p.height == height)) frame_size_differs

unfoldable pub resolve_from :
    {R : Type 0}
    → List (CameraCalibration R)
    → List VideoViewSegment
    → ℕ
    → ℕ
    → ℕ
    → Result PlanError (CameraCalibration R)
resolve_from profiles [] frame width height = err not_covered
resolve_from profiles (s ∷ segments) frame width height =
    let rest = resolve_from profiles segments frame width height in
    if covers s frame
    then (profile_named s.profile_id profiles >>= λ p. validate_frame_size width height p >> ok p)
    else rest

unfoldable pub resolve :
    {R : Type 0} → VideoViewPlan R → ℕ → ℕ → ℕ → Result PlanError (CameraCalibration R)
resolve plan frame width height = resolve_from plan.profiles plan.segments frame width height
