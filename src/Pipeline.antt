-- ===== src/Pipeline.antt =====
-- vaaet-core/src/vaaet/vision/pipeline.py: the session that takes a finite video frame by frame through
-- detection, tracking, motion and telemetry, and publishes a record of each minute. The clock of
-- the metrics decides nothing of a run; its collector stands in Metrics. What OpenCV, YOLO and the
-- drawing give is the record `Externals`.
pub mod Packets
pub mod Frame
pub mod Views
pub mod Minutes
pub mod Run
pub mod Control
pub mod Completed
pub mod Published
pub mod Following
pub mod Refinement
pub mod Counting
pub mod Tally
pub mod Limit
pub mod Isolation
pub mod Fresh
pub mod Metrics
mod Examples
use vaaet.Prelude.{
  ltb, leb, Result, ◌>>◌, raise_if, ℕ, String, Bool, false, not, ◌&&◌, Option, none, List, [], Map,
  ℤ,
}
use vaaet.Float.{FloatOps, ◌<=◌}
use vaaet.Motion.Flow.{OpenCv, FlowSettings, OpticalFlow}
use vaaet.Motion.Speed.{Geometry}
use vaaet.Motion.Stationary.{Votes, Settings}
use vaaet.Telemetry.{Accumulator, MinuteRecord}
use vaaet.Tracking.{Tracker, TrackObservation}
use vaaet.ViewPlan.{CameraCalibration, PlanError, VideoViewPlan, VideoViewSegment}
use vaaet.ViewPlan.Calibration.{CalibrationReference, Point}

pub data VideoError : Type 0 where
  clip_required : VideoError
  frame_not_positive : VideoError
  fps_not_positive : VideoError
  elapsed_negative : VideoError
  bad_shape : VideoError
  bad_ratio : VideoError
  repeated_tracks : VideoError
  repeated_annotations : VideoError
  foreign_annotations : VideoError
  not_next_frame : VideoError
  minute_not_positive : VideoError
  unsupported_state : VideoError
  bad_confidence : VideoError
  index_error : VideoError
  plan_error : PlanError → VideoError
  value_error : String → VideoError
  -- what the detector or the provider raises
  external_error : VideoError

abbrev pub Pixel : Type 0
Pixel = ℤ × ℤ

-- `Detection`: the corners of a box, of which the centroid and the contact with the road follow.
pub record Detection (F : Type 0) : Type 0 where
  pub x1 : ℤ
  pub y1 : ℤ
  pub x2 : ℤ
  pub y2 : ℤ
  pub vehicle_type : String
  pub confidence : F

pub record Prediction (F : Type 0) : Type 0 where
  pub state : ℕ
  pub label : String
  pub confidence : F
  pub evidence : Option F
  pub incident_candidate : Bool

-- A record of telemetry with its `record_time`.
pub record TimedRecord (F T : Type 0) : Type 0 where
  pub record_time : T
  pub telemetry : MinuteRecord F

pub record ClassificationRecord (F T : Type 0) : Type 0 where
  pub clip_id : String
  pub continuity_id : String
  pub record_time : T
  pub traffic_state : ℕ
  pub state_label : String
  pub confidence : F
  pub evidence : Option F
  pub incident_candidate : Bool

pub record TrackAnnotation (F : Type 0) : Type 0 where
  pub bbox : ℤ × ℤ × ℤ × ℤ
  pub vehicle_type : String
  pub track_id : ℕ
  pub speed : Option F
  pub stationary : Bool

pub record HudSnapshot (F : Type 0) : Type 0 where
  pub elapsed_seconds : F
  pub cumulative_counts : List (String × ℕ)
  pub average_speed : Option F
  pub inference_enabled : Bool
  pub state : Option ℕ
  pub confidence : Option F
  pub evidence : Option F
  pub incident_candidate : Bool
  pub measurement_quality : Option F

-- What the session calls outside of the modelled code, for frames `Frame`, grey images `Gray` and
-- times T. A provider takes the records in their order, the current one last.
pub record Externals (Frame Gray F T : Type 0) : Type 0 where
  pub frame_shape : Frame → List ℕ
  pub detect : Frame → Result VideoError (List (Detection F))
  pub cv : OpenCv Frame Gray F
  pub geometry : Geometry F
  pub of_int : ℤ → F
  pub distance : Pixel → Pixel → F
  pub argsort : List F → List ℕ
  pub prediction_provider :
      Option (List (TimedRecord F T) → Result VideoError (Option (Prediction F)))
  -- `recording_start + timedelta(seconds=x)`
  pub time_at : F → T
  pub draw_track_annotation : TrackAnnotation F → Frame → Frame
  pub render_hud : HudSnapshot F → Frame → Frame

abbrev pub Plan : Type 0 → Type 0
Plan F = VideoViewPlan (CalibrationReference F)

-- The fields of a session that do not change.
pub record Config (F : Type 0) : Type 0 where
  pub clip_id : String
  pub fps : F
  pub frame_height : ℕ
  pub frames_per_minute : ℕ
  pub flow_settings : FlowSettings F
  pub window_size : ℕ
  pub motion_settings : Settings F
  pub min_flow_tracking_ratio : F
  pub recovery_skip_gap : ℕ
  pub trim_ratio : F
  pub outlier_sigma : F
  pub view_plan : Option (Plan F)

-- The filters that keep state from frame to frame.
pub record Filters (Gray F : Type 0) : Type 0 where
  pub tracker : Tracker Pixel F
  pub flow : OpticalFlow Gray F
  pub speeds : Map ℕ (List F)
  pub votes : Votes
  pub accumulator : Accumulator F

-- `_ViewSegmentProgress`
pub record Progress (F : Type 0) : Type 0 where
  pub segment : VideoViewSegment
  pub calibration : CameraCalibration (CalibrationReference F)
  pub end_frame : ℕ
  pub valid_minutes : ℕ
  pub discarded_minutes : ℕ
  pub discard_reason : Option String

-- The state of `VisionPipelineSession`; `discarding_progress` is the index of an entry of
-- `view_progress`, which it shares.
pub record Session (Gray F T : Type 0) : Type 0 where
  pub filters : Filters Gray F
  pub latest_prediction : Option (Prediction F)
  pub records : List (TimedRecord F T)
  pub classification_records : List (ClassificationRecord F T)
  pub prediction_context_records : List (TimedRecord F T)
  pub view_progress : List (Progress F)
  pub active_view_index : Option ℕ
  pub continuity_sequence : ℕ
  pub active_calibration : Option (CameraCalibration (CalibrationReference F))
  pub skip_current_minute : Bool
  pub discarding_progress : Option ℕ
  pub next_frame_index : ℕ

module _ {F : Type 0} ⦃f : FloatOps F⦄ where
  -- `TrafficStatePrediction.__post_init__`
  unfoldable pub traffic_state_prediction : Prediction F → Result VideoError (Unit {0})
  traffic_state_prediction p =
      raise_if (not (leb p.state 3)) unsupported_state
      >> raise_if (not (f.of_nat 0 <= p.confidence && p.confidence <= f.of_nat 1)) bad_confidence

-- A session as it is constructed, around its filters.
unfoldable pub new_session : {Gray F T : Type 0} → Filters Gray F → Session Gray F T
new_session filters = record {
  filters = filters;
  latest_prediction = none;
  records = [];
  classification_records = [];
  prediction_context_records = [];
  view_progress = [];
  active_view_index = none;
  continuity_sequence = 1;
  active_calibration = none;
  skip_current_minute = false;
  discarding_progress = none;
  next_frame_index = 1;
}

-- `VisionPipelineSession.__post_init__`
unfoldable pub check_session : {F : Type 0} → Config F → Result VideoError (Unit {0})
check_session cfg = raise_if (ltb cfg.frames_per_minute 1) minute_not_positive
