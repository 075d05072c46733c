-- ===== src/Pipeline/Examples.antt =====
-- A video of six frames, two of them a minute, under a plan whose view changes at the fourth.
use vaaet.Prelude.{
  length, sum, Result, ok, err, ℕ, ◌+◌, ◌*◌, ◌/◌, String, ◌≡◌, refl, false, none, some, List, [],
  ◌∷◌, empty_map, pos, negsuc,
}
use vaaet.Float.{FloatOps, NumPy, ten_thousandths}
use vaaet.Motion as Motion
use vaaet.Motion.Flow as Flow
use vaaet.Motion.Flow.{OpenCv, FlowSettings, OpticalFlow}
use vaaet.Motion.Smoothing as Smoothing
use vaaet.Motion.Speed as Speed
use vaaet.Motion.Speed.{Geometry}
use vaaet.Motion.Stationary as Stationary
use vaaet.Pipeline as Pipeline
use vaaet.Pipeline.{
  VideoError, Pixel, Detection, Prediction, TimedRecord, Externals, Config, Filters, Session,
  new_session, check_session,
}
use vaaet.Pipeline.Frame as Frame
use vaaet.Pipeline.Packets as Packets
use vaaet.Pipeline.Fresh.{IsFresh, run_from-IsFresh}
use vaaet.Pipeline.Limit as Limit
use vaaet.Pipeline.Limit.{run-take}
use vaaet.Pipeline.Minutes as Minutes
use vaaet.Pipeline.Published as Published
use vaaet.Pipeline.Published.{identities}
use vaaet.Pipeline.Refinement.{run-whole_minutes}
use vaaet.Pipeline.Run as Run
use vaaet.Pipeline.Run.{Progressed, PipelineRunOutput, run, run_from}
use vaaet.Pipeline.Tally.{IsBalanced, run-IsBalanced}
use vaaet.Pipeline.Views as Views
use vaaet.Telemetry as Telemetry
use vaaet.Telemetry.{Accumulator, empty_vehicle_counts}
use vaaet.Tracking as Tracking
use vaaet.Tracking.{Tracker}
use vaaet.ViewPlan as ViewPlan
use vaaet.ViewPlan.{CameraCalibration, VideoViewPlan, VideoViewSegment, schema_version}
use vaaet.ViewPlan.Calibration.{CalibrationReference}
use vaaet.ViewPlan.Steps as Steps

instance abbrev floats : FloatOps ℕ
floats = ten_thousandths

abbrev whole : NumPy ℕ
whole = record {
  median = λ xs. sum xs / (length xs + 1);
  mean = λ xs. sum xs / (length xs + 1);
  sort = λ xs. xs;
  maximum = sum;
}

abbrev profile : String → CameraCalibration (CalibrationReference ℕ)
profile id = record { profile_id = id; revision = "1"; width = 64; height = 48; references = [] }

abbrev plan : VideoViewPlan (CalibrationReference ℕ)
plan = record {
  profiles = profile "far" ∷ profile "near" ∷ [];
  segments =
      record { start_frame = 1; end_frame = some 4; profile_id = "far" }
      ∷ record { start_frame = 4; end_frame = none; profile_id = "near" }
      ∷ [];
  version = schema_version;
}

-- Every frame has one car that stands; a provider predicts a congestion.
abbrev world : Externals ℕ ℕ ℕ ℕ
world = record {
  frame_shape = λ _. 48 ∷ 64 ∷ 3 ∷ [];
  detect = λ _. ok (
      record {
        x1 = pos 10;
        y1 = pos 10;
        x2 = pos 20;
        y2 = pos 20;
        vehicle_type = "car";
        confidence = 9000;
      }
      ∷ []);
  cv = record { to_gray = λ x. x; shape = λ _. (48, 64); lucas_kanade = λ _ _ _. none };
  geometry = record {
    np = whole;
    norm = λ x y. x + y;
    np_sum = sum;
    np_std = λ _. 0;
    hypot = λ x y. x + y;
    median = sum;
  };
  of_int = λ i. elim i [ pos n ↦ n * 10000 | negsuc n ↦ 0 ];
  distance = λ _ _. 0;
  argsort = λ xs. elim xs [ [] ↦ [] | x ∷ _ ↦ 0 ∷ [] ];
  prediction_provider = some λ records. ok (
      some (record {
        state = 2;
        label = "Congested";
        confidence = 8000;
        evidence = none;
        incident_candidate = false;
      }));
  time_at = λ x. x;
  draw_track_annotation = λ _ frame. frame;
  render_hud = λ _ frame. frame + 100;
}

abbrev config : Config ℕ
config = record {
  clip_id = "bridge";
  fps = 20000;
  frame_height = 48;
  frames_per_minute = 2;
  flow_settings = record {
    grid_step = 40;
    border_margin = 10;
    running_mean_window = 5;
    min_tracking_ratio = 3500;
  };
  window_size = 10;
  motion_settings = record { enter_frames = 2; exit_frames = 3; exit_speed_min = 60000 };
  min_flow_tracking_ratio = 3500;
  recovery_skip_gap = 1;
  trim_ratio = 1500;
  outlier_sigma = 35000;
  view_plan = some plan;
}

abbrev filters : Filters ℕ ℕ
filters = record {
  tracker = record {
    max_distance = 100;
    max_lost = 60;
    tracks = [];
    next_id = 1;
    last_pruned_track_ids = [];
  };
  flow = record {
    prev_gray = none;
    motion_history = [];
    last_tracking_ratio = 0;
    last_good_points = 0;
    last_total_points = 0;
  };
  speeds = empty_map;
  votes = record { stationary = empty_map; enter_votes = empty_map; exit_votes = empty_map };
  accumulator = record {
    clip_id = "bridge";
    minute_counts = empty_vehicle_counts;
    minute_speeds = [];
    flow_tracking_ratios = [];
    counted_tracks = [];
    observed_track_ids = [];
    near_zero_track_ids = [];
    stationary_track_ids = [];
    rejected_speed_track_ids = [];
    recovered_track_ids = [];
    reliable_speed_track_ids = [];
    cumulative_counts = empty_vehicle_counts;
  };
}

abbrev video : List ℕ
video = 1 ∷ 2 ∷ 3 ∷ 4 ∷ 5 ∷ 6 ∷ []

abbrev result : Result VideoError (PipelineRunOutput ℕ ℕ × List ℕ)
result = run world config none video (new_session filters)

abbrev minute : ℕ → ℕ → String → ℕ → TimedRecord ℕ ℕ
minute time rejected id flow = record {
  record_time = time;
  telemetry = record {
    clip_id = "bridge";
    continuity_id = id;
    avg_speed = 0;
    count_car = 1;
    count_truck = 0;
    count_bus = 0;
    count_motorcycle = 0;
    count_bicycle = 0;
    total_vehicles = 1;
    near_zero_motion_count = 1;
    stationary_confirmed_count = 1;
    rejected_speed_count = rejected;
    recovered_track_count = 0;
    speed_sample_count = 0;
    speed_measurement_quality = 0;
    optical_flow_tracking_ratio = flow;
  };
}

-- The second minute has frames of both views and is discarded.
abbrev output : PipelineRunOutput ℕ ℕ
output = record {
  telemetry_records =
      minute 10000 1 "bridge:continuity-0001" 5000 ∷ minute 30000 0 "bridge:continuity-0002" 0 ∷ [];
  classification_records = [];
  frames_processed = 6;
  view_segments =
      record {
        profile_id = "far";
        profile_revision = "1";
        start_frame = 1;
        end_frame = 3;
        valid_minutes = 1;
        discarded_minutes = 0;
        discard_reason = none;
      }
      ∷ record {
        profile_id = "near";
        profile_revision = "1";
        start_frame = 4;
        end_frame = 6;
        valid_minutes = 1;
        discarded_minutes = 1;
        discard_reason = some "transition_crossed_minute";
      }
      ∷ [];
}

abbrev written : List ℕ
written = 101 ∷ 102 ∷ 103 ∷ 104 ∷ 105 ∷ 106 ∷ []

run_video : run world config none video (new_session filters) ≡ ok (output, written)
unfolding Pipeline.traffic_state_prediction Pipeline.new_session Pipeline.check_session Run.report
    Run.is_limit Run.filter_frame Run.process_frame Run.step_frame Run.run_from Run.output_of
    Run.run Packets.lift_plan Packets.squared_distance Packets.nearest
    Packets.nearest_detection_bbox Packets.repeats Telemetry.discard_id Packets.replace_track
    Packets.forget_track Packets.forget_tracks Frame.frame_packet Frame.perceive Frame.adopt_tracks
    Frame.track Frame.is_reliable Frame.candidate_speed Frame.observe_candidate Frame.measure_tracks
    Frame.measure_motion Frame.build_hud_snapshot Frame.draw_all Frame.render Views.starts_minute
    Views.continuity_id Views.update_last Views.reset_filters Views.reset_for_view_transition
    Views.leave_view Views.enter_view Views.stay_in_view Views.change_view Views.apply_plan
    Views.apply_view_plan Minutes.prediction_record Minutes.mark_discarded Minutes.update_entry
    Minutes.charge_discard Minutes.lift_value Minutes.with_accumulator Minutes.drop_minute
    Minutes.publish_record Minutes.add_classification Minutes.request_prediction Minutes.add_context
    Minutes.request_minute_prediction Minutes.complete_minute Tracking.append_bounded
    Tracking.normalize_detection Tracking.update_track Tracking.mark_counted Tracking.new_track
    Tracking.update_at Tracking.mark_unmatched Tracking.unmatched_tracks Tracking.active_tracks
    Tracking.reset Tracking.prune Tracking.distance_row Tracking.distances Tracking.match_pair
    Tracking.match_from Tracking.match_existing Tracking.settle Tracking.update Telemetry.add_id
    Telemetry.add_count Telemetry.count_of Telemetry.total_of Telemetry.has_count
    Telemetry.accumulate Telemetry.observe_speed Telemetry.observe_motion Telemetry.count_track
    Telemetry.add_ratio Telemetry.observe_track Telemetry.has_pending_data Telemetry.clear_minute
    Telemetry.rollover_minute Telemetry.discard_minute Telemetry.difference
    Telemetry.resolve_continuity Telemetry.sum_ratios Telemetry.average_flow Telemetry.quality_of
    Telemetry.minute_record Telemetry.build_record Motion.is_near_zero_motion Motion.is_stationary
    Motion.is_speed_measurement_reliable Motion.within_sigma Motion.reject_outliers Motion.trim_ends
    Motion.trim Motion.robust_speed_summary Motion.fuse_speed Flow.count_up Flow.arange Flow.column
    Flow.grid Flow.build_grid_points Flow.good_displacements Flow.mark_points Flow.reset
    Flow.compute_raw_motion Flow.update Smoothing.append_bounded Smoothing.append_speed
    Smoothing.update Smoothing.remove_track Stationary.no_votes Stationary.vote_of
    Stationary.next_state Stationary.enter_of Stationary.exit_of Stationary.cast Stationary.update
    Stationary.remove_track Speed.default_settings Speed.lerp Speed.clip Speed.blend_factor
    Speed.get_perspective_factor Speed.compensate Speed.diff Speed.displacements_of
    Speed.last_entries Speed.recent_displacement_norms Speed.motion_stats Speed.quiet Speed.cap
    Speed.robust_norms Speed.scale_factor Speed.rescale Speed.speed_limits Speed.distance_of
    Speed.accept_speed Speed.estimate_speed ViewPlan.video_view_segment ViewPlan.covers
    ViewPlan.has_repetition ViewPlan.check_segments ViewPlan.starts_late ViewPlan.profile_ids
    ViewPlan.video_view_plan ViewPlan.index_from ViewPlan.segment_index ViewPlan.profile_named
    ViewPlan.validate_frame_size ViewPlan.resolve_from ViewPlan.resolve
run_video = refl

run-whole_minutes_example :
    identities output.telemetry_records
    ≡ (10000, "bridge:continuity-0001") ∷ (30000, "bridge:continuity-0002") ∷ []
unfolding Published.whole_minutes Published.identity_of_minute Published.is_crossed
    Published.has_change Steps.view ViewPlan.segment_index ViewPlan.index_from ViewPlan.covers
    Views.continuity_id ViewPlan.video_view_plan ViewPlan.check_segments ViewPlan.starts_late
    ViewPlan.has_repetition ViewPlan.profile_ids ViewPlan.video_view_segment Pipeline.check_session
run-whole_minutes_example =
    run-whole_minutes world config plan refl refl (refl, (refl, tt)) filters none video written
      output refl run_video

run-IsBalanced_example : (length written ≡ 6) × IsBalanced world config plan refl 6 output
unfolding Pipeline.check_session Limit.limited
run-IsBalanced_example =
    run-IsBalanced world config plan refl filters none video written output refl run_video

-- With a maximum of three frames the rest of the video is not read.
run-take_example :
    run world config (some 3) video (new_session filters)
    ≡ run world config none (1 ∷ 2 ∷ 3 ∷ []) (new_session filters)
run-take_example = run-take world config 3 video (new_session filters)

abbrev start : Progressed ℕ ℕ ℕ ℕ
start = record { session = new_session filters; frames_processed = 0; written = [] }

-- The session behind the fourth frame.
abbrev middle : Progressed ℕ ℕ ℕ ℕ
middle = elim (run_from world config (some 4) video start) [ ok p ↦ p | err _ ↦ start ]

run_middle : run_from world config (some 4) video start ≡ ok middle
unfolding Pipeline.traffic_state_prediction Pipeline.new_session Pipeline.check_session Run.report
    Run.is_limit Run.filter_frame Run.process_frame Run.step_frame Run.run_from Run.output_of
    Run.run Packets.lift_plan Packets.squared_distance Packets.nearest
    Packets.nearest_detection_bbox Packets.repeats Telemetry.discard_id Packets.replace_track
    Packets.forget_track Packets.forget_tracks Frame.frame_packet Frame.perceive Frame.adopt_tracks
    Frame.track Frame.is_reliable Frame.candidate_speed Frame.observe_candidate Frame.measure_tracks
    Frame.measure_motion Frame.build_hud_snapshot Frame.draw_all Frame.render Views.starts_minute
    Views.continuity_id Views.update_last Views.reset_filters Views.reset_for_view_transition
    Views.leave_view Views.enter_view Views.stay_in_view Views.change_view Views.apply_plan
    Views.apply_view_plan Minutes.prediction_record Minutes.mark_discarded Minutes.update_entry
    Minutes.charge_discard Minutes.lift_value Minutes.with_accumulator Minutes.drop_minute
    Minutes.publish_record Minutes.add_classification Minutes.request_prediction Minutes.add_context
    Minutes.request_minute_prediction Minutes.complete_minute Tracking.append_bounded
    Tracking.normalize_detection Tracking.update_track Tracking.mark_counted Tracking.new_track
    Tracking.update_at Tracking.mark_unmatched Tracking.unmatched_tracks Tracking.active_tracks
    Tracking.reset Tracking.prune Tracking.distance_row Tracking.distances Tracking.match_pair
    Tracking.match_from Tracking.match_existing Tracking.settle Tracking.update Telemetry.add_id
    Telemetry.add_count Telemetry.count_of Telemetry.total_of Telemetry.has_count
    Telemetry.accumulate Telemetry.observe_speed Telemetry.observe_motion Telemetry.count_track
    Telemetry.add_ratio Telemetry.observe_track Telemetry.has_pending_data Telemetry.clear_minute
    Telemetry.rollover_minute Telemetry.discard_minute Telemetry.difference
    Telemetry.resolve_continuity Telemetry.sum_ratios Telemetry.average_flow Telemetry.quality_of
    Telemetry.minute_record Telemetry.build_record Motion.is_near_zero_motion Motion.is_stationary
    Motion.is_speed_measurement_reliable Motion.within_sigma Motion.reject_outliers Motion.trim_ends
    Motion.trim Motion.robust_speed_summary Motion.fuse_speed Flow.count_up Flow.arange Flow.column
    Flow.grid Flow.build_grid_points Flow.good_displacements Flow.mark_points Flow.reset
    Flow.compute_raw_motion Flow.update Smoothing.append_bounded Smoothing.append_speed
    Smoothing.update Smoothing.remove_track Stationary.no_votes Stationary.vote_of
    Stationary.next_state Stationary.enter_of Stationary.exit_of Stationary.cast Stationary.update
    Stationary.remove_track Speed.default_settings Speed.lerp Speed.clip Speed.blend_factor
    Speed.get_perspective_factor Speed.compensate Speed.diff Speed.displacements_of
    Speed.last_entries Speed.recent_displacement_norms Speed.motion_stats Speed.quiet Speed.cap
    Speed.robust_norms Speed.scale_factor Speed.rescale Speed.speed_limits Speed.distance_of
    Speed.accept_speed Speed.estimate_speed ViewPlan.video_view_segment ViewPlan.covers
    ViewPlan.has_repetition ViewPlan.check_segments ViewPlan.starts_late ViewPlan.profile_ids
    ViewPlan.video_view_plan ViewPlan.index_from ViewPlan.segment_index ViewPlan.profile_named
    ViewPlan.validate_frame_size ViewPlan.resolve_from ViewPlan.resolve
run_middle = refl

run_from-IsFresh_example : IsFresh world config plan refl middle.frames_processed middle.session
unfolding Telemetry.clear_minute
run_from-IsFresh_example =
    run_from-IsFresh world config plan refl filters (some 4) video middle refl run_middle
