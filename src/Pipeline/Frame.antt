-- ===== src/Pipeline/Frame.antt =====
-- vaaet-core/src/vaaet/vision/pipeline.py: the filters of a frame, from `_perceive` to `_render`. A track
-- that the telemetry marks is the tracker's own.
use vaaet.Prelude.{
  ltb, if◌then◌else◌, is_some, length, is_empty, Result, ok, err, ◌>>=◌, ◌>>◌, raise_if, ◌==◌, ℕ,
  ◌+◌, String, Bool, false, not, ◌&&◌, ◌||◌, Option, none, some, List, [], ◌∷◌, map, nat_key,
  string_key,
}
use vaaet.Float.{FloatOps, ◌<=◌}
use vaaet.Motion.{is_near_zero_motion, is_speed_measurement_reliable, robust_speed_summary}
use vaaet.Motion.Flow as Flow
use vaaet.Motion.Smoothing as Smoothing
use vaaet.Motion.Stationary as Stationary
use vaaet.Motion.Speed.{
  MaybeCalibration, default_settings, estimate_speed, motion_stats, recent_displacement_norms,
}
use vaaet.Pipeline.{
  VideoError, Pixel, Detection, Prediction, TrackAnnotation, HudSnapshot, Externals, Config,
  Filters, clip_required, frame_not_positive, fps_not_positive, elapsed_negative, bad_shape,
  bad_ratio, repeated_tracks, repeated_annotations, foreign_annotations, index_error,
}
use vaaet.Telemetry.{Accumulator, Observation, observe_track, count_of, difference}
use vaaet.Tracking as Tracking
use vaaet.Tracking.{Track, TrackObservation, Tracker, observation}
use vaaet.ViewPlan.Calibration.{Point}
use vaaet.Pipeline.Packets.{
  FramePacket, Perception, all_within, as_observation, forget_tracks, lift_plan,
  nearest_detection_bbox, repeats, replace_track,
}

module _ {Frame Gray F T : Type 0} ⦃f : FloatOps F⦄ (ext : Externals Frame Gray F T)
    (cfg : Config F) where
  -- `FramePacket.__post_init__`
  unfoldable pub frame_packet : FramePacket Frame F T → Result VideoError (Unit {0})
  frame_packet p =
      raise_if (p.clip_id == "") clip_required
      >> raise_if (ltb p.frame_index 1) frame_not_positive
      >> raise_if (not (f.is_finite p.fps) || p.fps <= f.of_nat 0) fps_not_positive
      >> raise_if (not (f.is_finite p.elapsed_seconds) || f.lt p.elapsed_seconds (f.of_nat 0))
          elapsed_negative
      >> check_shape (ext.frame_shape p.frame)
    where
      check_shape : List ℕ → Result VideoError (Unit {0})
      check_shape (h ∷ w ∷ channels ∷ []) =
          raise_if (ltb h 1 || ltb w 1 || not (channels == 3)) bad_shape
      check_shape _ = err bad_shape

  -- `_perceive`, with the check of its packet; the global motion has two values.
  unfoldable pub perceive :
      FramePacket Frame F T → Filters Gray F → Result VideoError (Filters Gray F × Perception F)
  perceive p s =
      let (flow, global_motion) =
        Flow.update ext.cv ext.geometry.np cfg.flow_settings p.frame s.flow in
      let ratio = if ltb 0 flow.last_total_points then flow.last_tracking_ratio else f.of_nat 1 in
      ext.detect p.frame >>= λ detections.
      raise_if (not (f.of_nat 0 <= ratio && ratio <= f.of_nat 1)) bad_ratio
      >> ok (
        record s { flow = flow },
        record {
          global_motion = global_motion;
          flow_tracking_ratio = ratio;
          detections = detections;
        },
      )

  -- The check of the packet of `_track`, whose tracks are the active ones.
  unfoldable pub adopt_tracks :
      Filters Gray F
      → Option (Tracker Pixel F × List (Track Pixel))
      → Result VideoError (Filters Gray F × List (Track Pixel))
  adopt_tracks s none = err index_error
  adopt_tracks s (some (tracker, tracks)) =
      raise_if (repeats (map (λ (t : Track Pixel). t.track_id) tracks)) repeated_tracks
      >> ok (record s { tracker = tracker }, tracks)

  -- `_track`
  unfoldable pub track :
      Perception F → Filters Gray F → Result VideoError (Filters Gray F × List (Track Pixel))
  track p s = adopt_tracks s (
      Tracking.update ext.distance ext.argsort s.tracker
        (map (λ (d : Detection F). observation (as_observation d)) p.detections))

  abbrev pub points_of : List Pixel → List (Point F)
  points_of history = map (λ (p : Pixel). (ext.of_int p.0, ext.of_int p.1)) history

  unfoldable pub is_reliable : MaybeCalibration F → Perception F → Track Pixel → Bool
  is_reliable calibration p t =
      let speed_history = if is_some calibration then t.road_contact_history else t.history in
      is_speed_measurement_reliable ext.geometry.np (length speed_history)
        (recent_displacement_norms ext.geometry (points_of speed_history)) p.flow_tracking_ratio
        t.recovered_after_gap cfg.min_flow_tracking_ratio cfg.recovery_skip_gap

  unfoldable pub candidate_speed :
      MaybeCalibration F → Perception F → Track Pixel → Result VideoError (Option F)
  candidate_speed calibration p t =
      let speed_history = if is_some calibration then t.road_contact_history else t.history in
      if is_reliable calibration p t
      then lift_plan (
          estimate_speed ext.geometry default_settings (points_of speed_history) cfg.fps
            cfg.frame_height (some p.global_motion) (some t.vehicle_type) calibration)
      else ok none

  -- The rest of a round of `_measure_motion`, once the candidate speed is known.
  unfoldable pub observe_candidate :
      MaybeCalibration F
      → Bool
      → Perception F
      → Track Pixel
      → Option F
      → Filters Gray F
      → Filters Gray F × TrackAnnotation F
  observe_candidate calibration skip p t speed s =
      let reliable = is_reliable calibration p t in
      let stats = motion_stats ext.geometry (points_of t.history) in
      let (votes, stationary) =
        Stationary.update cfg.motion_settings s.votes t.track_id stats speed in
      let (speeds, smoothed) =
        if stationary || not reliable
        then (Smoothing.remove_track s.speeds t.track_id, none)
        else Smoothing.update ext.geometry.np cfg.window_size s.speeds t.track_id speed none in
      let seen : Observation F = record {
        smoothed_speed = smoothed;
        reliable = reliable;
        near_zero_motion = is_near_zero_motion stats;
        stationary_confirmed = stationary;
        recovered_gap = t.recovered_after_gap;
        flow_tracking_ratio = p.flow_tracking_ratio;
      } in
      let (accumulator, marked) =
        if skip then (s.accumulator, t) else observe_track t seen s.accumulator in
      (
        record s {
          tracker = record (s.tracker) { tracks = replace_track marked s.tracker.tracks };
          speeds = speeds;
          votes = votes;
          accumulator = accumulator;
        },
        record {
          bbox = nearest_detection_bbox t p.detections;
          vehicle_type = t.vehicle_type;
          track_id = t.track_id;
          speed = smoothed;
          stationary = stationary;
        },
      )

  unfoldable pub measure_tracks :
      MaybeCalibration F
      → Bool
      → Perception F
      → List (Track Pixel)
      → Filters Gray F
      → Result VideoError (Filters Gray F × List (TrackAnnotation F))
  measure_tracks calibration skip p [] s = ok (s, [])
  measure_tracks calibration skip p (t ∷ ts) s = candidate_speed calibration p t >>= λ speed.
      let (s', annotation) = observe_candidate calibration skip p t speed s in
      measure_tracks calibration skip p ts s' >>= λ rest. ok (rest.0, annotation ∷ rest.1)

  -- `_measure_motion`, with the check of its packet.
  unfoldable pub measure_motion :
      MaybeCalibration F
      → Bool
      → Perception F
      → List (Track Pixel)
      → Filters Gray F
      → Result VideoError (Filters Gray F × List (TrackAnnotation F))
  measure_motion calibration skip p tracks s =
      measure_tracks calibration skip p tracks (forget_tracks s.tracker.last_pruned_track_ids s)
      >>= λ (s', annotations).
          let ids = map (λ (a : TrackAnnotation F). a.track_id) annotations in
          let track_ids = map (λ (t : Track Pixel). t.track_id) tracks in
          raise_if (repeats ids) repeated_annotations
          >> raise_if (not (all_within ids track_ids && all_within track_ids ids))
              foreign_annotations
          >> ok (s', annotations)

  -- The count of a kind on the screen.
  abbrev pub hud_count : Accumulator F → String → String × ℕ
  hud_count a kind = (kind, count_of kind a.cumulative_counts + count_of kind a.minute_counts)

  unfoldable pub build_hud_snapshot :
      Accumulator F → Option (Prediction F) → F → Bool → HudSnapshot F
  build_hud_snapshot a prediction elapsed_seconds inference_enabled =
      let reliable_count = length a.reliable_speed_track_ids in
      let rejected_count =
        length (difference a.rejected_speed_track_ids a.reliable_speed_track_ids) in
      let quality_attempts = reliable_count + rejected_count in
      record {
        elapsed_seconds = elapsed_seconds;
        cumulative_counts =
            map (hud_count a) ("car" ∷ "truck" ∷ "bus" ∷ "motorcycle" ∷ "bicycle" ∷ []);
        average_speed =
            if is_empty a.minute_speeds
            then none
            else some (
                robust_speed_summary ext.geometry.np cfg.trim_ratio cfg.outlier_sigma
                  a.minute_speeds);
        inference_enabled = inference_enabled;
        state = elim prediction [ none ↦ none | some p ↦ some p.state ];
        confidence = elim prediction [ none ↦ none | some p ↦ some p.confidence ];
        evidence = elim prediction [ none ↦ none | some p ↦ p.evidence ];
        incident_candidate = elim prediction [ none ↦ false | some p ↦ p.incident_candidate ];
        measurement_quality =
            if quality_attempts == 0
            then none
            else some (f.div (f.of_nat reliable_count) (f.of_nat quality_attempts));
      }

  unfoldable pub draw_all : List (TrackAnnotation F) → Frame → Frame
  draw_all [] frame = frame
  draw_all (a ∷ annotations) frame = draw_all annotations (ext.draw_track_annotation a frame)

  -- `_render`: the frame that is written.
  unfoldable pub render :
      FramePacket Frame F T
      → List (TrackAnnotation F)
      → Accumulator F
      → Option (Prediction F)
      → Frame
  render p annotations a latest =
      ext.render_hud
        (build_hud_snapshot a latest p.elapsed_seconds (is_some ext.prediction_provider))
        (draw_all annotations p.frame)
