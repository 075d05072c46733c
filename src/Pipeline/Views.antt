-- ===== src/Pipeline/Views.antt =====
-- vaaet-core/src/vaaet/vision/pipeline.py: `_apply_view_plan` and what a change of view resets.
use vaaet.Prelude.{
  if◌then◌else◌, is_some, length, get_elem?, Result, ok, err, ◌>>=◌, ◌==◌, option_eq, ℕ, ◌+◌, ◌-◌,
  ◌%◌, String, Bool, not, ◌||◌, none, some, List, [], ◌∷◌, ◌++◌, empty_map, nat_key, string_key,
}
use vaaet.Prelude.Text.{concat, four_digits}
use vaaet.Float.{FloatOps}
use vaaet.Motion.Flow as Flow
use vaaet.Motion.Stationary.{no_votes}
use vaaet.Pipeline.{VideoError, Config, Filters, Progress, Session, index_error}
use vaaet.Pipeline.Packets.{lift_plan}
use vaaet.Telemetry.{discard_minute}
use vaaet.Tracking as Tracking
use vaaet.ViewPlan.{CameraCalibration, VideoViewPlan, VideoViewSegment, segment_index, resolve}
use vaaet.ViewPlan.Calibration.{CalibrationReference}

-- `_starts_minute`
unfoldable pub starts_minute : {F : Type 0} → Config F → ℕ → Bool
starts_minute cfg frame_index = (frame_index - 1) % cfg.frames_per_minute == 0

-- `_current_continuity_id`
unfoldable pub continuity_id : {F : Type 0} → Config F → ℕ → String
continuity_id cfg sequence = concat (cfg.clip_id ∷ ":continuity-" ∷ four_digits sequence ∷ [])

-- The last entry of a list, changed.
unfoldable pub update_last : {A : Type 0} → (A → A) → List A → List A
update_last g [] = []
update_last g (x ∷ []) = g x ∷ []
update_last g (x ∷ y ∷ xs) = x ∷ update_last g (y ∷ xs)

abbrev pub new_progress :
    {F : Type 0} → ℕ → VideoViewSegment → CameraCalibration (CalibrationReference F) → Progress F
new_progress frame_index segment calibration = record {
  segment = segment;
  calibration = calibration;
  end_frame = frame_index;
  valid_minutes = 0;
  discarded_minutes = 0;
  discard_reason = none;
}

module _ {Gray F : Type 0} ⦃f : FloatOps F⦄ where
  unfoldable pub reset_filters : Filters Gray F → Filters Gray F
  reset_filters s = record s {
    tracker = Tracking.reset s.tracker;
    flow = Flow.reset s.flow;
    speeds = empty_map;
    votes = no_votes;
  }

module _ {Gray F T : Type 0} ⦃f : FloatOps F⦄ (cfg : Config F) where
  -- `_reset_for_view_transition`
  unfoldable pub reset_for_view_transition : Session Gray F T → Session Gray F T
  reset_for_view_transition s = record s {
    filters = reset_filters s.filters;
    latest_prediction = none;
    prediction_context_records = [];
  }

  -- What a change from an earlier view does before the new one is active.
  unfoldable pub leave_view : ℕ → Session Gray F T → Session Gray F T
  leave_view frame_index s =
      let after = reset_for_view_transition s in
      let starts = starts_minute cfg frame_index in
      record after {
        continuity_sequence = s.continuity_sequence + 1;
        filters =
            if starts
            then after.filters
            else record (after.filters) { accumulator = discard_minute after.filters.accumulator };
        skip_current_minute = not starts || s.skip_current_minute;
      }

  unfoldable pub enter_view :
      ℕ
      → ℕ
      → VideoViewSegment
      → CameraCalibration (CalibrationReference F)
      → Session Gray F T
      → Session Gray F T
  enter_view frame_index view segment calibration s = record s {
    active_view_index = some view;
    active_calibration = some calibration;
    view_progress = s.view_progress ++ new_progress frame_index segment calibration ∷ [];
    discarding_progress =
        if s.skip_current_minute then some (length s.view_progress) else s.discarding_progress;
  }

  unfoldable pub stay_in_view : ℕ → Session Gray F T → Session Gray F T
  stay_in_view frame_index s = record s {
    view_progress =
        update_last (λ (p : Progress F). record p { end_frame = frame_index }) s.view_progress;
  }

  unfoldable pub change_view :
      ℕ
      → ℕ
      → VideoViewSegment
      → CameraCalibration (CalibrationReference F)
      → Session Gray F T
      → Session Gray F T
  change_view frame_index view segment calibration s =
      enter_view frame_index view segment calibration
        (if is_some s.active_view_index then leave_view frame_index s else s)

  -- `_apply_view_plan` under a plan, for a frame of a height and a width.
  unfoldable pub apply_plan :
      VideoViewPlan (CalibrationReference F)
      → ℕ
      → ℕ
      → ℕ
      → Session Gray F T
      → Result VideoError (Session Gray F T)
  apply_plan plan frame_index height width s =
      lift_plan (segment_index plan frame_index) >>= λ view.
      lift_plan (resolve plan frame_index width height) >>= λ calibration.
      if option_eq s.active_view_index (some view)
      then ok (stay_in_view frame_index s)
      else elim (get_elem? plan.segments view) [
        | none ↦ err index_error
        | some segment ↦ ok (change_view frame_index view segment calibration s)
      ]

  unfoldable pub apply_view_plan :
      ℕ → ℕ → ℕ → Session Gray F T → Result VideoError (Session Gray F T)
  apply_view_plan frame_index height width s = elim cfg.view_plan [
    | none ↦ ok s
    | some plan ↦ apply_plan plan frame_index height width s
  ]
