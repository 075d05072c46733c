-- ===== src/Pipeline/Run.antt =====
-- vaaet-core/src/vaaet/vision/pipeline.py: `process_frame` and `run`. A capture is the list of the
-- frames that it still gives, and the frames that the writer has received are a list.
use vaaet.Prelude.{
  leb, if◌then◌else◌, get_elem?, Result, ok, ◌>>=◌, ◌>>◌, raise_if, ◌==◌, ℕ, ◌+◌, ◌%◌, String, Bool,
  false, not, Option, none, some, List, [], ◌∷◌, ◌++◌, map, nat_key, string_key,
}
use vaaet.Float.{FloatOps}
use vaaet.Pipeline.{
  VideoError, Externals, Config, Filters, Progress, Session, TimedRecord, ClassificationRecord,
  not_next_frame,
}
use vaaet.Pipeline.Frame.{frame_packet, perceive, track, measure_motion, render}
use vaaet.Pipeline.Packets.{FramePacket}
use vaaet.Pipeline.Views.{apply_view_plan}
use vaaet.Pipeline.Minutes.{complete_minute}

-- `ViewSegmentReport`
pub record ViewSegmentReport : Type 0 where
  pub profile_id : String
  pub profile_revision : String
  pub start_frame : ℕ
  pub end_frame : ℕ
  pub valid_minutes : ℕ
  pub discarded_minutes : ℕ
  pub discard_reason : Option String

unfoldable pub report : {F : Type 0} → Progress F → ViewSegmentReport
report p = record {
  profile_id = p.calibration.profile_id;
  profile_revision = p.calibration.revision;
  start_frame = p.segment.start_frame;
  end_frame = p.end_frame;
  valid_minutes = p.valid_minutes;
  discarded_minutes = p.discarded_minutes;
  discard_reason = p.discard_reason;
}

-- `max_frames is not None and frames_processed >= max_frames`
unfoldable pub is_limit : Option ℕ → ℕ → Bool
is_limit none frames_processed = false
is_limit (some n) frames_processed = leb n frames_processed

-- What the loop of `run` leaves.
pub record Progressed (Frame Gray F T : Type 0) : Type 0 where
  pub session : Session Gray F T
  pub frames_processed : ℕ
  pub written : List Frame

pub record PipelineRunOutput (F T : Type 0) : Type 0 where
  pub telemetry_records : List (TimedRecord F T)
  pub classification_records : List (ClassificationRecord F T)
  pub frames_processed : ℕ
  pub view_segments : List ViewSegmentReport

module _ {Frame Gray F T : Type 0} ⦃f : FloatOps F⦄ (ext : Externals Frame Gray F T)
    (cfg : Config F) where
  -- `packet.frame.shape[:2]`
  abbrev pub height_of : Frame → ℕ
  height_of frame = elim (get_elem? (ext.frame_shape frame) 0) [ none ↦ 0 | some h ↦ h ]

  abbrev pub width_of : Frame → ℕ
  width_of frame = elim (get_elem? (ext.frame_shape frame) 1) [ none ↦ 0 | some w ↦ w ]

  -- The filters of `process_frame`, from `_perceive` to `_render`.
  unfoldable pub filter_frame :
      FramePacket Frame F T → Session Gray F T → Result VideoError (Filters Gray F × Frame)
  filter_frame p s = perceive ext cfg p s.filters >>= λ (perceived, perception).
      track ext cfg perception perceived >>= λ (tracked, tracks).
      measure_motion ext cfg s.active_calibration s.skip_current_minute perception tracks tracked
      >>= λ (measured, annotations).
          ok (measured, render ext cfg p annotations measured.accumulator s.latest_prediction)

  unfoldable pub process_frame :
      FramePacket Frame F T → Session Gray F T → Result VideoError (Session Gray F T × Frame)
  process_frame p s =
      raise_if (not (p.frame_index == s.next_frame_index)) not_next_frame
      >> apply_view_plan cfg p.frame_index (height_of p.frame) (width_of p.frame) s
      >>= λ viewed. filter_frame p viewed >>= λ (filters, rendered). ok (
        record viewed { filters = filters; next_frame_index = viewed.next_frame_index + 1 },
        rendered,
      )

  abbrev pub elapsed_of : ℕ → F
  elapsed_of frame_index = f.div (f.of_nat frame_index) cfg.fps

  abbrev pub packet_of : ℕ → Frame → FramePacket Frame F T
  packet_of frame_index frame = record {
    clip_id = cfg.clip_id;
    frame_index = frame_index;
    fps = cfg.fps;
    elapsed_seconds = elapsed_of frame_index;
    capture_time = ext.time_at (elapsed_of frame_index);
    frame = frame;
  }

  -- One round of the loop of `run`, behind the read: the session and the frame written.
  unfoldable pub step_frame :
      ℕ → Frame → Session Gray F T → Result VideoError (Session Gray F T × Frame)
  step_frame frame_index frame s =
      frame_packet ext cfg (packet_of frame_index frame)
      >> process_frame (packet_of frame_index frame) s
      >>= λ (after, rendered).
          if frame_index % cfg.frames_per_minute == 0
          then (complete_minute ext cfg (ext.time_at (elapsed_of frame_index)) after
              >>= λ completed. ok (completed, rendered))
          else ok (after, rendered)

  unfoldable pub run_from :
      Option ℕ
      → List Frame
      → Progressed Frame Gray F T
      → Result VideoError (Progressed Frame Gray F T)
  run_from max_frames [] p = ok p
  run_from max_frames (frame ∷ frames) p =
      let rest = step_frame (p.frames_processed + 1) frame p.session >>= λ (after, rendered).
      run_from max_frames frames (record {
        session = after;
        frames_processed = p.frames_processed + 1;
        written = p.written ++ rendered ∷ [];
      }) in
      if is_limit max_frames p.frames_processed then ok p else rest

  unfoldable pub output_of : Progressed Frame Gray F T → PipelineRunOutput F T
  output_of p = record {
    telemetry_records = p.session.records;
    classification_records = p.session.classification_records;
    frames_processed = p.frames_processed;
    view_segments = map report p.session.view_progress;
  }

  -- `run`, with the frames that it wrote.
  unfoldable pub run :
      Option ℕ
      → List Frame
      → Session Gray F T
      → Result VideoError (PipelineRunOutput F T × List Frame)
  run max_frames frames s =
      run_from max_frames frames (record { session = s; frames_processed = 0; written = [] })
      >>= λ p. ok (output_of p, p.written)
