-- ===== src/Pipeline/Control.antt =====
-- What the steps of vaaet-core/src/vaaet/vision/pipeline.py leave of a session, taken apart: the filters
-- change only the filters, and a change of view is one of four cases.
use vaaet.Prelude.{
  Option-cases, get_elem?, Result, ok, err, ◌>>◌, raise_if, ◌==◌, nat_key, option_eq, ℕ, ◌+◌, ◌%◌,
  ◌≡◌, sym, ap, ◌∙◌, subst, inl, inr, true, false, not, Option, none, some, List, [], ◌∷◌, arith,
  bind-eq-ok, if-eq-ok, ok-injective, string_key,
}
use vaaet.Float.{FloatOps}
use vaaet.Pipeline.{Externals, Config, Filters, Session}
use vaaet.Pipeline.Frame.{frame_packet}
use vaaet.Pipeline.Packets.{lift_plan}
use vaaet.Pipeline.Views.{apply_plan, apply_view_plan, change_view, stay_in_view}
use vaaet.Pipeline.Minutes.{complete_minute}
use vaaet.Pipeline.Run.{
  Progressed, filter_frame, process_frame, step_frame, run_from, is_limit, height_of, width_of,
  packet_of, elapsed_of,
}
use vaaet.ViewPlan.{VideoViewPlan, VideoViewSegment, CameraCalibration, segment_index, resolve}
use vaaet.ViewPlan.Calibration.{CalibrationReference}

pub lift_plan-ok : {A : Type 0} (m : Result _ A) (x : A) → lift_plan m ≡ ok x → m ≡ ok x
unfolding lift_plan
lift_plan-ok (ok y) x h = cc
lift_plan-ok (err e) x h = cc

module _ {Frame Gray F T : Type 0} ⦃f : FloatOps F⦄ (ext : Externals Frame Gray F T)
    (cfg : Config F) where
  -- A frame that was processed: the view is applied, then only the filters and the number of the
  -- next frame change.
  pub data IsProcessed (s : Session Gray F T) (i : ℕ) (frame : Frame) (s' : Session Gray F T)
      : Type 0 where
    processed :
        (viewed : Session Gray F T) (filters : Filters Gray F) (rendered : Frame)
        → i ≡ s.next_frame_index
        → apply_view_plan cfg i (height_of ext cfg frame) (width_of ext cfg frame) s ≡ ok viewed
        → filter_frame ext cfg (packet_of ext cfg i frame) viewed ≡ ok (filters, rendered)
        → s' ≡ record viewed { filters = filters; next_frame_index = viewed.next_frame_index + 1 }
        → IsProcessed s i frame s'

  process_frame-IsProcessed :
      (s s' : Session Gray F T) (i : ℕ) (frame rendered : Frame)
      → process_frame ext cfg (packet_of ext cfg i frame) s ≡ ok (s', rendered)
      → IsProcessed s i frame s'
  unfolding process_frame
  process_frame-IsProcessed s s' i frame rendered h =
      let (viewed, viewing, h1) =
        bind-eq-ok (_ >> apply_view_plan cfg i (height_of ext cfg frame) (width_of ext cfg frame) s)
          _ h in
      let (_, ordered, applied) =
        bind-eq-ok (raise_if (not (i == s.next_frame_index)) _) _ viewing in
      let ((filters, drawn), filtered, h2) =
        bind-eq-ok (filter_frame ext cfg (packet_of ext cfg i frame) viewed) _ h1 in
      let next : i == s.next_frame_index ≡ true = ground arith in
      processed viewed filters drawn ((nat_key.test_iff i s.next_frame_index).0 next) applied
        filtered (cc)

  -- A round of the loop: a frame that was processed and, at the end of a minute, completes it.
  pub data IsStep (s : Session Gray F T) (i : ℕ) (frame : Frame) (s' : Session Gray F T)
      : Type 0 where
    inside :
        IsProcessed s i frame s' → (i % cfg.frames_per_minute == 0) ≡ false → IsStep s i frame s'
    completing :
        (mid : Session Gray F T)
        → IsProcessed s i frame mid
        → (i % cfg.frames_per_minute == 0) ≡ true
        → complete_minute ext cfg (ext.time_at (elapsed_of ext cfg i)) mid ≡ ok s'
        → IsStep s i frame s'

  step_frame-IsStep :
      (s s' : Session Gray F T) (i : ℕ) (frame rendered : Frame)
      → step_frame ext cfg i frame s ≡ ok (s', rendered)
      → IsStep s i frame s'
  unfolding step_frame
  step_frame-IsStep s s' i frame rendered h =
      let (out, processing, h1) =
        bind-eq-ok
          (frame_packet ext cfg (packet_of ext cfg i frame)
            >> process_frame ext cfg (packet_of ext cfg i frame) s)
          _ h in
      let (_, _, here) =
        bind-eq-ok (frame_packet ext cfg (packet_of ext cfg i frame))
          (λ _. process_frame ext cfg (packet_of ext cfg i frame) s) processing in
      let step = process_frame-IsProcessed s out.0 i frame out.1 here in
      elim (if-eq-ok (i % cfg.frames_per_minute == 0) _ (ok out) h1) [
        | inl (last, completion) ↦
            let (done, completed, h2) =
              bind-eq-ok (complete_minute ext cfg (ext.time_at (elapsed_of ext cfg i)) out.0) _
                completion in
            let same : done ≡ s' =
              ap (λ (x : Session Gray F T × Frame). x.0) (ok-injective _ _ h2) in
            completing out.0 step last (completed ∙ ap ok same)
        | inr (within, after) ↦
            let same = ap (λ (x : Session Gray F T × Frame). x.0) (ok-injective _ _ after) in
            inside (subst (λ x. IsProcessed s i frame x) same step) within
      ]

  -- The loop keeps what each of its rounds keeps; it numbers the frames from the first on.
  pub run_from-induction :
      (P : ℕ → Session Gray F T → Type 0) (max_frames : Option ℕ)
      → ((n : ℕ) (s s' : Session Gray F T) (frame : Frame)
          → P n s
          → IsStep s (n + 1) frame s'
          → P (n + 1) s')
      → (frames : List Frame) (p p' : Progressed Frame Gray F T) → P p.frames_processed p.session
      → run_from ext cfg max_frames frames p ≡ ok p'
      → P p'.frames_processed p'.session
  unfolding run_from
  run_from-induction P max_frames keep [] p p' holds h =
      let same : p ≡ p' = cc in
      subst (λ (q : Progressed Frame Gray F T). P q.frames_processed q.session) same holds
  run_from-induction P max_frames keep (frame ∷ frames) p p' holds h =
      elim (if-eq-ok (is_limit max_frames p.frames_processed) (ok p) _ h) [
        | inl (limit, stop) ↦
            subst (λ (q : Progressed Frame Gray F T). P q.frames_processed q.session)
              (ok-injective p p' stop) holds
        | inr (more, running) ↦
            let (out, stepped, rest) =
              bind-eq-ok (step_frame ext cfg (p.frames_processed + 1) frame p.session) _ running in
            run_from-induction P max_frames keep frames _ p'
              (keep p.frames_processed p.session out.0 frame holds
                (step_frame-IsStep p.session out.0 (p.frames_processed + 1) frame out.1 stepped))
              rest
      ]

-- The cases of a frame under a plan.
module _ {Gray F T : Type 0} ⦃f : FloatOps F⦄ (cfg : Config F)
    (plan : VideoViewPlan (CalibrationReference F)) where
  pub data IsViewed (s : Session Gray F T) (i : ℕ) (viewed : Session Gray F T) : Type 0 where
    stayed :
        (v : ℕ)
        → segment_index plan i ≡ ok v
        → option_eq s.active_view_index (some v) ≡ true
        → viewed ≡ stay_in_view cfg i s
        → IsViewed s i viewed
    changed :
        (v : ℕ) (segment : VideoViewSegment)
        (calibration : CameraCalibration (CalibrationReference F))
        → segment_index plan i ≡ ok v
        → option_eq s.active_view_index (some v) ≡ false
        → viewed ≡ change_view cfg i v segment calibration s
        → IsViewed s i viewed

  pub apply_view_plan-IsViewed :
      (s viewed : Session Gray F T) (i height width : ℕ)
      → cfg.view_plan ≡ some plan
      → apply_view_plan cfg i height width s ≡ ok viewed
      → IsViewed s i viewed
  unfolding apply_view_plan apply_plan
  apply_view_plan-IsViewed s viewed i height width planned h =
      let h0 =
        sym (ap (λ o. elim o [ none ↦ ok s | some q ↦ apply_plan cfg q i height width s ]) planned)
        ∙ h in
      let (v, found, h1) = bind-eq-ok (lift_plan (segment_index plan i)) _ h0 in
      let (calibration, _, h2) = bind-eq-ok (lift_plan (resolve plan i width height)) _ h1 in
      let index = lift_plan-ok (segment_index plan i) v found in
      elim (if-eq-ok (option_eq s.active_view_index (some v)) _ _ h2) [
        | inl (same, here) ↦ stayed v index same (sym (ok-injective _ _ here))
        | inr (other, there) ↦ elim (Option-cases (get_elem? plan.segments v)) [
          | inl missing ↦ absurd (cc)
          | inr (segment, at) ↦
              let opened : change_view cfg i v segment calibration s ≡ viewed =
                ok-injective _ _ (rw at at there) in
              changed v segment calibration index other (sym opened)
        ]
      ]
