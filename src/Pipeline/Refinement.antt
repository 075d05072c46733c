-- ===== src/Pipeline/Refinement.antt =====
-- `run` of vaaet-core/src/vaaet/vision/pipeline.py publishes the minutes that Pipeline.Published describes.
use vaaet.Prelude.{
  ltb, if◌then◌else◌, ltb→lt, Bool-cases, All, ok, ◌==◌, nat_key, ℕ, suc, ◌+◌, ◌*◌, ◌/◌, ◌%◌, ◌≤◌,
  ◌<◌, String, ◌≡◌, refl, sym, ap, ◌∙◌, subst, inl, inr, true, false, Option, some, List, [], ◌∷◌,
  ◌++◌, arith, bind-eq-ok, positive, ok-injective, string_key,
}
use mathlib.Core.List.{append-nil}
use vaaet.Float.{FloatOps}
use vaaet.Pipeline.{new_session, check_session, Externals, Config, Session, TimedRecord}
use vaaet.Pipeline.Control.{
  IsProcessed, processed, IsStep, inside, completing, apply_view_plan-IsViewed, run_from-induction,
}
use vaaet.Pipeline.Completed.{IsCompleted, dropped, published, complete_minute-IsCompleted}
use vaaet.Pipeline.Following.{IsLocated, outside, within, viewed-IsFollowed}
use vaaet.Pipeline.Minutes.{
  drop_minute, publish_record, add_context, add_classification, with_accumulator,
}
use vaaet.Pipeline.Published.{
  is_crossed, is_crossed_zero, identity_of_minute, whole_minutes, identities, mod-add_mul,
  div-add_mul,
}
use vaaet.Pipeline.Run.{PipelineRunOutput, run, run_from, output_of, elapsed_of}
use vaaet.Pipeline.Views.{continuity_id}
use vaaet.ViewPlan.{VideoViewPlan, video_view_plan}
use vaaet.ViewPlan.Calibration.{CalibrationReference}
use vaaet.ViewPlan.Cover.{IsConstructed}
use vaaet.ViewPlan.Steps.{view}

identities-append :
    {F T : Type 0} (rs : List (TimedRecord F T)) (r : TimedRecord F T)
    → identities (rs ++ r ∷ []) ≡ identities rs ++ (r.record_time, r.telemetry.continuity_id) ∷ []
unfolding identities
identities-append [] r = refl
identities-append (x ∷ rs) r =
    ap (λ ids. (x.record_time, x.telemetry.continuity_id) ∷ ids) (identities-append rs r)

-- A minute ends behind its last frame.
pub minute-end : (q m r : ℕ) → r < m → ((q * m + r + 1) % m == 0) ≡ (r + 1 == m)
minute-end q m r h = elim (Bool-cases (r + 1 == m)) [
  | inl last ↦
      let is_last = (nat_key.test_iff (r + 1) m).0 last in
      let turned : q * m + r + 1 ≡ suc q * m + 0 = grind (arith, is_last) in
      let rest = mod-add_mul (suc q) m 0 (omega arith) in rw (last, turned, rest) refl
  | inr more ↦
      let later : r + 1 < m = elim (Bool-cases (ltb (r + 1) m)) [
        | inl less ↦ ltb→lt (r + 1) m less
        | inr not_less ↦ absurd (ground arith)
      ] in
      let shape : q * m + r + 1 ≡ q * m + (r + 1) = omega arith in
      let rest = mod-add_mul q m (r + 1) later in rw (more, shape, rest) (ground arith)
]

module _ {Frame Gray F T : Type 0} ⦃f : FloatOps F⦄ (ext : Externals Frame Gray F T)
    (cfg : Config F) (plan : VideoViewPlan (CalibrationReference F)) where
  -- Where a session is between frames: a number of whole minutes and of frames of the next.
  pub record IsAt (n : ℕ) (s : Session Gray F T) : Type 0 where
    pub minutes : ℕ
    pub frames : ℕ
    pub position : n ≡ minutes * cfg.frames_per_minute + frames
    pub below : frames < cfg.frames_per_minute
    pub published : identities s.records ≡ whole_minutes ext cfg plan minutes
    pub located : IsLocated plan n s
    pub skipping : s.skip_current_minute ≡ is_crossed cfg plan minutes frames

  -- A frame that was processed, seen from its minute.
  record IsThrough (q r n : ℕ) (s mid : Session Gray F T) : Type 0 where
    same_records : mid.records ≡ s.records
    active : mid.active_view_index ≡ some (view plan (n + 1))
    sequence : mid.continuity_sequence ≡ view plan (n + 1) + 1
    skipping : mid.skip_current_minute ≡ is_crossed cfg plan q (r + 1)

  module _ (planned : cfg.view_plan ≡ some plan) (accepted : video_view_plan plan ≡ ok tt)
      (constructed : All IsConstructed plan.segments) where
    processed-IsThrough :
        (n : ℕ) (s mid : Session Gray F T) (frame : Frame) (h : IsAt n s)
        → IsProcessed ext cfg s (n + 1) frame mid
        → IsThrough h.minutes h.frames n s mid
    processed-IsThrough n s mid frame h
          (processed viewed filters rendered next applied filtered same) =
        let followed =
          viewed-IsFollowed cfg plan accepted constructed h.minutes h.frames n s viewed h.position
            h.below h.located h.skipping
            (apply_view_plan-IsViewed cfg plan s viewed (n + 1) _ _ planned applied) in
        subst (λ x. IsThrough h.minutes h.frames n s x) (sym same)
          (record {
            same_records = followed.same_records;
            active = followed.active;
            sequence = followed.sequence;
            skipping = followed.skipping;
          })

    -- The end of a minute that a change of view has crossed.
    dropped-IsAt :
        (n : ℕ) (s mid : Session Gray F T) (h : IsAt n s)
        → h.frames + 1 ≡ cfg.frames_per_minute
        → IsThrough h.minutes h.frames n s mid
        → mid.skip_current_minute ≡ true
        → IsAt (n + 1) (drop_minute mid)
    unfolding drop_minute with_accumulator whole_minutes
    dropped-IsAt n s mid h last through skipped =
        let crossed : is_crossed cfg plan h.minutes cfg.frames_per_minute ≡ true =
          ap (is_crossed cfg plan h.minutes) (sym last) ∙ sym through.skipping ∙ skipped in
        let position = h.position in
        record {
          minutes = suc h.minutes;
          frames = 0;
          position = grind (arith, position, last);
          below = omega (arith, last);
          published =
              ap identities through.same_records
              ∙ h.published
              ∙ sym (append-nil (whole_minutes ext cfg plan h.minutes))
              ∙ ap
                  (λ b.
                    whole_minutes ext cfg plan h.minutes
                    ++ (if b then [] else identity_of_minute ext cfg plan h.minutes ∷ []))
                  (sym crossed);
          located = within (omega arith) through.active through.sequence;
          skipping = sym (is_crossed_zero cfg plan (suc h.minutes));
        }

    -- The end of a minute within one view.
    published-IsAt :
        (n : ℕ) (s mid s' : Session Gray F T) (h : IsAt n s) (r : TimedRecord F T)
        → h.frames + 1 ≡ cfg.frames_per_minute
        → IsThrough h.minutes h.frames n s mid
        → mid.skip_current_minute ≡ false
        → r.record_time ≡ ext.time_at (elapsed_of ext cfg (n + 1))
        → r.telemetry.continuity_id ≡ continuity_id cfg mid.continuity_sequence
        → s'.records ≡ mid.records ++ r ∷ []
        → s'.active_view_index ≡ mid.active_view_index
        → s'.continuity_sequence ≡ mid.continuity_sequence
        → s'.skip_current_minute ≡ mid.skip_current_minute
        → IsAt (n + 1) s'
    unfolding whole_minutes identity_of_minute
    published-IsAt n s mid s' h r last through kept timed named records active sequence skipping =
        let clear : is_crossed cfg plan h.minutes cfg.frames_per_minute ≡ false =
          ap (is_crossed cfg plan h.minutes) (sym last) ∙ sym through.skipping ∙ kept in
        let position = h.position in
        let frame : n + 1 ≡ suc h.minutes * cfg.frames_per_minute = grind (arith, position, last) in
        let time = timed ∙ ap (λ i. ext.time_at (elapsed_of ext cfg i)) frame in
        let name =
          named
          ∙ ap (continuity_id cfg) through.sequence
          ∙ ap (λ i. continuity_id cfg (view plan i + 1)) frame in
        record {
          minutes = suc h.minutes;
          frames = 0;
          position = omega (arith, frame);
          below = omega (arith, last);
          published =
              ap identities (records ∙ ap (λ rs. rs ++ r ∷ []) through.same_records)
              ∙ identities-append s.records r
              ∙ ap (λ ids. ids ++ (r.record_time, r.telemetry.continuity_id) ∷ []) h.published
              ∙ ap (λ (id : T × String). whole_minutes ext cfg plan h.minutes ++ id ∷ [])
                  (λ i. (time i, name i))
              ∙ ap
                  (λ b.
                    whole_minutes ext cfg plan h.minutes
                    ++ (if b then [] else identity_of_minute ext cfg plan h.minutes ∷ []))
                  (sym clear);
          located = within (omega arith) (active ∙ through.active) (sequence ∙ through.sequence);
          skipping = skipping ∙ kept ∙ sym (is_crossed_zero cfg plan (suc h.minutes));
        }

    completed-IsAt :
        (n : ℕ) (s mid s' : Session Gray F T) (h : IsAt n s)
        → h.frames + 1 ≡ cfg.frames_per_minute
        → IsThrough h.minutes h.frames n s mid
        → IsCompleted ext cfg (ext.time_at (elapsed_of ext cfg (n + 1))) mid s'
        → IsAt (n + 1) s'
    unfolding add_classification add_context publish_record with_accumulator
    completed-IsAt n s mid s' h last through (dropped skipped same) =
        subst (IsAt (n + 1)) (sym same) (dropped-IsAt n s mid h last through skipped)
    completed-IsAt n s mid s' h last through (published r prediction kept timed named same) =
        subst (IsAt (n + 1)) (sym same) (
          published-IsAt n s mid
            (add_classification r prediction (add_context ext cfg r (publish_record r mid))) h r
            last through kept timed named refl refl refl refl)

    inside-IsAt :
        (n : ℕ) (s mid : Session Gray F T) (h : IsAt n s)
        → (h.frames + 1 == cfg.frames_per_minute) ≡ false
        → IsThrough h.minutes h.frames n s mid
        → IsAt (n + 1) mid
    inside-IsAt n s mid h more through =
        let below = h.below in
        let position = h.position in
        record {
          minutes = h.minutes;
          frames = h.frames + 1;
          position = omega (arith, position);
          below = ground arith;
          published = ap identities through.same_records ∙ h.published;
          located = within (omega arith) through.active through.sequence;
          skipping = through.skipping;
        }

    step-IsAt :
        (n : ℕ) (s s' : Session Gray F T) (frame : Frame)
        → IsAt n s
        → IsStep ext cfg s (n + 1) frame s'
        → IsAt (n + 1) s'
    step-IsAt n s s' frame h step =
        let at_end : ((n + 1) % cfg.frames_per_minute == 0)
            ≡ (h.frames + 1 == cfg.frames_per_minute) =
          subst
            (λ i. ((i + 1) % cfg.frames_per_minute == 0) ≡ (h.frames + 1 == cfg.frames_per_minute))
            (sym h.position) (minute-end h.minutes cfg.frames_per_minute h.frames h.below) in
        elim step [
          | inside done more ↦
              inside-IsAt n s s' h (sym at_end ∙ more) (processed-IsThrough n s s' frame h done)
          | completing mid done last ended ↦
              completed-IsAt n s mid s' h
                ((nat_key.test_iff (h.frames + 1) cfg.frames_per_minute).0 (sym at_end ∙ last))
                (processed-IsThrough n s mid frame h done)
                (complete_minute-IsCompleted ext cfg _ mid s' ended)
        ]

    new-IsAt : (filters : _) → 1 ≤ cfg.frames_per_minute → IsAt 0 (new_session filters)
    unfolding new_session identities whole_minutes
    new-IsAt filters positive = record {
      minutes = 0;
      frames = 0;
      position = omega arith;
      below = positive;
      published = refl;
      located = outside refl refl refl;
      skipping = sym (is_crossed_zero cfg plan 0);
    }

    -- A run that returns has published, of its whole minutes and in their order, exactly those that
    -- no change of view crosses: each with the time of its last frame and with the identifier of
    -- continuity whose number is that of the view of all its frames, counted from 1. A remainder of
    -- frames at the end publishes nothing.
    pub run-whole_minutes :
        (filters : _) (max_frames : Option ℕ) (frames written : List Frame)
        (out : PipelineRunOutput F T)
        → check_session cfg ≡ ok tt
        → run ext cfg max_frames frames (new_session filters) ≡ ok (out, written)
        → identities out.telemetry_records
          ≡ whole_minutes ext cfg plan (out.frames_processed / cfg.frames_per_minute)
    unfolding run output_of check_session
    run-whole_minutes filters max_frames frames written out checked h =
        let (p, looped, ended) = bind-eq-ok (run_from ext cfg max_frames frames _) _ h in
        let same = ap (λ (x : PipelineRunOutput F T × List Frame). x.0) (ok-injective _ _ ended) in
        let positive : 1 ≤ cfg.frames_per_minute = ground arith in
        let at =
          run_from-induction ext cfg IsAt max_frames step-IsAt frames _ p
            (new-IsAt filters positive) looped in
        let count : p.frames_processed / cfg.frames_per_minute ≡ at.minutes =
          subst (λ i. i / cfg.frames_per_minute ≡ at.minutes) (sym at.position)
            (div-add_mul at.minutes cfg.frames_per_minute at.frames at.below) in
        subst
          (λ (x : PipelineRunOutput F T).
            identities x.telemetry_records
            ≡ whole_minutes ext cfg plan (x.frames_processed / cfg.frames_per_minute))
          same (at.published ∙ ap (whole_minutes ext cfg plan) (sym count))
