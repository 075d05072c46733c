-- ===== src/Pipeline/Tally.antt =====
-- The frames, minutes and reports that `run` of vaaet-core/src/vaaet/vision/pipeline.py gives back.
use vaaet.Prelude.{
  length, length-append, ok, ◌==◌, nat_key, ℕ, ◌+◌, ◌*◌, ◌/◌, ◌%◌, ◌≤◌, ◌<◌, ◌≡◌, refl, sym, ap,
  ◌∙◌, subst, ◌⊎◌, inl, inr, false, Option, none, some, List, [], ◌∷◌, map, arith, bind-eq-ok,
  positive, ok-injective, string_key,
}
use vaaet.Float.{FloatOps}
use vaaet.Pipeline.{new_session, check_session, Externals, Config, Session, Progress}
use vaaet.Pipeline.Control.{
  IsProcessed, processed, IsStep, inside, completing, apply_view_plan-IsViewed, run_from-induction,
}
use vaaet.Pipeline.Minutes.{publish_record, add_context, add_classification, with_accumulator}
use vaaet.Pipeline.Published.{div-add_mul}
use vaaet.Pipeline.Refinement.{minute-end}
use vaaet.Pipeline.Run.{
  PipelineRunOutput, run, run_from, output_of, elapsed_of, report, ViewSegmentReport,
}
use vaaet.ViewPlan.{VideoViewPlan}
use vaaet.ViewPlan.Calibration.{CalibrationReference}
use vaaet.Pipeline.Limit.{limited, run-limited}
use vaaet.Pipeline.Completed.{IsCompleted, dropped, published, complete_minute-IsCompleted}
use vaaet.Pipeline.Counting.{
  IsBegun, IsSummed, sum_of, valid_total, discarded_total, viewed-counts, dropped-counts,
  published-counts,
}

module _ {Frame Gray F T : Type 0} ⦃f : FloatOps F⦄ (ext : Externals Frame Gray F T)
    (cfg : Config F) (plan : VideoViewPlan (CalibrationReference F)) where
  completed-counts :
      (minutes : ℕ) (time : T) (s s' : Session Gray F T)
      → IsBegun s
      → IsSummed minutes s
      → IsCompleted ext cfg time s s'
      → IsBegun s' × IsSummed (minutes + 1) s'
  unfolding add_classification add_context publish_record with_accumulator
  completed-counts minutes time s s' begun h (dropped skipped same) =
      subst (λ x. IsBegun x × IsSummed (minutes + 1) x) (sym same)
        (dropped-counts cfg minutes s begun h skipped)
  completed-counts minutes time s s' begun h (published r prediction kept timed named same) =
      subst (λ x. IsBegun x × IsSummed (minutes + 1) x) (sym same)
        (published-counts cfg minutes s
          (add_classification r prediction (add_context ext cfg r (publish_record r s))) r begun h
          kept refl refl (at_most_one prediction) refl)
    where
      at_most_one :
          (asked : _)
          → length
              (add_classification r asked
                (add_context ext cfg r (publish_record r s))).classification_records
            ≤ length s.classification_records + 1
      at_most_one none = omega arith
      at_most_one (some p) = omega (arith, length-append s.classification_records (_ ∷ []))

  -- A session between frames.
  pub record IsTallied (n : ℕ) (s : Session Gray F T) : Type 0 where
    pub minutes : ℕ
    pub frames : ℕ
    pub position : n ≡ minutes * cfg.frames_per_minute + frames
    pub below : frames < cfg.frames_per_minute
    pub summed : IsSummed minutes s
    pub ready : (s.active_view_index ≡ none) ⊎ IsBegun s

  module _ (planned : cfg.view_plan ≡ some plan) where
    processed-counts :
        (n : ℕ) (s mid : Session Gray F T) (frame : Frame) (h : IsTallied n s)
        → IsProcessed ext cfg s (n + 1) frame mid
        → IsBegun mid × IsSummed h.minutes mid
    processed-counts n s mid frame h
          (processed viewed filters rendered next applied filtered same) =
        let (begun, summed) =
          viewed-counts cfg plan h.minutes (n + 1) s viewed h.summed h.ready
            (apply_view_plan-IsViewed cfg plan s viewed (n + 1) _ _ planned applied) in
        subst (λ x. IsBegun x × IsSummed h.minutes x) (sym same)
          (
            record { some_view = begun.some_view; pointed = begun.pointed },
            record {
              valid = summed.valid;
              accounted = summed.accounted;
              classified = summed.classified;
            },
          )

    step-IsTallied :
        (n : ℕ) (s s' : Session Gray F T) (frame : Frame)
        → IsTallied n s
        → IsStep ext cfg s (n + 1) frame s'
        → IsTallied (n + 1) s'
    step-IsTallied n s s' frame h step =
        let position = h.position in
        let below = h.below in
        let at_end : ((n + 1) % cfg.frames_per_minute == 0)
            ≡ (h.frames + 1 == cfg.frames_per_minute) =
          subst
            (λ i. ((i + 1) % cfg.frames_per_minute == 0) ≡ (h.frames + 1 == cfg.frames_per_minute))
            (sym h.position) (minute-end h.minutes cfg.frames_per_minute h.frames h.below) in
        elim step [
          | inside done more ↦
              let (begun, summed) = processed-counts n s s' frame h done in
              let not_last : (h.frames + 1 == cfg.frames_per_minute) ≡ false = sym at_end ∙ more in
              record {
                minutes = h.minutes;
                frames = h.frames + 1;
                position = omega (arith, position);
                below = ground arith;
                summed = summed;
                ready = inr begun;
              }
          | completing mid done last ended ↦
              let (begun, summed) = processed-counts n s mid frame h done in
              let (begun', summed') =
                completed-counts h.minutes (ext.time_at (elapsed_of ext cfg (n + 1))) mid s' begun
                  summed (complete_minute-IsCompleted ext cfg _ mid s' ended) in
              let full =
                (nat_key.test_iff (h.frames + 1) cfg.frames_per_minute).0 (sym at_end ∙ last) in
              record {
                minutes = h.minutes + 1;
                frames = 0;
                position = grind (arith, position, full);
                below = omega (arith, full);
                summed = summed';
                ready = inr begun';
              }
        ]

    new-IsTallied : (filters : _) → 1 ≤ cfg.frames_per_minute → IsTallied 0 (new_session filters)
    unfolding new_session sum_of
    new-IsTallied filters positive = record {
      minutes = 0;
      frames = 0;
      position = omega arith;
      below = positive;
      summed = record { valid = refl; accounted = refl; classified = omega arith };
      ready = inl refl;
    }

    sum-report_valid :
        (ps : List (Progress F))
        → sum_of (λ (v : ViewSegmentReport). v.valid_minutes) (map report ps) ≡ valid_total ps
    unfolding sum_of report
    sum-report_valid [] = refl
    sum-report_valid (p ∷ ps) = ap (λ i. p.valid_minutes + i) (sum-report_valid ps)

    sum-report_discarded :
        (ps : List (Progress F))
        → sum_of (λ (v : ViewSegmentReport). v.discarded_minutes) (map report ps)
          ≡ discarded_total ps
    unfolding sum_of report
    sum-report_discarded [] = refl
    sum-report_discarded (p ∷ ps) = ap (λ i. p.discarded_minutes + i) (sum-report_discarded ps)

    -- The output of a run.
    pub record IsBalanced (total : ℕ) (out : PipelineRunOutput F T) : Type 0 where
      pub frames : out.frames_processed ≡ total
      pub valid :
          sum_of (λ (v : ViewSegmentReport). v.valid_minutes) out.view_segments
          ≡ length out.telemetry_records
      pub accounted :
          length out.telemetry_records
            + sum_of (λ (v : ViewSegmentReport). v.discarded_minutes) out.view_segments
          ≡ total / cfg.frames_per_minute
      pub classified : length out.classification_records ≤ length out.telemetry_records

    -- A run that returns has processed and written all the frames there are, or the maximum of them.
    -- Under a plan the reports of its views add up: their valid minutes are its records of
    -- telemetry, those and the discarded minutes are all whole minutes of the frames, and no more
    -- minutes are classified than published.
    pub run-IsBalanced :
        (filters : _) (max_frames : Option ℕ) (frames written : List Frame)
        (out : PipelineRunOutput F T)
        → check_session cfg ≡ ok tt
        → run ext cfg max_frames frames (new_session filters) ≡ ok (out, written)
        → (length written ≡ limited max_frames (length frames))
          × IsBalanced (limited max_frames (length frames)) out
    unfolding run output_of check_session
    run-IsBalanced filters max_frames frames written out checked h =
        let (p, looped, ended) = bind-eq-ok (run_from ext cfg max_frames frames _) _ h in
        let same = ap (λ (x : PipelineRunOutput F T × List Frame). x.0) (ok-injective _ _ ended) in
        let positive : 1 ≤ cfg.frames_per_minute = ground arith in
        let at =
          run_from-induction ext cfg IsTallied max_frames step-IsTallied frames _ p
            (new-IsTallied filters positive) looped in
        let count : p.frames_processed / cfg.frames_per_minute ≡ at.minutes =
          subst (λ i. i / cfg.frames_per_minute ≡ at.minutes) (sym at.position)
            (div-add_mul at.minutes cfg.frames_per_minute at.frames at.below) in
        let (count_of_frames, wrote) = run-limited ext cfg max_frames frames written _ out h in
        let all : p.frames_processed ≡ limited max_frames (length frames) =
          ap (λ (x : PipelineRunOutput F T). x.frames_processed) same ∙ count_of_frames in
        (
          wrote,
          subst (IsBalanced (limited max_frames (length frames))) same (record {
            frames = all;
            valid = sum-report_valid p.session.view_progress ∙ at.summed.valid;
            accounted =
                ap (λ i. length p.session.records + i)
                  (sum-report_discarded p.session.view_progress)
                ∙ at.summed.accounted
                ∙ sym count
                ∙ ap (λ i. i / cfg.frames_per_minute) all;
            classified = at.summed.classified;
          }),
        )
