-- ===== src/Pipeline/Fresh.antt =====
-- Nothing passes from view to view in a session of vaaet-core/src/vaaet/vision/pipeline.py.
use vaaet.Prelude.{
  if◌then◌else◌, is_some, All, ok, ◌==◌, ℕ, ◌+◌, ◌%◌, ◌≡◌, sym, ◌∙◌, subst, Bool, true, false, not,
  ◌||◌, Option, some, List, [], ◌∷◌, ◌++◌, nat_key, string_key,
}
use vaaet.Float.{FloatOps}
use vaaet.Pipeline.{Filters, new_session, Externals, Config, Session, TimedRecord}
use vaaet.Pipeline.Control.{
  IsProcessed, processed, IsStep, inside, completing, IsViewed, stayed, changed,
  apply_view_plan-IsViewed, run_from-induction,
}
use vaaet.Pipeline.Isolation.{IsClear, filter_frame-skipped, discard-IsClear, rollover-IsClear}
use vaaet.Pipeline.Minutes.{
  drop_minute, publish_record, add_context, add_classification, with_accumulator,
}
use vaaet.Pipeline.Completed.{IsCompleted, dropped, published, complete_minute-IsCompleted}
use vaaet.Pipeline.Run.{Progressed, run_from}
use vaaet.Pipeline.Views.{
  continuity_id, starts_minute, change_view, enter_view, leave_view, stay_in_view,
  reset_for_view_transition, reset_filters,
}
use vaaet.Telemetry.{discard_minute}
use vaaet.ViewPlan.{VideoViewPlan}
use vaaet.ViewPlan.Calibration.{CalibrationReference}

abbrev pub IsOf : {F T : Type 0} → Config F → ℕ → TimedRecord F T → Type 0
IsOf cfg sequence r = r.telemetry.continuity_id ≡ continuity_id cfg sequence

module _ {Gray F T : Type 0} (cfg : Config F) where
  -- The context of the next prediction comes from the current view, and while a minute is skipped
  -- the accumulator holds nothing.
  pub record IsIsolated (s : Session Gray F T) : Type 0 where
    pub context : All (IsOf cfg s.continuity_sequence) s.prediction_context_records
    pub clear : s.skip_current_minute ≡ true → IsClear s.filters.accumulator

module _ {Gray F T : Type 0} ⦃f : FloatOps F⦄ (cfg : Config F) where
  leave-IsIsolated :
      (i : ℕ) (s : Session Gray F T) → IsIsolated cfg s → IsIsolated cfg (leave_view cfg i s)
  unfolding leave_view reset_for_view_transition reset_filters
  leave-IsIsolated i s h = record {
    context = tt;
    clear = λ skipped. cleared (starts_minute cfg i) skipped;
  }
    where
      cleared :
          (b : Bool)
          → (not b || s.skip_current_minute) ≡ true
          → IsClear
              (if b then reset_filters s.filters else record (reset_filters s.filters) {
                accumulator = discard_minute (reset_filters s.filters).accumulator;
              }).accumulator
      cleared true skipped = h.clear skipped
      cleared false skipped = discard-IsClear s.filters.accumulator

  viewed-IsIsolated :
      (plan : VideoViewPlan (CalibrationReference F)) (i : ℕ) (s viewed : Session Gray F T)
      → IsIsolated cfg s
      → IsViewed cfg plan s i viewed
      → IsIsolated cfg viewed
  unfolding stay_in_view change_view enter_view
  viewed-IsIsolated plan i s viewed h (stayed v index here opened) =
      subst (IsIsolated cfg) (sym opened) (record { context = h.context; clear = h.clear })
  viewed-IsIsolated plan i s viewed h (changed v segment calibration index other opened) =
      subst (IsIsolated cfg) (sym opened) (entered (is_some s.active_view_index))
    where
      entered :
          (b : Bool)
          → IsIsolated cfg
              (enter_view cfg i v segment calibration (if b then leave_view cfg i s else s))
      entered true =
          let left = leave-IsIsolated i s h in record { context = left.context; clear = left.clear }
      entered false = record { context = h.context; clear = h.clear }

All-append_one {ℓ} :
    {A : Type 0} (P : A → Type ℓ) (xs : List A) (x : A) → All P xs → P x → All P (xs ++ x ∷ [])
All-append_one P [] x h p = (p, tt)
All-append_one P (y ∷ xs) x h p = (h.0, All-append_one P xs x h.1 p)

module _ {Frame Gray F T : Type 0} ⦃f : FloatOps F⦄ (ext : Externals Frame Gray F T)
    (cfg : Config F) where
  completed-IsIsolated :
      (time : T) (s s' : Session Gray F T)
      → IsIsolated cfg s
      → IsCompleted ext cfg time s s'
      → IsIsolated cfg s' × IsClear s'.filters.accumulator
  unfolding add_classification add_context publish_record with_accumulator drop_minute
  completed-IsIsolated time s s' h (dropped skipped same) =
      let clear = discard-IsClear s.filters.accumulator in
      subst (λ x. IsIsolated cfg x × IsClear x.filters.accumulator) (sym same)
        (record { context = h.context; clear = λ _. clear }, clear)
  completed-IsIsolated time s s' h (published r prediction kept timed named same) =
      let clear = rollover-IsClear s.filters.accumulator in
      subst (λ x. IsIsolated cfg x × IsClear x.filters.accumulator) (sym same)
        (record { context = extended (is_some cfg.view_plan); clear = λ _. clear }, clear)
    where
      extended :
          (b : Bool)
          → All
              (IsOf cfg s.continuity_sequence)
              (if b then s.prediction_context_records ++ r ∷ [] else s.prediction_context_records)
      extended true =
          All-append_one (IsOf cfg s.continuity_sequence) s.prediction_context_records r h.context
            named
      extended false = h.context

  module _ (plan : VideoViewPlan (CalibrationReference F))
      (planned : cfg.view_plan ≡ some plan) where
    processed-IsIsolated :
        (n : ℕ) (s mid : Session Gray F T) (frame : Frame)
        → IsIsolated cfg s
        → IsProcessed ext cfg s n frame mid
        → IsIsolated cfg mid
    processed-IsIsolated n s mid frame h
          (processed viewed filters rendered next applied filtered same) =
        let v =
          viewed-IsIsolated cfg plan n s viewed h
            (apply_view_plan-IsViewed cfg plan s viewed n _ _ planned applied) in
        subst (IsIsolated cfg) (sym same) (record {
          context = v.context;
          clear = λ skipped.
              filter_frame-skipped ext cfg _ viewed filters rendered filtered skipped
                (v.clear skipped);
        })

    -- After a number of frames.
    pub record IsFresh (n : ℕ) (s : Session Gray F T) : Type 0 where
      pub isolated : IsIsolated cfg s
      pub between : (n % cfg.frames_per_minute == 0) ≡ true → IsClear s.filters.accumulator

    step-IsFresh :
        (n : ℕ) (s s' : Session Gray F T) (frame : Frame)
        → IsFresh n s
        → IsStep ext cfg s (n + 1) frame s'
        → IsFresh (n + 1) s'
    step-IsFresh n s s' frame h (inside done more) = record {
      isolated = processed-IsIsolated (n + 1) s s' frame h.isolated done;
      between = λ last. let impossible : false ≡ true = sym more ∙ last in absurd (cc);
    }
    step-IsFresh n s s' frame h (completing mid done last ended) =
        let (isolated, clear) =
          completed-IsIsolated _ mid s' (processed-IsIsolated (n + 1) s mid frame h.isolated done)
            (complete_minute-IsCompleted ext cfg _ mid s' ended) in
        record { isolated = isolated; between = λ _. clear }

    -- While the loop of a run goes on, and at its end: the records that the next prediction is
    -- given all bear the identifier of the current view, nothing of a minute is counted while it is
    -- skipped, and at the border of two minutes nothing is counted yet.
    pub run_from-IsFresh :
        (filters : Filters Gray F) (max_frames : Option ℕ) (frames : List Frame)
        (p : Progressed Frame Gray F T)
        → IsClear filters.accumulator
        → run_from ext cfg max_frames frames
            (record { session = new_session filters; frames_processed = 0; written = [] })
          ≡ ok p
        → IsFresh p.frames_processed p.session
    unfolding new_session
    run_from-IsFresh filters max_frames frames p clear h =
        run_from-induction ext cfg IsFresh max_frames step-IsFresh frames _ p
          (record { isolated = record { context = tt; clear = λ _. clear }; between = λ _. clear })
          h
