-- ===== src/Pipeline/Following.antt =====
-- How a session of vaaet-core/src/vaaet/vision/pipeline.py follows the views of its plan.
use vaaet.Prelude.{
  if◌then◌else◌, is_some, All, ok, ◌==◌, nat_key, option_eq, ℕ, zero, suc, ◌+◌, ◌*◌, ◌≤◌, ◌<◌, ◌≡◌,
  refl, sym, ap, ◌∙◌, subst, ◌≢◌, inl, inr, Bool, true, false, not, ◌||◌, none, some, arith,
  option_eq_iff, beq-false, ok-injective, string_key,
}
use vaaet.Float.{FloatOps}
use vaaet.Pipeline.{Config, Session}
use vaaet.Pipeline.Control.{IsViewed, stayed, changed}
use vaaet.Pipeline.Published.{
  is_crossed, starts_minute_mod, is_crossed_one, is_crossed_zero, is_crossed-suc,
}
use vaaet.Pipeline.Views.{
  change_view, enter_view, leave_view, stay_in_view, reset_for_view_transition, starts_minute,
}
use vaaet.ViewPlan.{
  VideoViewPlan, video_view_plan, VideoViewSegment, CameraCalibration, segment_index,
}
use vaaet.ViewPlan.Calibration.{CalibrationReference}
use vaaet.ViewPlan.Cover.{IsConstructed}
use vaaet.ViewPlan.Steps.{view, view-one, view-step, segment_index-view}

-- Where a session is after a number of frames: in no view yet, or in that of the last frame.
pub data IsLocated {Gray F T : Type 0} (plan : VideoViewPlan (CalibrationReference F)) (n : ℕ)
    (s : Session Gray F T) : Type 0 where
  outside : n ≡ 0 → s.active_view_index ≡ none → s.continuity_sequence ≡ 1 → IsLocated plan n s
  within :
      1 ≤ n
      → s.active_view_index ≡ some (view plan n)
      → s.continuity_sequence ≡ view plan n + 1
      → IsLocated plan n s

module _ {Gray F T : Type 0} ⦃f : FloatOps F⦄ (cfg : Config F)
    (plan : VideoViewPlan (CalibrationReference F)) where
  pub change-first :
      (s : Session Gray F T) (i v : ℕ) (segment : VideoViewSegment)
      (calibration : CameraCalibration (CalibrationReference F))
      → s.active_view_index ≡ none
      → change_view cfg i v segment calibration s ≡ enter_view cfg i v segment calibration s
  unfolding change_view
  change-first s i v segment calibration h =
      ap (λ b. enter_view cfg i v segment calibration (if is_some b then leave_view cfg i s else s))
        h

  pub change-next :
      (s : Session Gray F T) (i v w : ℕ) (segment : VideoViewSegment)
      (calibration : CameraCalibration (CalibrationReference F))
      → s.active_view_index ≡ some w
      → change_view cfg i v segment calibration s
        ≡ enter_view cfg i v segment calibration (leave_view cfg i s)
  unfolding change_view
  change-next s i v w segment calibration h =
      ap (λ b. enter_view cfg i v segment calibration (if is_some b then leave_view cfg i s else s))
        h

-- What a frame makes of the view, from a position in its minute.
pub record IsFollowed {Gray F T : Type 0} (cfg : Config F)
    (plan : VideoViewPlan (CalibrationReference F)) (q r n : ℕ) (s viewed : Session Gray F T)
    : Type 0 where
  pub same_records : viewed.records ≡ s.records
  pub active : viewed.active_view_index ≡ some (view plan (n + 1))
  pub sequence : viewed.continuity_sequence ≡ view plan (n + 1) + 1
  pub skipping : viewed.skip_current_minute ≡ is_crossed cfg plan q (r + 1)

module _ {F : Type 0} (cfg : Config F) (plan : VideoViewPlan (CalibrationReference F))
    (accepted : video_view_plan plan ≡ ok tt) (constructed : All IsConstructed plan.segments) where
  index-view : (n v : ℕ) → segment_index plan (n + 1) ≡ ok v → v ≡ view plan (n + 1)
  index-view n v h =
      ok-injective v (view plan (n + 1))
        (sym h ∙ segment_index-view plan accepted constructed (n + 1) (omega arith))

  -- The same view again, within a minute or at its start.
  stay-crossed :
      (q r n : ℕ)
      → n ≡ q * cfg.frames_per_minute + r
      → view plan n ≡ view plan (n + 1)
      → is_crossed cfg plan q r ≡ is_crossed cfg plan q (r + 1)
  stay-crossed q zero n h same = is_crossed_zero cfg plan q ∙ sym (is_crossed_one cfg plan q)
  stay-crossed q (suc r) n h same =
      let test = (nat_key.test_iff (view plan n) (view plan (n + 1))).1 same in
      sym (is_crossed-suc cfg plan q r n h ∙ rw test (or-false (is_crossed cfg plan q (suc r))))
    where
      or-false : (b : Bool) → (b || not true) ≡ b
      or-false true = refl
      or-false false = refl

  change-crossed :
      (q r n : ℕ)
      → n ≡ q * cfg.frames_per_minute + r
      → view plan n ≢ view plan (n + 1)
      → (not (r == 0) || is_crossed cfg plan q r) ≡ is_crossed cfg plan q (r + 1)
  change-crossed q zero n h other = is_crossed_zero cfg plan q ∙ sym (is_crossed_one cfg plan q)
  change-crossed q (suc r) n h other =
      let test = beq-false (view plan n) (view plan (n + 1)) other in
      sym (is_crossed-suc cfg plan q r n h ∙ rw test (or-true (is_crossed cfg plan q (suc r))))
    where
      or-true : (b : Bool) → (b || not false) ≡ (not (suc r == 0) || b)
      or-true true = ground arith
      or-true false = ground arith

module _ {Gray F T : Type 0} ⦃f : FloatOps F⦄ (cfg : Config F)
    (plan : VideoViewPlan (CalibrationReference F)) (accepted : video_view_plan plan ≡ ok tt)
    (constructed : All IsConstructed plan.segments) where
  -- The first frame of all.
  enter-first :
      (q r n : ℕ) (s viewed : Session Gray F T)
      → n ≡ 0
      → r ≡ 0
      → s.active_view_index ≡ none
      → s.continuity_sequence ≡ 1
      → s.skip_current_minute ≡ false
      → IsViewed cfg plan s (n + 1) viewed
      → IsFollowed cfg plan q r n s viewed
  unfolding enter_view
  enter-first q r n s viewed none_yet no_rest none_active first unskipped
        (stayed v index here opened) =
      let impossible : false ≡ true = subst (λ o. option_eq o (some v) ≡ true) none_active here in
      absurd (cc)
  enter-first q r n s viewed none_yet no_rest none_active first unskipped
        (changed v segment calibration index other opened) =
      let is_view = index-view cfg plan accepted constructed n v index in
      let same = opened ∙ change-first cfg plan s (n + 1) v segment calibration none_active in
      let first_view = ap (λ i. view plan (i + 1)) none_yet ∙ view-one plan accepted constructed in
      subst (λ x. IsFollowed cfg plan q r n s x) (sym same)
        (record {
          same_records = refl;
          active = ap some is_view;
          sequence = first ∙ omega (arith, first_view);
          skipping =
              unskipped
              ∙ sym (ap (λ i. is_crossed cfg plan q (i + 1)) no_rest ∙ is_crossed_one cfg plan q);
        })

  stay-follows :
      (q r n v : ℕ) (s viewed : Session Gray F T)
      → n ≡ q * cfg.frames_per_minute + r
      → s.active_view_index ≡ some (view plan n)
      → s.continuity_sequence ≡ view plan n + 1
      → s.skip_current_minute ≡ is_crossed cfg plan q r
      → segment_index plan (n + 1) ≡ ok v
      → option_eq s.active_view_index (some v) ≡ true
      → viewed ≡ stay_in_view cfg (n + 1) s
      → IsFollowed cfg plan q r n s viewed
  unfolding stay_in_view
  stay-follows q r n v s viewed h active sequence skipping index here opened =
      let is_view = index-view cfg plan accepted constructed n v index in
      let known = (option_eq_iff s.active_view_index (some v)).0 here in
      let same : view plan n ≡ view plan (n + 1) = cc in
      subst (λ x. IsFollowed cfg plan q r n s x) (sym opened)
        (record {
          same_records = refl;
          active = active ∙ ap some same;
          sequence = sequence ∙ ap (λ i. i + 1) same;
          skipping = skipping ∙ stay-crossed cfg plan accepted constructed q r n h same;
        })

  change-follows :
      (q r n v : ℕ) (s viewed : Session Gray F T) (segment : VideoViewSegment)
      (calibration : CameraCalibration (CalibrationReference F))
      → n ≡ q * cfg.frames_per_minute + r
      → r < cfg.frames_per_minute
      → 1 ≤ n
      → s.active_view_index ≡ some (view plan n)
      → s.continuity_sequence ≡ view plan n + 1
      → s.skip_current_minute ≡ is_crossed cfg plan q r
      → segment_index plan (n + 1) ≡ ok v
      → option_eq s.active_view_index (some v) ≡ false
      → viewed ≡ change_view cfg (n + 1) v segment calibration s
      → IsFollowed cfg plan q r n s viewed
  unfolding enter_view leave_view reset_for_view_transition
  change-follows q r n v s viewed segment calibration h below started active sequence skipping index
        other opened =
      let is_view = index-view cfg plan accepted constructed n v index in
      let same =
        opened ∙ change-next cfg plan s (n + 1) v (view plan n) segment calibration active in
      let differs : view plan n ≢ view plan (n + 1) = λ e.
        let known =
          (option_eq_iff s.active_view_index (some v)).1 (active ∙ ap some (e ∙ sym is_view)) in
        let impossible : false ≡ true = sym other ∙ known in absurd (cc) in
      let starts : starts_minute cfg (n + 1) ≡ (r == 0) =
        subst (λ i. starts_minute cfg (i + 1) ≡ (r == 0)) (sym h)
          (starts_minute_mod cfg plan q r below) in
      subst (λ x. IsFollowed cfg plan q r n s x) (sym same)
        (record {
          same_records = refl;
          active = ap some is_view;
          sequence = next differs sequence;
          skipping =
              ap (λ b. not b || s.skip_current_minute) starts
              ∙ ap (λ b. not (r == 0) || b) skipping
              ∙ change-crossed cfg plan accepted constructed q r n h differs;
        })
    where
      next :
          view plan n ≢ view plan (n + 1)
          → s.continuity_sequence ≡ view plan n + 1
          → s.continuity_sequence + 1 ≡ view plan (n + 1) + 1
      next differs e = elim (view-step plan accepted constructed n started) [
        | inl stays ↦ absurd (differs (sym stays))
        | inr moves ↦ omega (arith, e, moves)
      ]

  pub viewed-IsFollowed :
      (q r n : ℕ) (s viewed : Session Gray F T)
      → n ≡ q * cfg.frames_per_minute + r
      → r < cfg.frames_per_minute
      → IsLocated plan n s
      → s.skip_current_minute ≡ is_crossed cfg plan q r
      → IsViewed cfg plan s (n + 1) viewed
      → IsFollowed cfg plan q r n s viewed
  viewed-IsFollowed q r n s viewed h below (within started active sequence) skipping
        (stayed v index here opened) =
      stay-follows q r n v s viewed h active sequence skipping index here opened
  viewed-IsFollowed q r n s viewed h below (within started active sequence) skipping
        (changed v segment calibration index other opened) =
      change-follows q r n v s viewed segment calibration h below started active sequence skipping
        index other opened
  viewed-IsFollowed q r n s viewed h below (outside zero_frames none_active first) skipping step =
      let no_rest : r ≡ 0 = omega (arith, h, zero_frames) in
      let unskipped = skipping ∙ ap (is_crossed cfg plan q) no_rest ∙ is_crossed_zero cfg plan q in
      enter-first q r n s viewed zero_frames no_rest none_active first unskipped step
