-- ===== src/Pipeline/Counting.antt =====
-- The reports of the views add up: proofs about `run` of vaaet-core/src/vaaet/vision/pipeline.py.
use vaaet.Prelude.{
  if◌then◌else◌, is_some, length, length-append, option_eq, ℕ, zero, suc, ◌+◌, ◌≤◌, ◌<◌, ◌≡◌, refl,
  sym, ap, ◌∙◌, subst, ◌⊎◌, inl, inr, Bool, true, false, none, some, List, [], ◌∷◌, ◌++◌, arith,
  nat_key, string_key,
}
use vaaet.Float.{FloatOps}
use vaaet.Pipeline.{Config, Session, TimedRecord, Progress}
use vaaet.Pipeline.Control.{IsViewed, stayed, changed}
use vaaet.Pipeline.Minutes.{
  drop_minute, with_accumulator, update_entry, mark_discarded, charge_discard,
}
use vaaet.Pipeline.Views.{
  update_last, new_progress, change_view, enter_view, leave_view, stay_in_view,
  reset_for_view_transition,
}
use vaaet.ViewPlan.{VideoViewPlan}
use vaaet.ViewPlan.Calibration.{CalibrationReference}

module _ {A : Type 0} (count : A → ℕ) where
  -- The sum of a count over a list.
  unfoldable pub sum_of : List A → ℕ
  sum_of [] = 0
  sum_of (x ∷ xs) = count x + sum_of xs

  sum-append_one : (xs : List A) (x : A) → sum_of (xs ++ x ∷ []) ≡ sum_of xs + count x
  unfolding sum_of
  sum-append_one [] x = omega arith
  sum-append_one (y ∷ xs) x = omega (arith, sum-append_one xs x)

  sum-update_last :
      (g : A → A) (k : ℕ)
      → ((x : A) → count (g x) ≡ count x + k)
      → (xs : List A) → 1 ≤ length xs
      → sum_of (update_last g xs) ≡ sum_of xs + k
  unfolding sum_of update_last
  sum-update_last g k adds [] h = absurd (omega (arith, h))
  sum-update_last g k adds (x ∷ []) h = omega (arith, adds x)
  sum-update_last g k adds (x ∷ y ∷ xs) h =
      omega (arith, sum-update_last g k adds (y ∷ xs) (omega arith))

  sum-keep_last :
      (g : A → A)
      → ((x : A) → count (g x) ≡ count x)
      → (xs : List A) → sum_of (update_last g xs) ≡ sum_of xs
  unfolding sum_of update_last
  sum-keep_last g keeps [] = refl
  sum-keep_last g keeps (x ∷ []) = omega (arith, keeps x)
  sum-keep_last g keeps (x ∷ y ∷ xs) = omega (arith, sum-keep_last g keeps (y ∷ xs))

  sum-update_entry :
      (g : A → A) (k i : ℕ) (xs : List A)
      → ((x : A) → count (g x) ≡ count x + k)
      → i < length xs
      → sum_of (update_entry i g xs) ≡ sum_of xs + k
  unfolding sum_of update_entry
  sum-update_entry g k i [] adds h = absurd (omega (arith, h))
  sum-update_entry g k zero (x ∷ xs) adds h = omega (arith, adds x)
  sum-update_entry g k (suc i) (x ∷ xs) adds h =
      omega (arith, sum-update_entry g k i xs adds (omega (arith, h)))

module _ {A : Type 0} where
  length-update_last : (g : A → A) (xs : List A) → length (update_last g xs) ≡ length xs
  unfolding update_last
  length-update_last g [] = refl
  length-update_last g (x ∷ []) = refl
  length-update_last g (x ∷ y ∷ xs) = omega (arith, length-update_last g (y ∷ xs))

  length-update_entry : (g : A → A) (i : ℕ) (xs : List A) → length (update_entry i g xs) ≡ length xs
  unfolding update_entry
  length-update_entry g i [] = refl
  length-update_entry g zero (x ∷ xs) = refl
  length-update_entry g (suc i) (x ∷ xs) = omega (arith, length-update_entry g i xs)

abbrev pub valid_total : {F : Type 0} → List (Progress F) → ℕ
valid_total ps = sum_of (λ p. p.valid_minutes) ps

abbrev pub discarded_total : {F : Type 0} → List (Progress F) → ℕ
discarded_total ps = sum_of (λ p. p.discarded_minutes) ps

module _ {Gray F T : Type 0} where
  -- The session has begun a view, and a minute that is skipped is charged to one.
  pub record IsBegun (s : Session Gray F T) : Type 0 where
    pub some_view : 1 ≤ length s.view_progress
    pub pointed :
        s.skip_current_minute ≡ true
        → (i : ℕ) × (s.discarding_progress ≡ some i) × (i < length s.view_progress)

  -- The counts of the views, for a number of whole minutes.
  pub record IsSummed (minutes : ℕ) (s : Session Gray F T) : Type 0 where
    pub valid : valid_total s.view_progress ≡ length s.records
    pub accounted : length s.records + discarded_total s.view_progress ≡ minutes
    pub classified : length s.classification_records ≤ length s.records

module _ {Gray F T : Type 0} ⦃f : FloatOps F⦄ (cfg : Config F) where
  stay-IsBegun : (i : ℕ) (s : Session Gray F T) → IsBegun s → IsBegun (stay_in_view cfg i s)
  unfolding stay_in_view
  stay-IsBegun i s h =
      let same =
        length-update_last (λ (p : Progress F). record p { end_frame = i }) s.view_progress in
      record {
        some_view = omega (arith, same, h.some_view);
        pointed = λ skipped.
            let (j, at, below) = h.pointed skipped in (j, at, omega (arith, same, below));
      }

  stay-IsSummed :
      (minutes i : ℕ) (s : Session Gray F T)
      → IsSummed minutes s
      → IsSummed minutes (stay_in_view cfg i s)
  unfolding stay_in_view
  stay-IsSummed minutes i s h =
      let g : Progress F → Progress F = λ p. record p { end_frame = i } in
      let valid =
        sum-keep_last (λ (p : Progress F). p.valid_minutes) g (λ p. refl) s.view_progress in
      let discarded =
        sum-keep_last (λ (p : Progress F). p.discarded_minutes) g (λ p. refl) s.view_progress in
      record {
        valid = valid ∙ h.valid;
        accounted = omega (arith, discarded, h.accounted);
        classified = h.classified;
      }

  enter-IsBegun :
      (i v : ℕ) (segment : _) (calibration : _) (t : Session Gray F T)
      → IsBegun (enter_view cfg i v segment calibration t)
  unfolding enter_view
  enter-IsBegun i v segment calibration t =
      let grown = length-append t.view_progress (new_progress i segment calibration ∷ []) in
      record {
        some_view = omega (arith, grown);
        pointed = λ skipped. (
          length t.view_progress,
          ap (λ b. if b then some (length t.view_progress) else t.discarding_progress) skipped,
          omega (arith, grown),
        );
      }

  enter-IsSummed :
      (minutes i v : ℕ) (segment : _) (calibration : _) (t : Session Gray F T)
      → IsSummed minutes t
      → IsSummed minutes (enter_view cfg i v segment calibration t)
  unfolding enter_view
  enter-IsSummed minutes i v segment calibration t h =
      let valid =
        sum-append_one (λ (p : Progress F). p.valid_minutes) t.view_progress
          (new_progress i segment calibration) in
      let discarded =
        sum-append_one (λ (p : Progress F). p.discarded_minutes) t.view_progress
          (new_progress i segment calibration) in
      record {
        valid = omega (arith, valid, h.valid);
        accounted = omega (arith, discarded, h.accounted);
        classified = h.classified;
      }

  leave-IsSummed :
      (minutes i : ℕ) (s : Session Gray F T)
      → IsSummed minutes s
      → IsSummed minutes (leave_view cfg i s)
  unfolding leave_view reset_for_view_transition
  leave-IsSummed minutes i s h = record {
    valid = h.valid;
    accounted = h.accounted;
    classified = h.classified;
  }

  either :
      (P : Session Gray F T → Type 0) (b : Bool) (x y : Session Gray F T)
      → P x
      → P y
      → P (if b then x else y)
  either P true x y px py = px
  either P false x y px py = py

  pub viewed-counts :
      (plan : VideoViewPlan (CalibrationReference F)) (minutes i : ℕ) (s viewed : Session Gray F T)
      → IsSummed minutes s
      → (s.active_view_index ≡ none) ⊎ IsBegun s
      → IsViewed cfg plan s i viewed
      → IsBegun viewed × IsSummed minutes viewed
  unfolding change_view
  viewed-counts plan minutes i s viewed h ready (stayed v index here opened) = elim ready [
    | inl none_active ↦
        let impossible : false ≡ true = subst (λ o. option_eq o (some v) ≡ true) none_active here in
        absurd (cc)
    | inr begun ↦
        subst (λ x. IsBegun x × IsSummed minutes x) (sym opened)
          (stay-IsBegun i s begun, stay-IsSummed minutes i s h)
  ]
  viewed-counts plan minutes i s viewed h ready (changed v segment calibration index other opened) =
      let base = if is_some s.active_view_index then leave_view cfg i s else s in
      subst (λ x. IsBegun x × IsSummed minutes x) (sym opened)
        (
          enter-IsBegun i v segment calibration base,
          enter-IsSummed minutes i v segment calibration base (
              either (IsSummed minutes) (is_some s.active_view_index) (leave_view cfg i s) s
                (leave-IsSummed minutes i s h) h),
        )

  pub dropped-counts :
      (minutes : ℕ) (s : Session Gray F T)
      → IsBegun s
      → IsSummed minutes s
      → s.skip_current_minute ≡ true
      → IsBegun (drop_minute s) × IsSummed (minutes + 1) (drop_minute s)
  unfolding drop_minute with_accumulator mark_discarded charge_discard
  dropped-counts minutes s begun h skipped =
      let (i, at, below) = begun.pointed skipped in
      let entry : charge_discard s.discarding_progress s.view_progress
          ≡ update_entry i mark_discarded s.view_progress =
        ap (λ o. charge_discard o s.view_progress) at in
      let size = ap length entry ∙ length-update_entry mark_discarded i s.view_progress in
      let valid =
        ap valid_total entry
        ∙ sum-update_entry (λ (p : Progress F). p.valid_minutes) mark_discarded 0 i s.view_progress
            (λ p. omega arith) below in
      let discarded =
        ap discarded_total entry
        ∙ sum-update_entry (λ (p : Progress F). p.discarded_minutes) mark_discarded 1 i
            s.view_progress (λ p. refl) below in
      (
        record { some_view = omega (arith, size, begun.some_view); pointed = λ no. absurd (cc) },
        record {
          valid = omega (arith, valid, h.valid);
          accounted = omega (arith, discarded, h.accounted);
          classified = h.classified;
        },
      )

  pub published-counts :
      (minutes : ℕ) (s s' : Session Gray F T) (r : TimedRecord F T)
      → IsBegun s
      → IsSummed minutes s
      → s.skip_current_minute ≡ false
      → s'.records ≡ s.records ++ r ∷ []
      → s'.view_progress
        ≡ update_last
            (λ (p : Progress F). record p { valid_minutes = p.valid_minutes + 1 })
            s.view_progress
      → length s'.classification_records ≤ length s.classification_records + 1
      → s'.skip_current_minute ≡ s.skip_current_minute
      → IsBegun s' × IsSummed (minutes + 1) s'
  published-counts minutes s s' r begun h kept records progress classified skipping =
      let g : Progress F → Progress F = λ p. record p { valid_minutes = p.valid_minutes + 1 } in
      let size = ap length progress ∙ length-update_last g s.view_progress in
      let valid =
        ap valid_total progress
        ∙ sum-update_last (λ (p : Progress F). p.valid_minutes) g 1 (λ p. refl) s.view_progress
            begun.some_view in
      let discarded =
        ap discarded_total progress
        ∙ sum-keep_last (λ (p : Progress F). p.discarded_minutes) g (λ p. refl) s.view_progress in
      let grown = ap length records ∙ length-append s.records (r ∷ []) in
      (
        record {
          some_view = omega (arith, size, begun.some_view);
          pointed =
              λ yes. let impossible : false ≡ true = sym kept ∙ sym skipping ∙ yes in absurd (cc);
        },
        record {
          valid = omega (arith, valid, grown, h.valid);
          accounted = omega (arith, discarded, grown, h.accounted);
          classified = omega (arith, classified, grown, h.classified);
        },
      )
