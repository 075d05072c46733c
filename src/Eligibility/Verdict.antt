-- ===== src/Eligibility/Verdict.antt =====
-- `production_evidence_errors` of vaaet-core/src/vaaet/eligibility.py, with the checks of consistency.
use vaaet.Prelude.{
  if◌then◌else◌, Result, ok, err, ◌>>=◌, String, Bool, false, not, ◌||◌, Option, none, some, [],
  ◌∷◌, ◌++◌, ℤ, pos,
}
use vaaet.Float.{FloatOps, ◌<=◌}
use vaaet.Prelude.Text.{concat}
use vaaet.ViewPlan.Payload.{Value, Entries, get}
use vaaet.Eligibility.{
  Checked, Overflow, is_empty_list, is_int, is_mapping, is_text, joined, maximum, message, minimum,
  must_equal, note, number_of, overflow, truthy,
}
use vaaet.Eligibility.Table.{Rows, interval_errors, row_of}

module _ {F : Type 0} ⦃f : FloatOps F⦄ (float_of : ℤ → Option F) where
  abbrev pub measured : Option (Entries F) → Result Overflow (Option F)
  measured none = ok none
  measured (some row) = number_of float_of (get row "value")

  module _ (is_close : F → F → Bool) where
    abbrev pub agree : Option F → Option F → Bool
    agree (some a) (some b) = is_close a b
    agree _ _ = false

    -- The comparison of the rate with the count over the exposure.
    abbrev pub compare_rate : F → F → Option F → Checked F
    compare_rate exposure rate none = err overflow
    compare_rate exposure rate (some count) = ok (
        note (not (is_close rate (f.div count exposure)))
          (message "false-alert count, exposure and rate are inconsistent"))

    -- `_rate_consistency`, from the numbers it reads.
    abbrev pub rate_errors : Option F → Option F → Value F → Checked F
    rate_errors (some exposure) (some rate) (Value.integer (pos count)) =
        if exposure <= f.of_nat 0
        then ok (message "false-alert count, exposure and rate must be valid" ∷ [])
        else compare_rate exposure rate (float_of (pos count))
    rate_errors _ _ _ = ok (message "false-alert count, exposure and rate must be valid" ∷ [])

    unfoldable pub rate_consistency : Entries F → Checked F
    rate_consistency metrics =
        number_of float_of (get metrics "negative_exposure_hours") >>= λ exposure.
        number_of float_of (get metrics "false_candidates_per_hour") >>= λ rate.
        rate_errors exposure rate (get metrics "incident_candidate_count")

    -- One step of the loop of `_point_consistency`.
    unfoldable pub compare_point : Entries F → String → Rows F → String → Checked F
    compare_point metrics field rows metric = number_of float_of (get metrics field) >>= λ declared.
        measured (row_of metric rows) >>= λ found. ok (
          note (not (agree declared found))
            (message (concat (field ∷ " is missing or inconsistent with grouped evidence" ∷ []))))

    unfoldable pub point_consistency : Entries F → Rows F → Rows F → Checked F
    point_consistency metrics direct final = joined (
        compare_point metrics "direct_f1_macro" direct "f1_macro"
        ∷ compare_point metrics "final_f1_macro" final "f1_macro"
        ∷ compare_point metrics "direct_normal_congested_error" direct "normal_congested_error"
        ∷ compare_point metrics "final_normal_congested_error" final "normal_congested_error"
        ∷ compare_point metrics "ece" final "ece"
        ∷ [])

    -- The checks before those of the intervals.
    unfoldable pub general_errors : Entries F → Entries F → Entries F → Value F → Checked F
    general_errors lifecycle metrics provenance human_holdout = joined (
        ok (
          note (not (is_text "hitl-retraining" (get lifecycle "training_mode")))
            (message "production requires HITL retraining"))
        ∷ ok (
            note (not (is_text "canonical-v3" (get lifecycle "input_policy")))
              (message "production requires canonical-v3 input policy"))
        ∷ ok (
            note (not (is_mapping human_holdout) || not (truthy (get provenance "human_holdout")))
              (message "production requires a frozen human holdout"))
        ∷ ok (
            note (not (is_empty_list (get provenance "promotion_blockers")))
              (message "production requires an empty promotion blocker list"))
        ∷ minimum float_of (get provenance "telemetry_v3_coverage") (f.literal 9500)
            "telemetry v3 coverage"
        ∷ ok (
            note (not (is_int 0 (get metrics "automatic_accident_states")))
              (must_equal "automatic Accident states" 0))
        ∷ minimum float_of (get metrics "congested_minutes") (f.of_nat 100) "Congested minutes"
        ∷ minimum float_of (get metrics "congested_clips") (f.of_nat 20) "Congested clips"
        ∷ minimum float_of (get metrics "negative_exposure_hours") (f.of_nat 300)
            "negative exposure hours"
        ∷ maximum float_of (get metrics "false_candidates_upper_95") (f.literal 100)
            "false-alert upper bound"
        ∷ rate_consistency metrics
        ∷ [])

    unfoldable pub production_evidence_errors :
        Entries F → Entries F → Entries F → Value F → Checked F
    production_evidence_errors lifecycle metrics provenance human_holdout =
        general_errors lifecycle metrics provenance human_holdout >>= λ general.
        interval_errors float_of "direct" (get metrics "grouped_direct_intervals") >>= λ direct.
        interval_errors float_of "final" (get metrics "grouped_final_intervals") >>= λ final.
        point_consistency metrics direct.1 final.1 >>= λ points.
        ok (general ++ direct.0 ++ final.0 ++ points)
