-- ===== src/Eligibility/Examples.antt =====
-- Evidence that is complete, and evidence that is not.
use vaaet.Prelude.{
  ok, ◌==◌, ℕ, ◌*◌, String, ◌≡◌, refl, ◌↔◌, Bool, true, Option, some, [], ◌∷◌, ℤ, pos, negsuc,
  nat_key, string_key,
}
use vaaet.Float.{FloatOps, ten_thousandths}
use vaaet.ViewPlan.Payload.{
  Value, Items, Entries, get, to_list, text, integer, number, boolean, array, object, end, item,
  empty, entry,
}
use vaaet.Eligibility.{message, missing_or_below, note, joined, number_of, minimum, maximum}
use vaaet.Eligibility.Table.{
  row_of, with_row, collect_rows, is_grouped, bound_errors, thresholds, row_errors, gate_errors,
  interval_errors,
}
use vaaet.Eligibility.Verdict.{
  rate_consistency, compare_point, point_consistency, general_errors, production_evidence_errors,
}
use vaaet.Eligibility.Evidence.{IsProductionEvidence}
use vaaet.Eligibility.Production.{production_evidence_errors-IsProductionEvidence}

instance abbrev floats : FloatOps ℕ
floats = ten_thousandths

abbrev float_of : ℤ → Option ℕ
float_of (pos n) = some (n * 10000)
float_of (negsuc _) = some 0

abbrev is_close : ℕ → ℕ → Bool
is_close a b = a == b

-- An interval from `low` to `high` about `point`.
abbrev interval : String → ℕ → ℕ → ℕ → Value ℕ
interval name point low high = object (
    entry "metric" (text name) (
      entry "sufficient" (boolean true) (
        entry "method" (text "grouped-bootstrap") (
          entry "group_count" (integer (pos 30)) (
            entry "bootstrap_samples" (integer (pos 1000)) (
              entry "evaluable_fraction" (number 9900) (
                entry "value" (number point)
                  (entry "ci_95_low" (number low) (entry "ci_95_high" (number high) empty)))))))))

abbrev intervals : Items ℕ → Value ℕ
intervals rest = array (
    item (interval "f1_macro" 9300 9000 9500) (
      item (interval "precision_normal" 9700 9500 9900) (
        item (interval "precision_reduced" 9200 8900 9500) (
          item (interval "precision_congested" 9400 9100 9600) (
            item (interval "recall_normal" 9700 9500 9900) (
              item (interval "recall_reduced" 9400 9100 9600) (
                item (interval "recall_congested" 9000 8600 9300)
                  (item (interval "normal_congested_error" 40 10 80) rest))))))))

abbrev lifecycle : Entries ℕ
lifecycle =
    entry "training_mode" (text "hitl-retraining")
      (entry "input_policy" (text "canonical-v3") empty)

abbrev provenance : Entries ℕ
provenance =
    entry "human_holdout" (text "holdout-1")
      (entry "promotion_blockers" (array end) (entry "telemetry_v3_coverage" (number 9800) empty))

-- The metrics, with the count of congested minutes and the final intervals.
abbrev metrics : ℕ → Value ℕ → Entries ℕ
metrics minutes final = entry "automatic_accident_states" (integer (pos 0)) (
    entry "congested_minutes" (integer (pos minutes)) (
      entry "congested_clips" (integer (pos 25)) (
        entry "negative_exposure_hours" (number 4000000) (
          entry "false_candidates_upper_95" (number 75) (
            entry "incident_candidate_count" (integer (pos 2)) (
              entry "false_candidates_per_hour" (number 50) (
                entry "direct_f1_macro" (number 9300) (
                  entry "final_f1_macro" (number 9300) (
                    entry "direct_normal_congested_error" (number 40) (
                      entry "final_normal_congested_error" (number 40) (
                        entry "ece" (number 300) (
                          entry "grouped_direct_intervals" (intervals end)
                            (entry "grouped_final_intervals" final empty)))))))))))))

abbrev with_calibration : Value ℕ
with_calibration = intervals (item (interval "ece" 300 100 450) end)

accepted :
    production_evidence_errors float_of is_close lifecycle
      (metrics 120 with_calibration)
      provenance
      (object empty)
    ≡ ok []
unfolding production_evidence_errors general_errors interval_errors point_consistency
    rate_consistency compare_point gate_errors row_errors minimum maximum number_of thresholds
    bound_errors is_grouped collect_rows with_row row_of joined note get to_list
accepted = refl

too_few_minutes :
    production_evidence_errors float_of is_close lifecycle
      (metrics 99 with_calibration)
      provenance
      (object empty)
    ≡ ok (missing_or_below "Congested minutes" 1000000 ∷ [])
unfolding production_evidence_errors general_errors interval_errors point_consistency
    rate_consistency compare_point gate_errors row_errors minimum maximum number_of thresholds
    bound_errors is_grouped collect_rows with_row row_of joined note get to_list
too_few_minutes = refl

-- The final scope asks for the interval of the calibration's error.
without_calibration :
    production_evidence_errors float_of is_close lifecycle
      (metrics 120 (intervals end))
      provenance
      (object empty)
    ≡ ok (
        message "final interval ece is missing or insufficient"
        ∷ message "ece is missing or inconsistent with grouped evidence"
        ∷ [])
unfolding production_evidence_errors general_errors interval_errors point_consistency
    rate_consistency compare_point gate_errors row_errors minimum maximum number_of thresholds
    bound_errors is_grouped collect_rows with_row row_of joined note get to_list
without_calibration = refl

production_evidence_errors-IsProductionEvidence_example :
    (production_evidence_errors float_of is_close lifecycle
        (metrics 120 with_calibration)
        provenance
        (object empty)
      ≡ ok [])
    ↔ IsProductionEvidence float_of is_close lifecycle
        (metrics 120 with_calibration)
        provenance
        (object empty)
production_evidence_errors-IsProductionEvidence_example =
    production_evidence_errors-IsProductionEvidence float_of is_close lifecycle
      (metrics 120 with_calibration) provenance (object empty)
