-- ===== src/Eligibility/Evidence.antt =====
-- What vaaet-core/src/vaaet/eligibility.py takes for evidence of production, said of the mappings
-- themselves and not of the messages.
use vaaet.Prelude.{
  All, ℕ, ◌≤◌, String, ◌≡◌, Bool, true, false, Option, none, some, List, [], ◌∷◌, ◌++◌, ℤ, pos,
}
use vaaet.Float.{FloatOps, ◌<=◌}
use vaaet.ViewPlan.Payload.{Value, Items, Entries, get, to_list}
use vaaet.Eligibility.{truthy}
use vaaet.Eligibility.Table.{Bound, low_end, high_end, Gate, Rows, row_of, thresholds}

module _ {F : Type 0} where
  -- The value is a mapping with a text under the key `metric`.
  abbrev pub IsRow : Value F → String × Entries F → Type 0
  IsRow v row = (v ≡ Value.object row.1) × (get row.1 "metric" ≡ Value.text row.0)

  -- The rows of a list, after those before it, with no name twice.
  abbrev pub AreRows : Rows F → List (Value F) → Rows F → Type 0
  AreRows before [] rows = rows ≡ before
  AreRows before (v ∷ vs) rows =
      (row : String × Entries F) × IsRow v row
      × (row_of row.0 before ≡ none)
      × AreRows (before ++ row ∷ []) vs rows

  abbrev pub IsIntFrom : ℕ → Value F → Type 0
  IsIntFrom n v = (i : ℕ) × (v ≡ Value.integer (pos i)) × (n ≤ i)

module _ {F : Type 0} ⦃f : FloatOps F⦄ where
  abbrev pub Reaches : Bound → F → F → F → Type 0
  Reaches low_end threshold low high = f.lt low threshold ≡ false
  Reaches high_end threshold low high = f.lt threshold high ≡ false

  -- The bounds are those of an interval in the unit interval that holds the point.
  abbrev pub IsInterval : F → F → F → Type 0
  IsInterval low point high =
      (f.lt low (f.of_nat 0) ≡ false)
      × (f.lt (f.of_nat 1) high ≡ false)
      × (f.lt high low ≡ false)
      × ((low <= point) ≡ true)
      × ((point <= high) ≡ true)

module _ {F : Type 0} ⦃f : FloatOps F⦄ (float_of : ℤ → Option F) where
  -- The value is the finite number `x`, an integer that `float` takes or a float.
  abbrev pub IsNumber : Value F → F → Type 0
  IsNumber (Value.integer i) x = (float_of i ≡ some x) × (f.is_finite x ≡ true)
  IsNumber (Value.number y) x = (y ≡ x) × (f.is_finite x ≡ true)
  IsNumber _ x = ⊥

  abbrev pub IsAtLeast : F → Value F → Type 0
  IsAtLeast threshold v = (x : F) × IsNumber v x × (f.lt x threshold ≡ false)

  abbrev pub IsBelow : F → Value F → Type 0
  IsBelow threshold v =
      (x : F) × IsNumber v x × (f.lt x (f.of_nat 0) ≡ false) × ((threshold <= x) ≡ false)

  -- A grouped bootstrap of two groups or more over nearly all of them.
  abbrev pub IsBootstrap : Entries F → Type 0
  IsBootstrap row =
      (get row "method" ≡ Value.text "grouped-bootstrap")
      × IsIntFrom 2 (get row "group_count")
      × IsIntFrom 1 (get row "bootstrap_samples")
      × ((x : F) × IsNumber (get row "evaluable_fraction") x
          × ((f.literal 9500 <= x) ≡ true)
          × ((x <= f.of_nat 1) ≡ true))

  abbrev pub PassesGate : Gate F → Entries F → Type 0
  PassesGate gate row =
      (get row "sufficient" ≡ Value.boolean true)
      × IsBootstrap row
      × ((point : F) × (low : F) × (high : F) × IsNumber (get row "value") point
          × IsNumber (get row "ci_95_low") low
          × IsNumber (get row "ci_95_high") high
          × IsInterval low point high
          × Reaches gate.bound gate.threshold low high)

  abbrev pub Passes : Rows F → Gate F → Type 0
  Passes rows gate = (row : Entries F) × (row_of gate.metric rows ≡ some row) × PassesGate gate row

  -- The value is a list of rows, and those that the scope asks for pass.
  abbrev pub AreIntervals : String → Value F → Rows F → Type 0
  AreIntervals scope v rows =
      (items : Items F) × (v ≡ Value.array items)
      × AreRows [] (to_list items) rows
      × All (Passes rows) (thresholds scope)

  module _ (is_close : F → F → Bool) where
    -- The rate is the count over the exposure.
    abbrev pub IsRate : Entries F → Type 0
    IsRate metrics =
        (count : ℕ) × (n : F) × (exposure : F) × (rate : F) × (get metrics
            "incident_candidate_count"
          ≡ Value.integer (pos count))
        × (float_of (pos count) ≡ some n)
        × IsNumber (get metrics "negative_exposure_hours") exposure
        × IsNumber (get metrics "false_candidates_per_hour") rate
        × ((exposure <= f.of_nat 0) ≡ false)
        × (is_close rate (f.div n exposure) ≡ true)

    -- The declared metric is the point of the interval.
    abbrev pub IsDeclared : Entries F → String → Rows F → String → Type 0
    IsDeclared metrics field rows metric =
        (declared : F) × (row : Entries F) × (point : F) × IsNumber (get metrics field) declared
        × (row_of metric rows ≡ some row)
        × IsNumber (get row "value") point
        × (is_close declared point ≡ true)

    -- What is asked of the bundle besides its intervals.
    abbrev pub IsGenerallyFit : Entries F → Entries F → Entries F → Value F → Type 0
    IsGenerallyFit lifecycle metrics provenance human_holdout =
        (get lifecycle "training_mode" ≡ Value.text "hitl-retraining")
        × (get lifecycle "input_policy" ≡ Value.text "canonical-v3")
        × (((holdout : Entries F) × (human_holdout ≡ Value.object holdout))
            × (truthy (get provenance "human_holdout") ≡ true))
        × (get provenance "promotion_blockers" ≡ Value.array Items.end)
        × IsAtLeast (f.literal 9500) (get provenance "telemetry_v3_coverage")
        × (get metrics "automatic_accident_states" ≡ Value.integer (pos 0))
        × IsAtLeast (f.of_nat 100) (get metrics "congested_minutes")
        × IsAtLeast (f.of_nat 20) (get metrics "congested_clips")
        × IsAtLeast (f.of_nat 300) (get metrics "negative_exposure_hours")
        × IsBelow (f.literal 100) (get metrics "false_candidates_upper_95")
        × IsRate metrics

    abbrev pub AreDeclared : Entries F → Rows F → Rows F → Type 0
    AreDeclared metrics direct final =
        IsDeclared metrics "direct_f1_macro" direct "f1_macro"
        × IsDeclared metrics "final_f1_macro" final "f1_macro"
        × IsDeclared metrics "direct_normal_congested_error" direct "normal_congested_error"
        × IsDeclared metrics "final_normal_congested_error" final "normal_congested_error"
        × IsDeclared metrics "ece" final "ece"

    abbrev pub IsProductionEvidence : Entries F → Entries F → Entries F → Value F → Type 0
    IsProductionEvidence lifecycle metrics provenance human_holdout =
        IsGenerallyFit lifecycle metrics provenance human_holdout
        × ((direct : Rows F) × (final : Rows F) × AreIntervals "direct"
              (get metrics "grouped_direct_intervals") direct
            × AreIntervals "final" (get metrics "grouped_final_intervals") final
            × AreDeclared metrics direct final)
