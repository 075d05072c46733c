-- ===== src/Contracts.antt =====
-- vaaet-core/src/vaaet/contracts.py: the records that cross the borders of the packages, and the
-- checks that their construction runs. An error is its message without the
-- values that it shows, or for a check of one field the name of the field.
pub mod Telemetry
pub mod Features
pub mod Valid
pub mod Classified
mod Examples
use vaaet.Prelude.{
  Result, ok, err, raise_if, ◌==◌, contains, zero, suc, String, not, ◌&&◌, Option, none, some, List,
  [], ◌∷◌, in_order, ℤ, pos, negsuc, ltℤ, nat_key, string_key,
}
use vaaet.Float.{FloatOps, ◌<=◌}
use vaaet.Timestamps.{Pandas, normalize_timestamp}

abbrev pub Check : Type 0
Check = Result String (Unit {0})

-- DATA_ORIGINS, SYNTHETIC_SCENARIOS and VEHICLE_TYPES of settings.py
abbrev pub data_origins : List String
data_origins = "real" ∷ "synthetic" ∷ []

abbrev pub synthetic_scenarios : List String
synthetic_scenarios = "observed" ∷ "accident" ∷ "congestion" ∷ []

abbrev pub vehicle_types : List String
vehicle_types = "car" ∷ "truck" ∷ "bus" ∷ "motorcycle" ∷ "bicycle" ∷ []

-- MODEL_STATE_LABELS of settings.py
unfoldable pub model_state_label : ℤ → Option String
model_state_label (pos zero) = some "Normal"
model_state_label (pos (suc zero)) = some "Reduced"
model_state_label (pos (suc (suc zero))) = some "Congested"
model_state_label (pos (suc (suc (suc _)))) = none
model_state_label (negsuc _) = none

unfoldable pub coerce_timestamp : {V S : Type 0} → Pandas V S → V → Result String S
coerce_timestamp pd value = elim (normalize_timestamp pd value) [
  | ok t ↦ ok t
  | err _ ↦ err "record_time must be a valid timestamp"
]

unfoldable pub validate_non_negative_int : ℤ → String → Check
validate_non_negative_int value field_name = raise_if (ltℤ value (pos 0)) field_name

unfoldable pub validate_ratio : {F : Type 0} ⦃f : FloatOps F⦄ → F → String → Check
validate_ratio ⦃f = f⦄ value field_name =
    raise_if (not (f.of_nat 0 <= value && value <= f.of_nat 1)) field_name

unfoldable pub validate_origin : String → String → Check
validate_origin origin scenario =
    in_order
      (raise_if (not (contains origin data_origins)) "data_origin must be one of DATA_ORIGINS"
        ∷ raise_if (not (contains scenario synthetic_scenarios))
            "synthetic_scenario must be one of SYNTHETIC_SCENARIOS"
        ∷ raise_if (origin == "real" && not (scenario == "observed"))
            "real records must use synthetic_scenario='observed'"
        ∷ raise_if (origin == "synthetic" && scenario == "observed")
            "synthetic records must declare a non-observed scenario"
        ∷ [])
      tt
