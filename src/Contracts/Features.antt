-- ===== src/Contracts/Features.antt =====
-- vaaet-core/src/vaaet/contracts.py: `EngineeredTelemetryRecord`, `ClassificationRecord` and
-- `TrackSpeedState`, each with the checks of its `__post_init__`.
use vaaet.Prelude.{
  is_some, Result, ok, err, ◌>>=◌, ◌>>◌, raise_if, ◌==◌, contains, String, Bool, false, not, ◌&&◌,
  Option, none, some, List, [], ◌∷◌, in_order, ℤ, pos, ltℤ, leℤ, nat_key, string_key,
}
use vaaet.Float.{FloatOps}
use vaaet.Timestamps.{Pandas}
use vaaet.Contracts.{
  Check, vehicle_types, model_state_label, coerce_timestamp, validate_non_negative_int,
  validate_ratio, validate_origin,
}

pub record EngineeredTelemetryRecord (F T : Type 0) : Type 0 where
  pub source_record_id : ℤ
  pub record_time : T
  pub avg_speed : F
  pub total_vehicles : ℤ
  pub heavy_vehicle_ratio : F
  pub delta_speed : F
  pub delta_count : ℤ
  pub transition_flag : ℤ
  pub speed_variance : F
  pub cumulative_delta_speed : F
  pub low_speed_persistence : F
  pub speed_measurement_quality : F
  pub near_zero_motion_ratio : F
  pub stationary_confirmed_ratio : F
  pub hour_of_day : ℤ
  pub weather_condition : ℤ
  pub data_origin : String
  pub synthetic_scenario : String

pub record ClassificationRecord (F : Type 0) : Type 0 where
  pub telemetry_feature_id : ℤ
  pub traffic_state : ℤ
  pub state_label : String
  pub confidence : F
  pub model_version : String
  pub data_origin : String
  pub synthetic_scenario : String
  pub model_traffic_state : Option ℤ
  pub model_confidence : Option F
  pub accident_rule_triggered : Bool
  pub accident_evidence_score : F

pub record TrackSpeedState (F : Type 0) : Type 0 where
  pub track_id : ℤ
  pub vehicle_type : String
  pub history_length : ℤ
  pub flow_tracking_ratio : F
  pub recovered_after_gap : ℤ
  pub is_stationary : Bool
  pub is_near_zero_motion : Bool
  pub candidate_speed : Option F
  pub smoothed_speed : Option F
  pub measurement_quality : F

-- `value in (0, 1)`
abbrev pub is_binary : ℤ → Bool
is_binary value = leℤ (pos 0) value && leℤ value (pos 1)

abbrev pub is_within_day : ℤ → Bool
is_within_day hour = leℤ (pos 0) hour && leℤ hour (pos 23)

-- `x is not None and test(x)`
abbrev pub given {ℓ} : {A : Type ℓ} → (A → Bool) → Option A → Bool
given test none = false
given test (some x) = test x

-- The label that a state must carry; a state outside the model raises before it is compared.
unfoldable pub validate_label : ℤ → String → Check
validate_label state label = elim (model_state_label state) [
  | none ↦ err "Automatic traffic_state must be Normal, Reduced, or Congested."
  | some expected ↦ raise_if (not (label == expected)) "state_label must match STATE_LABELS"
]

module _ {F : Type 0} ⦃f : FloatOps F⦄ where
  unfoldable pub engineered_checks : {T : Type 0} → EngineeredTelemetryRecord F T → List Check
  engineered_checks r =
      raise_if (f.lt r.avg_speed (f.of_nat 0)) "avg_speed must be >= 0"
      ∷ validate_non_negative_int r.total_vehicles "total_vehicles"
      ∷ validate_ratio r.heavy_vehicle_ratio "heavy_vehicle_ratio"
      ∷ validate_ratio r.speed_measurement_quality "speed_measurement_quality"
      ∷ validate_ratio r.near_zero_motion_ratio "near_zero_motion_ratio"
      ∷ validate_ratio r.stationary_confirmed_ratio "stationary_confirmed_ratio"
      ∷ raise_if (not (is_binary r.transition_flag)) "transition_flag must be binary"
      ∷ raise_if (not (is_within_day r.hour_of_day)) "hour_of_day must be within [0, 23]"
      ∷ raise_if (not (is_binary r.weather_condition)) "weather_condition must be binary"
      ∷ raise_if (f.lt r.speed_variance (f.of_nat 0)) "speed_variance must be >= 0"
      ∷ validate_origin r.data_origin r.synthetic_scenario
      ∷ []

  -- `EngineeredTelemetryRecord.__post_init__`, which gives the time to be stored.
  unfoldable pub engineered_record :
      {V S : Type 0} → Pandas V S → EngineeredTelemetryRecord F V → Result String S
  engineered_record pd r =
      raise_if (leℤ r.source_record_id (pos 0)) "source_record_id must be > 0"
      >> coerce_timestamp pd r.record_time
      >>= λ t. in_order (engineered_checks r) tt >> ok t

  unfoldable pub validate_given_ratio : Option F → String → Check
  validate_given_ratio none field_name = ok tt
  validate_given_ratio (some x) field_name = validate_ratio x field_name

  unfoldable pub classification_checks : ClassificationRecord F → List Check
  classification_checks r =
      raise_if (leℤ r.telemetry_feature_id (pos 0)) "telemetry_feature_id must be > 0"
      ∷ validate_label r.traffic_state r.state_label
      ∷ validate_ratio r.confidence "confidence"
      ∷ raise_if (r.model_version == "") "model_version must be non-empty"
      ∷ raise_if (given (λ s. not (is_some (model_state_label s))) r.model_traffic_state)
          "model_traffic_state must be a stable traffic state"
      ∷ validate_given_ratio r.model_confidence "model_confidence"
      ∷ validate_ratio r.accident_evidence_score "accident_evidence_score"
      ∷ validate_origin r.data_origin r.synthetic_scenario
      ∷ []

  unfoldable pub classification_record : ClassificationRecord F → Check
  classification_record r = in_order (classification_checks r) tt

  unfoldable pub track_checks : TrackSpeedState F → List Check
  track_checks r =
      raise_if (leℤ r.track_id (pos 0)) "track_id must be > 0"
      ∷ raise_if (not (contains r.vehicle_type vehicle_types))
          "vehicle_type must be one of VEHICLE_TYPES"
      ∷ raise_if (ltℤ r.history_length (pos 0)) "history_length must be >= 0"
      ∷ validate_ratio r.flow_tracking_ratio "flow_tracking_ratio"
      ∷ raise_if (ltℤ r.recovered_after_gap (pos 0)) "recovered_after_gap must be >= 0"
      ∷ raise_if (given (λ x. f.lt x (f.of_nat 0)) r.candidate_speed) "candidate_speed must be >= 0"
      ∷ raise_if (given (λ x. f.lt x (f.of_nat 0)) r.smoothed_speed) "smoothed_speed must be >= 0"
      ∷ validate_ratio r.measurement_quality "measurement_quality"
      ∷ []

  unfoldable pub track_speed_state : TrackSpeedState F → Check
  track_speed_state r = in_order (track_checks r) tt
