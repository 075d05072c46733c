-- ===== src/Contracts/Examples.antt =====
-- Records of the borders, at concrete values.
use vaaet.Prelude.{ok, succeeds, ℕ, ◌≡◌, refl, ◌↔◌, true, false, none, some, pos}
use vaaet.Float.{FloatOps, ten_thousandths}
use vaaet.Timestamps.{Pandas, normalize_timestamp}
use vaaet.Contracts.{model_state_label, validate_ratio, validate_origin}
use vaaet.Contracts.Telemetry.{TelemetryRecord, telemetry_record}
use vaaet.Contracts.Features.{
  ClassificationRecord, classification_checks, classification_record, validate_label,
  validate_given_ratio,
}
use vaaet.Contracts.Valid.{IsTelemetry, telemetry_record-succeeds}

instance abbrev floats : FloatOps ℕ
floats = ten_thousandths

abbrev utc : Pandas ℕ ℕ
utc = record {
  timestamp = some;
  isna = λ _. false;
  is_naive = λ _. false;
  tz_localize = some;
  tz_convert = some;
  as_value = λ t. t;
}

abbrev minute : TelemetryRecord ℕ ℕ
minute = record {
  id = pos 4;
  record_time = 60;
  avg_speed = 35;
  count_car = pos 5;
  count_truck = pos 2;
  count_bus = pos 0;
  count_motorcycle = pos 1;
  count_bicycle = pos 0;
  total_vehicles = pos 9;
  clip_id = some "clip";
  data_origin = "real";
  synthetic_scenario = "observed";
  near_zero_motion_count = pos 0;
  stationary_confirmed_count = pos 1;
  rejected_speed_count = pos 0;
  recovered_track_count = pos 0;
  speed_sample_count = pos 6;
  speed_measurement_quality = 9000;
}

telemetry_record-succeeds_example :
    (succeeds (telemetry_record utc minute) ≡ true)
    ↔ (IsTelemetry minute × (succeeds (normalize_timestamp utc 60) ≡ true))
telemetry_record-succeeds_example = telemetry_record-succeeds utc minute

abbrev congested : ClassificationRecord ℕ
congested = record {
  telemetry_feature_id = pos 3;
  traffic_state = pos 2;
  state_label = "Congested";
  confidence = 8100;
  model_version = "v1";
  data_origin = "synthetic";
  synthetic_scenario = "accident";
  model_traffic_state = some (pos 1);
  model_confidence = none;
  accident_rule_triggered = true;
  accident_evidence_score = 9000;
}

accepts_congested : classification_record congested ≡ ok tt
unfolding classification_record classification_checks validate_label model_state_label
    validate_given_ratio validate_ratio validate_origin
accepts_congested = refl
