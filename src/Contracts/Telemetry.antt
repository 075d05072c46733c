-- ===== src/Contracts/Telemetry.antt =====
-- vaaet-core/src/vaaet/contracts.py: `TelemetryRecord` and its construction from a mapping.
use vaaet.Prelude.{
  if◌then◌else◌, Result, ok, err, ◌>>=◌, ◌>>◌, raise_if, contains, String, Bool, not, Option, none,
  some, List, [], ◌∷◌, Map, get_or, in_order, ℤ, pos, ◌+ℤ◌, ltℤ, leℤ, nat_key, string_key,
}
use vaaet.Float.{FloatOps}
use vaaet.Timestamps.{Pandas}
use vaaet.Contracts.{
  Check, data_origins, synthetic_scenarios, coerce_timestamp, validate_non_negative_int,
  validate_ratio, validate_origin,
}

-- A record whose time is still what the caller passed, or the normalized instant.
pub record TelemetryRecord (F T : Type 0) : Type 0 where
  pub id : ℤ
  pub record_time : T
  pub avg_speed : F
  pub count_car : ℤ
  pub count_truck : ℤ
  pub count_bus : ℤ
  pub count_motorcycle : ℤ
  pub count_bicycle : ℤ
  pub total_vehicles : ℤ
  pub clip_id : Option String
  pub data_origin : String
  pub synthetic_scenario : String
  pub near_zero_motion_count : ℤ
  pub stationary_confirmed_count : ℤ
  pub rejected_speed_count : ℤ
  pub recovered_track_count : ℤ
  pub speed_sample_count : ℤ
  pub speed_measurement_quality : F

module _ {F : Type 0} ⦃f : FloatOps F⦄ {T : Type 0} where
  unfoldable pub total_counted : TelemetryRecord F T → ℤ
  total_counted r =
      r.count_car +ℤ r.count_truck +ℤ r.count_bus +ℤ r.count_motorcycle +ℤ r.count_bicycle

  unfoldable pub count_checks : TelemetryRecord F T → List Check
  count_checks r =
      validate_non_negative_int r.count_car "count_car"
      ∷ validate_non_negative_int r.count_truck "count_truck"
      ∷ validate_non_negative_int r.count_bus "count_bus"
      ∷ validate_non_negative_int r.count_motorcycle "count_motorcycle"
      ∷ validate_non_negative_int r.count_bicycle "count_bicycle"
      ∷ validate_non_negative_int r.total_vehicles "total_vehicles"
      ∷ validate_non_negative_int r.near_zero_motion_count "near_zero_motion_count"
      ∷ validate_non_negative_int r.stationary_confirmed_count "stationary_confirmed_count"
      ∷ validate_non_negative_int r.rejected_speed_count "rejected_speed_count"
      ∷ validate_non_negative_int r.recovered_track_count "recovered_track_count"
      ∷ validate_non_negative_int r.speed_sample_count "speed_sample_count"
      ∷ []

  unfoldable pub telemetry_checks : TelemetryRecord F T → List Check
  telemetry_checks r =
      raise_if (f.lt r.avg_speed (f.of_nat 0)) "avg_speed must be >= 0"
      ∷ in_order (count_checks r) tt
      ∷ raise_if (ltℤ r.total_vehicles (total_counted r))
          "total_vehicles cannot be lower than the counted vehicles"
      ∷ validate_ratio r.speed_measurement_quality "speed_measurement_quality"
      ∷ validate_origin r.data_origin r.synthetic_scenario
      ∷ []

module _ {F : Type 0} ⦃f : FloatOps F⦄ {V S : Type 0} (pd : Pandas V S) where
  -- `__post_init__`, which stores the normalized time.
  unfoldable pub telemetry_record : TelemetryRecord F V → Result String (TelemetryRecord F S)
  telemetry_record r =
      raise_if (leℤ r.id (pos 0)) "id must be > 0" >> coerce_timestamp pd r.record_time >>= λ t.
      in_order (telemetry_checks r) tt
      >> ok (record {
        id = r.id;
        record_time = t;
        avg_speed = r.avg_speed;
        count_car = r.count_car;
        count_truck = r.count_truck;
        count_bus = r.count_bus;
        count_motorcycle = r.count_motorcycle;
        count_bicycle = r.count_bicycle;
        total_vehicles = r.total_vehicles;
        clip_id = r.clip_id;
        data_origin = r.data_origin;
        synthetic_scenario = r.synthetic_scenario;
        near_zero_motion_count = r.near_zero_motion_count;
        stationary_confirmed_count = r.stationary_confirmed_count;
        rejected_speed_count = r.rejected_speed_count;
        recovered_track_count = r.recovered_track_count;
        speed_sample_count = r.speed_sample_count;
        speed_measurement_quality = r.speed_measurement_quality;
      })

-- What Python's conversions give for an external value; a conversion that raises gives nothing.
pub record Conversions (F O : Type 0) : Type 0 where
  pub int_of : O → Option ℤ
  pub float_of : O → Option F
  pub str_of : O → String
  pub is_none : O → Bool
  -- the constants that the code passes as defaults
  pub int_value : ℤ → O
  pub float_value : F → O
  pub str_value : String → O
  pub none_value : O

module _ {F O : Type 0} (c : Conversions F O) where
  unfoldable pub coerce_int : O → String → Result String ℤ
  coerce_int value field_name = elim (c.int_of value) [ none ↦ err (field_name) | some i ↦ ok i ]

  unfoldable pub coerce_float : O → String → Result String F
  coerce_float value field_name = elim (c.float_of value) [
    | none ↦ err (field_name)
    | some x ↦ ok x
  ]

  unfoldable pub coerce_member : List String → O → String → Result String String
  coerce_member members value message =
      let text = c.str_of value in raise_if (not (contains text members)) message >> ok text

  unfoldable pub coerce_data_origin : O → Result String String
  coerce_data_origin value =
      coerce_member data_origins value "data_origin must be one of DATA_ORIGINS"

  unfoldable pub coerce_synthetic_scenario : O → Result String String
  coerce_synthetic_scenario value =
      coerce_member synthetic_scenarios value
        "synthetic_scenario must be one of SYNTHETIC_SCENARIOS"

  -- `row[name]`
  abbrev pub required : Map String O → String → Result String O
  required row name = elim (row name) [ none ↦ err name | some v ↦ ok v ]

  unfoldable pub int_field : Map String O → String → Result String ℤ
  int_field row name = required row name >>= λ v. coerce_int v name

  unfoldable pub int_field_or : Map String O → String → Result String ℤ
  int_field_or row name = coerce_int (get_or row name (c.int_value (pos 0))) name

  unfoldable pub clip_of : Map String O → Option String
  clip_of row =
      let value = get_or row "clip_id" c.none_value in
      if c.is_none value then none else some (c.str_of value)

  unfoldable pub from_mapping :
      ⦃f : FloatOps F⦄ {S : Type 0}
      → Pandas O S
      → Map String O
      → Result String (TelemetryRecord F S)
  from_mapping ⦃f = f⦄ pd row = do
    id ← int_field row "id"
    record_time ← required row "record_time"
    avg_speed ← (required row "avg_speed" >>= λ v. coerce_float v "avg_speed")
    count_car ← int_field row "count_car"
    count_truck ← int_field row "count_truck"
    count_bus ← int_field row "count_bus"
    count_motorcycle ← int_field row "count_motorcycle"
    count_bicycle ← int_field row "count_bicycle"
    total_vehicles ← int_field row "total_vehicles"
    data_origin ← coerce_data_origin (get_or row "data_origin" (c.str_value "real"))
    synthetic_scenario ←
        coerce_synthetic_scenario (get_or row "synthetic_scenario" (c.str_value "observed"))
    near_zero_motion_count ← int_field_or row "near_zero_motion_count"
    stationary_confirmed_count ← int_field_or row "stationary_confirmed_count"
    rejected_speed_count ← int_field_or row "rejected_speed_count"
    recovered_track_count ← int_field_or row "recovered_track_count"
    speed_sample_count ← int_field_or row "speed_sample_count"
    speed_measurement_quality ←
        coerce_float (get_or row "speed_measurement_quality" (c.float_value (f.of_nat 1)))
          "speed_measurement_quality"
    telemetry_record pd (record {
      id = id;
      record_time = record_time;
      avg_speed = avg_speed;
      count_car = count_car;
      count_truck = count_truck;
      count_bus = count_bus;
      count_motorcycle = count_motorcycle;
      count_bicycle = count_bicycle;
      total_vehicles = total_vehicles;
      clip_id = clip_of row;
      data_origin = data_origin;
      synthetic_scenario = synthetic_scenario;
      near_zero_motion_count = near_zero_motion_count;
      stationary_confirmed_count = stationary_confirmed_count;
      rejected_speed_count = rejected_speed_count;
      recovered_track_count = recovered_track_count;
      speed_sample_count = speed_sample_count;
      speed_measurement_quality = speed_measurement_quality;
    })
