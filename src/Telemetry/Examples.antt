-- ===== src/Telemetry/Examples.antt =====
-- A minute with a car that is counted once, at concrete values.
use vaaet.Prelude.{length, sum, ok, ℕ, ◌+◌, ◌/◌, ◌≤◌, ◌≡◌, refl, true, false, some, [], ◌∷◌}
use vaaet.Float.{FloatOps, NumPy, ten_thousandths}
use vaaet.Tracking.{Track}
use vaaet.Telemetry.{
  Accumulator, Observation, observe_track, clear_minute, MinuteRecord, resolve_continuity,
  build_record,
}
use vaaet.Telemetry
use vaaet.Tracking
use vaaet.Telemetry.Minute.{
  Reaches, begun, observed, pruned, forget_counted, reached-IsMinute, build_record-fits,
}
use vaaet.Telemetry.Observed.{IsMinute}

instance abbrev floats : FloatOps ℕ
floats = ten_thousandths

abbrev whole : NumPy ℕ
whole = record {
  median = λ xs. sum xs / length xs;
  mean = λ xs. sum xs / length xs;
  sort = λ xs. xs;
  maximum = sum;
}

abbrev new_accumulator : Accumulator ℕ
new_accumulator = record {
  clip_id = "clip";
  minute_counts = [];
  minute_speeds = [];
  flow_tracking_ratios = [];
  counted_tracks = [];
  observed_track_ids = [];
  near_zero_track_ids = [];
  stationary_track_ids = [];
  rejected_speed_track_ids = [];
  recovered_track_ids = [];
  reliable_speed_track_ids = [];
  cumulative_counts = ("car", 4) ∷ [];
}

abbrev car : Track ℕ
car = record {
  track_id = 8;
  vehicle_type = "car";
  centroid = 100;
  history = [];
  road_contact_history = [];
  frames_since_seen = 0;
  recovered_after_gap = 0;
  total_frames = 9;
  counted = false;
}

abbrev moving : Observation ℕ
moving = record {
  smoothed_speed = some 300000;
  reliable = true;
  near_zero_motion = false;
  stationary_confirmed = false;
  recovered_gap = 0;
  flow_tracking_ratio = 9000;
}

abbrev one_car : Accumulator ℕ
one_car = (observe_track car moving (clear_minute new_accumulator)).0

-- The car is counted, then its track is pruned within the minute.
abbrev car_pruned : Accumulator ℕ
car_pruned = forget_counted 8 one_car

counting : Unit {0}
unfolding observe_track Telemetry.count_track Telemetry.add_ratio Telemetry.observe_speed
    Telemetry.observe_motion Telemetry.add_id Telemetry.discard_id clear_minute
    Tracking.mark_counted resolve_continuity
counting = tt

car_pruned-Reaches : Reaches ℕ 1 car_pruned
unfolding counting
car_pruned-Reaches =
    pruned 8 0 one_car
      (observed car moving 0 (clear_minute new_accumulator) (begun new_accumulator))

reached-IsMinute_example : IsMinute 1 car_pruned
reached-IsMinute_example = reached-IsMinute ℕ 1 car_pruned car_pruned-Reaches

build_record-fits_example :
    (r : MinuteRecord ℕ) × (build_record whole 2000 35000 (some "segment") car_pruned ≡ ok r)
    × (r.total_vehicles ≡ 1)
    × (r.count_car + r.count_truck + r.count_bus + r.count_motorcycle + r.count_bicycle
        ≤ r.total_vehicles)
unfolding counting
build_record-fits_example =
    build_record-fits ℕ whole 2000 35000 (some "segment") 1 car_pruned car_pruned-Reaches refl
