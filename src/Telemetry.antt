-- ===== src/Telemetry.antt =====
-- vaaet-core/src/vaaet/vision/telemetry.py: `MinuteTelemetryAccumulator`. A set is the list of its
-- members without repetition, a dictionary of counts the list of its entries.
pub mod Counts
pub mod Members
pub mod Observed
pub mod Minute
mod Examples
use vaaet.Prelude.{
  ltb, if◌then◌else◌, length, is_empty, select, Result, ok, ◌>>◌, raise_if, ◌==◌, contains, ℕ, ◌+◌,
  String, Bool, false, not, ◌||◌, Option, none, some, List, [], ◌∷◌, ◌++◌, nat_key, string_key,
}
use vaaet.Float.{FloatOps, NumPy}
use vaaet.Motion.{robust_speed_summary}
use vaaet.Prelude.Text.{concat, is_blank}
use vaaet.Tracking.{Track, mark_counted}

-- `ids.add(i)`
unfoldable pub add_id : ℕ → List ℕ → List ℕ
add_id i ids = if contains i ids then ids else i ∷ ids

-- `ids.discard(i)`, which the session calls for a track that was pruned
unfoldable pub discard_id : ℕ → List ℕ → List ℕ
discard_id i ids = select (λ j. not (j == i)) ids

abbrev pub Counts : Type 0
Counts = List (String × ℕ)

-- `counts[t] = counts.get(t, 0) + n`
unfoldable pub add_count : String → ℕ → Counts → Counts
add_count t n [] = (t, n) ∷ []
add_count t n ((k, m) ∷ counts) =
    let rest = add_count t n counts in if t == k then (k, m + n) ∷ counts else (k, m) ∷ rest

-- `counts.get(t, 0)`
unfoldable pub count_of : String → Counts → ℕ
count_of t [] = 0
count_of t ((k, m) ∷ counts) = let rest = count_of t counts in if t == k then m else rest

-- `sum(counts.values())`
unfoldable pub total_of : Counts → ℕ
total_of [] = 0
total_of ((k, m) ∷ counts) = m + total_of counts

abbrev pub empty_vehicle_counts : Counts
empty_vehicle_counts =
    ("car", 0) ∷ ("truck", 0) ∷ ("bus", 0) ∷ ("motorcycle", 0) ∷ ("bicycle", 0) ∷ []

-- `any(counts.values())`
unfoldable pub has_count : Counts → Bool
has_count [] = false
has_count ((k, m) ∷ counts) = ltb 0 m || has_count counts

unfoldable pub accumulate : Counts → Counts → Counts
accumulate [] cumulative = cumulative
accumulate ((k, m) ∷ counts) cumulative = accumulate counts (add_count k m cumulative)

pub record Accumulator (F : Type 0) : Type 0 where
  pub clip_id : String
  pub minute_counts : Counts
  pub minute_speeds : List F
  pub flow_tracking_ratios : List F
  pub counted_tracks : List ℕ
  pub observed_track_ids : List ℕ
  pub near_zero_track_ids : List ℕ
  pub stationary_track_ids : List ℕ
  pub rejected_speed_track_ids : List ℕ
  pub recovered_track_ids : List ℕ
  pub reliable_speed_track_ids : List ℕ
  pub cumulative_counts : Counts

-- The keyword arguments of `observe_track`.
pub record Observation (F : Type 0) : Type 0 where
  pub smoothed_speed : Option F
  pub reliable : Bool
  pub near_zero_motion : Bool
  pub stationary_confirmed : Bool
  pub recovered_gap : ℕ
  pub flow_tracking_ratio : F

module _ {F : Type 0} where
  -- The branches that classify the speed of an observation.
  unfoldable pub observe_speed : ℕ → Observation F → Accumulator F → Accumulator F
  observe_speed i o a =
      if o.stationary_confirmed
      then record a { stationary_track_ids = add_id i a.stationary_track_ids }
      else if not o.reliable
      then record a {
        rejected_speed_track_ids = add_id i a.rejected_speed_track_ids;
        recovered_track_ids =
            if ltb 0 o.recovered_gap then add_id i a.recovered_track_ids else a.recovered_track_ids;
      }
      else elim o.smoothed_speed [
        | none ↦ a
        | some speed ↦ record a {
          minute_speeds = a.minute_speeds ++ speed ∷ [];
          reliable_speed_track_ids = add_id i a.reliable_speed_track_ids;
        }
      ]

  unfoldable pub observe_motion : ℕ → Observation F → Accumulator F → Accumulator F
  observe_motion i o a = record a {
    observed_track_ids = add_id i a.observed_track_ids;
    near_zero_track_ids =
        if o.near_zero_motion then add_id i a.near_zero_track_ids else a.near_zero_track_ids;
  }

  -- The count of a track that this minute has not counted and that was not counted before.
  unfoldable pub count_track : {P : Type 0} → Track P → Accumulator F → Accumulator F × Track P
  count_track t a =
      if contains t.track_id a.counted_tracks
      then (a, t)
      else let marked = mark_counted t in
        if marked.1
        then (
          record a {
            minute_counts = add_count t.vehicle_type 1 a.minute_counts;
            counted_tracks = add_id t.track_id a.counted_tracks;
          },
          marked.0,
        )
        else (a, marked.0)

  unfoldable pub add_ratio : Observation F → Accumulator F → Accumulator F
  add_ratio o a = record a {
    flow_tracking_ratios = a.flow_tracking_ratios ++ o.flow_tracking_ratio ∷ [];
  }

  unfoldable pub observe_track :
      {P : Type 0} → Track P → Observation F → Accumulator F → Accumulator F × Track P
  observe_track t o a =
      count_track t (add_ratio o (observe_speed t.track_id o (observe_motion t.track_id o a)))

  unfoldable pub has_pending_data : Accumulator F → Bool
  has_pending_data a =
      not (is_empty a.observed_track_ids)
      || not (is_empty a.minute_speeds)
      || has_count a.minute_counts

  unfoldable pub clear_minute : Accumulator F → Accumulator F
  clear_minute a = record a {
    minute_counts = empty_vehicle_counts;
    minute_speeds = [];
    flow_tracking_ratios = [];
    counted_tracks = [];
    observed_track_ids = [];
    near_zero_track_ids = [];
    stationary_track_ids = [];
    rejected_speed_track_ids = [];
    recovered_track_ids = [];
    reliable_speed_track_ids = [];
  }

  unfoldable pub rollover_minute : Accumulator F → Accumulator F
  rollover_minute a =
      clear_minute (record a { cumulative_counts = accumulate a.minute_counts a.cumulative_counts })

  unfoldable pub discard_minute : Accumulator F → Accumulator F
  discard_minute a = clear_minute a

-- What `build_record` materializes, next to the record's time and the schema's version.
pub record MinuteRecord (F : Type 0) : Type 0 where
  pub clip_id : String
  pub continuity_id : String
  pub avg_speed : F
  pub count_car : ℕ
  pub count_truck : ℕ
  pub count_bus : ℕ
  pub count_motorcycle : ℕ
  pub count_bicycle : ℕ
  pub total_vehicles : ℕ
  pub near_zero_motion_count : ℕ
  pub stationary_confirmed_count : ℕ
  pub rejected_speed_count : ℕ
  pub recovered_track_count : ℕ
  pub speed_sample_count : ℕ
  pub speed_measurement_quality : F
  pub optical_flow_tracking_ratio : F

-- `ids - others`
unfoldable pub difference : List ℕ → List ℕ → List ℕ
difference ids others = select (λ i. not (contains i others)) ids

-- `continuity_id or f"{clip_id}:continuity-0001"`
unfoldable pub resolve_continuity : String → Option String → String
resolve_continuity clip_id none = concat (clip_id ∷ ":continuity-0001" ∷ [])
resolve_continuity clip_id (some i) =
    if i == "" then concat (clip_id ∷ ":continuity-0001" ∷ []) else i

module _ {F : Type 0} ⦃f : FloatOps F⦄ where
  unfoldable pub sum_ratios : List F → F → F
  sum_ratios [] total = total
  sum_ratios (x ∷ xs) total = sum_ratios xs (f.add total x)

  unfoldable pub average_flow : List F → F
  average_flow ratios =
      if is_empty ratios
      then f.of_nat 1
      else f.div (sum_ratios ratios (f.of_nat 0)) (f.of_nat (length ratios))

  unfoldable pub quality_of : ℕ → ℕ → F
  quality_of samples rejected =
      if ltb 0 (samples + rejected)
      then f.round 4 (f.div (f.of_nat samples) (f.of_nat (samples + rejected)))
      else f.of_nat 0

  unfoldable pub minute_record : NumPy F → F → F → String → Accumulator F → MinuteRecord F
  minute_record np ratio sigma resolved a =
      let samples = length a.reliable_speed_track_ids in
      let rejected = length (difference a.rejected_speed_track_ids a.reliable_speed_track_ids) in
      record {
        clip_id = a.clip_id;
        continuity_id = resolved;
        avg_speed = f.round 2 (
            if is_empty a.minute_speeds
            then f.of_nat 0
            else robust_speed_summary np ratio sigma a.minute_speeds);
        count_car = count_of "car" a.minute_counts;
        count_truck = count_of "truck" a.minute_counts;
        count_bus = count_of "bus" a.minute_counts;
        count_motorcycle = count_of "motorcycle" a.minute_counts;
        count_bicycle = count_of "bicycle" a.minute_counts;
        total_vehicles = total_of a.minute_counts;
        near_zero_motion_count = length a.near_zero_track_ids;
        stationary_confirmed_count = length a.stationary_track_ids;
        rejected_speed_count = rejected;
        recovered_track_count = length a.recovered_track_ids;
        speed_sample_count = samples;
        speed_measurement_quality = quality_of samples rejected;
        optical_flow_tracking_ratio = f.round 4 (average_flow a.flow_tracking_ratios);
      }

  -- `build_record`, with the trim ratio and the sigma of settings.py.
  unfoldable pub build_record :
      NumPy F → F → F → Option String → Accumulator F → Result String (MinuteRecord F)
  build_record np ratio sigma continuity_id a =
      let resolved = resolve_continuity a.clip_id continuity_id in
      raise_if (is_blank resolved) "continuity_id is required for every telemetry minute."
      >> ok (minute_record np ratio sigma resolved a)
