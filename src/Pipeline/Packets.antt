-- ===== src/Pipeline/Packets.antt =====
-- vaaet-core/src/vaaet/vision/pipeline.py: the packets that the filters pass on, with their checks.
use vaaet.Prelude.{
  ltb, if◌then◌else◌, all, select, Result, ok, err, ◌==◌, contains, ℕ, zero, suc, ◌+◌, ◌*◌, ◌/◌,
  String, Bool, false, ◌||◌, some, List, [], ◌∷◌, map, ℤ, pos, negsuc, ◌+ℤ◌, nat_key, string_key,
}
use vaaet.Float.{FloatOps}
use vaaet.Motion.Smoothing as Smoothing
use vaaet.Motion.Stationary as Stationary
use vaaet.Pipeline.{VideoError, Pixel, Detection, Filters, plan_error}
use vaaet.Telemetry.{discard_id}
use vaaet.Tracking.{Track, TrackObservation}
use vaaet.ViewPlan.{PlanError}
use vaaet.ViewPlan.Calibration.{Point}

pub record FramePacket (Frame F T : Type 0) : Type 0 where
  pub clip_id : String
  pub frame_index : ℕ
  pub fps : F
  pub elapsed_seconds : F
  pub capture_time : T
  pub frame : Frame

pub record Perception (F : Type 0) : Type 0 where
  pub global_motion : Point F
  pub flow_tracking_ratio : F
  pub detections : List (Detection F)

-- `floor(x / 2)`
abbrev pub half : ℤ → ℤ
half (pos n) = pos (n / 2)
half (negsuc n) = negsuc (n / 2)

abbrev pub negative : ℤ → ℤ
negative (pos zero) = pos zero
negative (pos (suc n)) = negsuc n
negative (negsuc n) = pos (suc n)

abbrev pub square : ℤ → ℕ
square (pos n) = n * n
square (negsuc n) = suc n * suc n

unfoldable pub lift_plan : {A : Type 0} → Result PlanError A → Result VideoError A
lift_plan (ok x) = ok x
lift_plan (err e) = err (plan_error e)

abbrev pub as_observation : {F : Type 0} → Detection F → TrackObservation Pixel
as_observation d = record {
  centroid = (half (d.x1 +ℤ d.x2), half (d.y1 +ℤ d.y2));
  vehicle_type = d.vehicle_type;
  road_contact = some (half (d.x1 +ℤ d.x2), d.y2);
}

abbrev pub box_of : {F : Type 0} → Detection F → ℤ × ℤ × ℤ × ℤ
box_of d = (d.x1, d.y1, d.x2, d.y2)

unfoldable pub squared_distance : {F : Type 0} → Pixel → Detection F → ℕ
squared_distance p d =
    square (half (d.x1 +ℤ d.x2) +ℤ negative p.0) + square (half (d.y1 +ℤ d.y2) +ℤ negative p.1)

-- `min`: the first of the nearest.
unfoldable pub nearest : {F : Type 0} → Pixel → Detection F → List (Detection F) → Detection F
nearest p best [] = best
nearest p best (d ∷ ds) =
    nearest p (if ltb (squared_distance p d) (squared_distance p best) then d else best) ds

unfoldable pub nearest_detection_bbox :
    {F : Type 0} → Track Pixel → List (Detection F) → ℤ × ℤ × ℤ × ℤ
nearest_detection_bbox t detections =
    elim (select (λ (d : Detection _). d.vehicle_type == t.vehicle_type) detections) [
      | [] ↦ (
        t.centroid.0 +ℤ negsuc 29,
        t.centroid.1 +ℤ negsuc 19,
        t.centroid.0 +ℤ pos 30,
        t.centroid.1 +ℤ pos 20,
      )
      | d ∷ ds ↦ box_of (nearest t.centroid d ds)
    ]

-- `len(ids) != len(set(ids))`
unfoldable pub repeats : List ℕ → Bool
repeats [] = false
repeats (i ∷ ids) = contains i ids || repeats ids

abbrev pub all_within : List ℕ → List ℕ → Bool
all_within ids others = all (λ i. contains i others) ids

-- The track that the tracker shares with the telemetry, after a mark.
unfoldable pub replace_track : Track Pixel → List (Track Pixel) → List (Track Pixel)
replace_track t ts = map (λ (u : Track Pixel). if u.track_id == t.track_id then t else u) ts

module _ {Gray F : Type 0} ⦃f : FloatOps F⦄ where
  -- What is forgotten of a track that the tracker pruned.
  unfoldable pub forget_track : ℕ → Filters Gray F → Filters Gray F
  forget_track track_id s = record s {
    speeds = Smoothing.remove_track s.speeds track_id;
    votes = Stationary.remove_track s.votes track_id;
    accumulator = record (s.accumulator) {
      counted_tracks = discard_id track_id s.accumulator.counted_tracks;
    };
  }

  unfoldable pub forget_tracks : List ℕ → Filters Gray F → Filters Gray F
  forget_tracks [] s = s
  forget_tracks (i ∷ ids) s = forget_tracks ids (forget_track i s)
