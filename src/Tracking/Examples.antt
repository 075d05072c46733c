-- ===== src/Tracking/Examples.antt =====
-- Runs of the model of vaaet-core/src/vaaet/vision/tracking.py on a line of positions.
use vaaet.Prelude.{
  length, All, ℕ, ◌+◌, ◌-◌, ◌≤◌, ◌<◌, String, ◌≡◌, refl, Option, none, some, List, [], ◌∷◌, map,
  arith,
}
use vaaet.Float.{FloatOps, ten_thousandths}
use vaaet.Tracking
use vaaet.Tracking.{
  Track, TrackObservation, Detection, pair, Tracker, active_tracks, reset, update,
  normalize_detection,
}
use vaaet.Tracking.Matching.{Indexes, update-active}
use vaaet.Tracking.Identity.{IsUpdated, reset-IsTracker, update-IsTracker}

instance abbrev scaled : FloatOps ℕ
scaled = ten_thousandths

distance : ℕ → ℕ → ℕ
distance a b = (a - b) + (b - a)

-- The indices of a list from `i` on: the order that a sort leaves where it has nothing to move.
indices_from : ℕ → List ℕ → List ℕ
indices_from i [] = []
indices_from i (x ∷ xs) = i ∷ indices_from (i + 1) xs

indices : List ℕ → List ℕ
indices xs = indices_from 0 xs

indices_from-below :
    (xs : List ℕ) (i n : ℕ) → i + length xs ≤ n → All (λ j. j < n) (indices_from i xs)
unfolding indices_from
indices_from-below [] i n h = tt
indices_from-below (x ∷ xs) i n h = (omega arith, indices_from-below xs (i + 1) n (omega arith))

indices-Indexes : Indexes indices
unfolding indices
indices-Indexes xs = indices_from-below xs 0 (length xs) (omega arith)

abbrev empty : Tracker ℕ ℕ
empty = record {
  max_distance = 100;
  max_lost = 60;
  tracks = [];
  next_id = 7;
  last_pruned_track_ids = [];
}

abbrev frame : List (Detection ℕ)
frame = pair 10 "car" ∷ pair 500 "bus" ∷ []

program : Unit {0}
unfolding distance indices indices_from update Tracking.match_existing Tracking.match_from
    Tracking.match_pair Tracking.distances Tracking.distance_row Tracking.settle Tracking.prune
    Tracking.unmatched_tracks Tracking.mark_unmatched Tracking.new_track Tracking.update_track
    Tracking.append_bounded Tracking.update_at normalize_detection active_tracks reset
program = tt

-- Two frames: the car moves on, the bus is missed, and a truck appears with a new identifier.
abbrev seen : Option (Tracker ℕ ℕ × List (Track ℕ)) → List (ℕ × String × ℕ)
seen none = []
seen (some (s, _)) = map (λ t. (t.track_id, t.vehicle_type, t.frames_since_seen)) s.tracks

abbrev second : Option (Tracker ℕ ℕ × List (Track ℕ)) → Option (Tracker ℕ ℕ × List (Track ℕ))
second none = none
second (some (s, _)) = update distance indices s (pair 12 "car" ∷ pair 30 "truck" ∷ [])

two_frames :
    seen (second (update distance indices (reset empty) frame))
    ≡ (1, "car", 0) ∷ (2, "bus", 1) ∷ (3, "truck", 0) ∷ []
unfolding program
two_frames = refl

update-active_example :
    (s' : Tracker ℕ ℕ) × (active : List (Track ℕ)) × (update distance indices (reset empty) frame
      ≡ some (s', active))
    × (length active ≡ 2)
    × (active ≡ active_tracks s')
update-active_example = update-active distance indices indices-Indexes (reset empty) frame

update-IsTracker_example :
    (s' : Tracker ℕ ℕ) × (active : List (Track ℕ)) × (update distance indices (reset empty) frame
      ≡ some (s', active))
    × IsUpdated distance indices indices-Indexes (reset empty) s'
update-IsTracker_example =
    update-IsTracker distance indices indices-Indexes (reset empty) frame (reset-IsTracker empty)
