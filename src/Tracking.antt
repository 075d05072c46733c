-- ===== src/Tracking.antt =====
-- vaaet-core/src/vaaet/vision/tracking.py. `numpy` gives the distance of two points and the order
-- of a flattened matrix: both are parameters. The list of tracks is the tracker's own, so a track
-- that is updated in place is a changed entry of that list.
pub mod Marks
pub mod Matching
pub mod Ascending
pub mod Selected
pub mod Identity
mod Examples
use vaaet.Prelude.{
  ltb, leb, if◌then◌else◌, length, get_elem?, drop, is_empty, select, ◌==◌, contains, ℕ, zero, suc,
  ◌+◌, ◌-◌, ◌/◌, ◌%◌, String, Bool, true, false, not, ◌||◌, Option, none, some, List, [], ◌∷◌, ◌++◌,
  map, nat_key, string_key,
}
use mathlib.Core.Option
use vaaet.Float.{FloatOps}

-- TRACKER_HISTORY_MAXLEN of settings.py
abbrev pub history_maxlen : ℕ
history_maxlen = 50

-- `deque(maxlen=n).append(x)`
unfoldable pub append_bounded : {A : Type 0} → ℕ → List A → A → List A
append_bounded n xs x = drop (length xs + 1 - n) (xs ++ x ∷ [])

module _ (P : Type 0) where
  pub record TrackObservation : Type 0 where
    pub centroid : P
    pub vehicle_type : String
    pub road_contact : Option P

  pub record Track : Type 0 where
    pub track_id : ℕ
    pub vehicle_type : String
    pub centroid : P
    pub history : List P
    pub road_contact_history : List P
    pub frames_since_seen : ℕ
    pub recovered_after_gap : ℕ
    pub total_frames : ℕ
    pub counted : Bool

  -- A detection is a pair of the older contract or an observation.
  pub data Detection : Type 0 where
    pair : P → String → Detection
    observation : TrackObservation → Detection

module _ {P : Type 0} where
  -- `road_contact or centroid`
  abbrev pub contact_or : Option P → P → P
  contact_or none centroid = centroid
  contact_or (some contact) centroid = contact

  unfoldable pub normalize_detection : Detection P → TrackObservation P
  normalize_detection (pair centroid vehicle_type) = record {
    centroid = centroid;
    vehicle_type = vehicle_type;
    road_contact = none;
  }
  normalize_detection (observation o) = o

  -- `Track.update`
  unfoldable pub update_track : P → Option P → Track P → Track P
  unfolding append_bounded
  update_track centroid contact t = record t {
    centroid = centroid;
    history = append_bounded history_maxlen t.history centroid;
    road_contact_history =
        append_bounded history_maxlen t.road_contact_history (contact_or contact centroid);
    frames_since_seen = 0;
    recovered_after_gap = t.frames_since_seen;
    total_frames = t.total_frames + 1;
  }

  -- `Track.mark_counted`: the track and whether this is the first time.
  unfoldable pub mark_counted : Track P → Track P × Bool
  mark_counted t = if t.counted then (t, false) else (record t { counted = true }, true)

  unfoldable pub new_track : ℕ → TrackObservation P → Track P
  new_track id o = record {
    track_id = id;
    vehicle_type = o.vehicle_type;
    centroid = o.centroid;
    history = o.centroid ∷ [];
    road_contact_history = contact_or o.road_contact o.centroid ∷ [];
    frames_since_seen = 0;
    recovered_after_gap = 0;
    total_frames = 1;
    counted = false;
  }

  abbrev pub is_active : Track P → Bool
  is_active t = t.frames_since_seen == 0

  -- The entry at an index, changed; beyond the end nothing is.
  unfoldable pub update_at : ℕ → (Track P → Track P) → List (Track P) → List (Track P)
  update_at i f [] = []
  update_at zero f (t ∷ ts) = f t ∷ ts
  update_at (suc i) f (t ∷ ts) = t ∷ update_at i f ts

  -- `_mark_unmatched_tracks`, from the index of the first track.
  unfoldable pub mark_unmatched : ℕ → List ℕ → List (Track P) → List (Track P)
  mark_unmatched i matched [] = []
  mark_unmatched i matched (t ∷ ts) =
      (if contains i matched then t else record t { frames_since_seen = t.frames_since_seen + 1 })
      ∷ mark_unmatched (i + 1) matched ts

  -- `_append_unmatched_detections`, from the index of the first detection: the new tracks and the
  -- next identifier.
  unfoldable pub unmatched_tracks : ℕ → List ℕ → ℕ → List (TrackObservation P) → List (Track P) × ℕ
  unmatched_tracks i matched next [] = ([], next)
  unmatched_tracks i matched next (o ∷ os) = elim (contains i matched) [
    | true ↦ unmatched_tracks (i + 1) matched next os
    | false ↦
        let (rest, next') = unmatched_tracks (i + 1) matched (next + 1) os in
        (new_track next o ∷ rest, next')
  ]

module _ (P F : Type 0) where
  pub record Tracker : Type 0 where
    pub max_distance : F
    pub max_lost : ℕ
    pub tracks : List (Track P)
    pub next_id : ℕ
    pub last_pruned_track_ids : List ℕ

  -- The variables of the loop of `_match_existing_tracks`.
  pub record Matched : Type 0 where
    pub tracks : List (Track P)
    pub matched_tracks : List ℕ
    pub matched_detections : List ℕ

module _ {P F : Type 0} where
  unfoldable pub active_tracks : Tracker P F → List (Track P)
  active_tracks s = select is_active s.tracks

  unfoldable pub reset : Tracker P F → Tracker P F
  reset s = record s { tracks = []; next_id = 1; last_pruned_track_ids = [] }

  unfoldable pub prune : Tracker P F → Tracker P F
  prune s = record s {
    last_pruned_track_ids =
        map (λ t. t.track_id) (select (λ t. ltb s.max_lost t.frames_since_seen) s.tracks);
    tracks = select (λ t. leb t.frames_since_seen s.max_lost) s.tracks;
  }

module _ {P F : Type 0} ⦃f : FloatOps F⦄ (distance : P → P → F) (argsort : List F → List ℕ) where
  -- `_distance_matrix`, flattened by rows.
  unfoldable pub distance_row : Track P → List (TrackObservation P) → List F
  distance_row t [] = []
  distance_row t (o ∷ os) = distance t.centroid o.centroid ∷ distance_row t os

  unfoldable pub distances : List (Track P) → List (TrackObservation P) → List F
  distances [] os = []
  distances (t ∷ ts) os = distance_row t os ++ distances ts os

  -- One round of the loop; the second part is false after `break`, and `none` is an IndexError.
  unfoldable pub match_pair :
      F → List F → List (TrackObservation P) → ℕ → Matched P F → Option (Matched P F × Bool)
  match_pair max_distance matrix os flat m =
      let track_index = flat / length os in
      let detection_index = flat % length os in
      if contains track_index m.matched_tracks || contains detection_index m.matched_detections
      then some (m, true)
      else elim (get_elem? matrix flat) [
        | none ↦ none
        | some d ↦
            if f.lt max_distance d then some (m, false) else elim (get_elem? os detection_index) [
              | none ↦ none
              | some o ↦ elim (get_elem? m.tracks track_index) [
                | none ↦ none
                | some t ↦
                    if not (t.vehicle_type == o.vehicle_type)
                    then some (m, true)
                    else some (
                      record {
                        tracks =
                            update_at track_index (update_track o.centroid o.road_contact) m.tracks;
                        matched_tracks = track_index ∷ m.matched_tracks;
                        matched_detections = detection_index ∷ m.matched_detections;
                      },
                      true,
                    )
              ]
            ]
      ]

  unfoldable pub match_from :
      F → List F → List (TrackObservation P) → List ℕ → Matched P F → Option (Matched P F)
  match_from max_distance matrix os [] m = some m
  match_from max_distance matrix os (flat ∷ order) m =
      elim (match_pair max_distance matrix os flat m) [
        | none ↦ none
        | some (m', true) ↦ match_from max_distance matrix os order m'
        | some (m', false) ↦ some m'
      ]

  -- `_match_existing_tracks`
  unfoldable pub match_existing : Tracker P F → List (TrackObservation P) → Option (Matched P F)
  match_existing s os =
      let unmatched : Matched P F = record {
        tracks = s.tracks;
        matched_tracks = [];
        matched_detections = [];
      } in
      if is_empty os || is_empty s.tracks
      then some unmatched
      else let matrix = distances s.tracks os in
        match_from s.max_distance matrix os (argsort matrix) unmatched

  -- The rest of `update`, once the matching is known.
  unfoldable pub settle : Tracker P F → List (TrackObservation P) → Matched P F → Tracker P F
  settle s os m =
      let (added, next) = unmatched_tracks 0 m.matched_detections s.next_id os in
      prune
        (record s { tracks = mark_unmatched 0 m.matched_tracks m.tracks ++ added; next_id = next })

  unfoldable pub update : Tracker P F → List (Detection P) → Option (Tracker P F × List (Track P))
  update s detections =
      let os = map normalize_detection detections in
      Option.map (λ m. let s' = settle s os m in (s', active_tracks s')) (match_existing s os)
