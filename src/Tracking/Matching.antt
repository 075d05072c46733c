-- ===== src/Tracking/Matching.antt =====
-- Each detection of a frame ends in one active track: proofs about `SORTTracker.update` of
-- vaaet-core/src/vaaet/vision/tracking.py.
use vaaet.Prelude.{
  leb, Bool-cases, length, is_empty, select, All, length-append, ◌==◌, contains, ℕ, suc, ◌*◌, ◌/◌,
  ◌%◌, ◌<◌, ◌≡◌, refl, sym, ap, ◌∙◌, inl, inr, Bool, true, false, ◌||◌, some, List, [], ◌∷◌, ◌++◌,
  map, arith, nat_key, string_key,
}
use vaaet.Float.{FloatOps}
use vaaet.Tracking.{
  Track, TrackObservation, Detection, Tracker, Matched, normalize_detection, update_track,
  update_at, mark_unmatched, unmatched_tracks, active_tracks, prune, distance_row, distances,
  match_pair, match_from, match_existing, settle, update,
}
use vaaet.Tracking.Marks.{
  marked_count, marked_count-nil, marked_count-cons, div_in_range, mod_in_range, get_elem?-below,
  IsFresh, IsFresh-nil, IsFresh-update, length-update_at, active_count-append, active_count-mark,
  active_count-unmatched, active_count-prune, length-active, map-update_at, update_track-seen,
}

module _ {P : Type 0} where
  -- What holds between two rounds of the matching, for `rows` tracks that came in with their
  -- identifiers and types, and `columns` detections.
  pub record IsMatching {F : Type 0} (before : List (Track P)) (columns : ℕ) (m : Matched P F)
      : Type 0 where
    pub size : length m.tracks ≡ length before
    pub even :
        marked_count 0 (length before) m.matched_tracks
        ≡ marked_count 0 columns m.matched_detections
    pub fresh : IsFresh 0 m.matched_tracks m.tracks
    pub ids : map (λ t. t.track_id) m.tracks ≡ map (λ t. t.track_id) before
    pub types : map (λ t. t.vehicle_type) m.tracks ≡ map (λ t. t.vehicle_type) before

  matched_pair-IsMatching :
      {F : Type 0} (before : List (Track P)) (columns i j : ℕ) (o : TrackObservation P)
      (m : Matched P F)
      → i < length before
      → j < columns
      → contains i m.matched_tracks ≡ false
      → contains j m.matched_detections ≡ false
      → IsMatching before columns m
      → IsMatching before columns (record m {
        tracks = update_at i (update_track o.centroid o.road_contact) m.tracks;
        matched_tracks = i ∷ m.matched_tracks;
        matched_detections = j ∷ m.matched_detections;
      })
  matched_pair-IsMatching before columns i j o m row column free_i free_j h =
      let g = update_track o.centroid o.road_contact in
      record {
        size = length-update_at m.tracks i g ∙ h.size;
        even = omega (
          arith,
          marked_count-cons (length before) 0 i m.matched_tracks (omega arith) (omega arith) free_i,
          marked_count-cons columns 0 j m.matched_detections (omega arith) (omega arith) free_j,
          h.even,
        );
        fresh =
            IsFresh-update m.tracks 0 i i m.matched_tracks g
              (λ t. (update_track-seen o.centroid o.road_contact t).0) (omega arith) h.fresh;
        ids =
            map-update_at (λ t. t.track_id) g
              (λ t. (update_track-seen o.centroid o.road_contact t).1) m.tracks i
            ∙ h.ids;
        types =
            map-update_at (λ t. t.vehicle_type) g
              (λ t. (update_track-seen o.centroid o.road_contact t).2) m.tracks i
            ∙ h.types;
      }

  module _ {F : Type 0} ⦃f : FloatOps F⦄ (distance : P → P → F) (argsort : List F → List ℕ) where
    match_pair-IsMatching :
        (before : List (Track P)) (max_distance : F) (matrix : List F)
        (os : List (TrackObservation P)) (flat : ℕ) (m : Matched P F)
        → length matrix ≡ length before * length os
        → flat < length matrix
        → IsMatching before (length os) m
        → (m' : Matched P F) × (more : Bool) × (match_pair distance argsort max_distance matrix os
              flat m
            ≡ some (m', more))
          × IsMatching before (length os) m'
    unfolding match_pair
    match_pair-IsMatching before max_distance matrix os flat m square valid h =
        let i = flat / length os in
        let j = flat % length os in
        let inside : flat < length before * length os = omega arith in
        let row = div_in_range flat (length before) (length os) inside in
        let column = mod_in_range flat (length before) (length os) inside in
        let (d, at_flat) = get_elem?-below matrix flat valid in
        let (o, at_j) = get_elem?-below os j column in
        let (t, at_i) = get_elem?-below m.tracks i (omega (arith, h.size)) in
        elim (Bool-cases (contains i m.matched_tracks || contains j m.matched_detections)) [
          | inl busy ↦ (m, true, rw busy, h)
          | inr free ↦ elim (Bool-cases (f.lt max_distance d)) [
            | inl far ↦ (m, false, rw (free, at_flat, far), h)
            | inr near ↦ elim (Bool-cases (t.vehicle_type == o.vehicle_type)) [
              | inr other ↦ (m, true, rw (free, at_flat, near, at_j, at_i, other), h)
              | inl same ↦ (
                _,
                true,
                rw (free, at_flat, near, at_j, at_i, same),
                matched_pair-IsMatching before (length os) i j o m row column (ground arith)
                    (ground arith) h,
              )
            ]
          ]
        ]

    match_from-IsMatching :
        (before : List (Track P)) (max_distance : F) (matrix : List F)
        (os : List (TrackObservation P)) (order : List ℕ) (m : Matched P F)
        → length matrix ≡ length before * length os
        → All (λ flat. flat < length matrix) order
        → IsMatching before (length os) m
        → (m' : Matched P F) × (match_from distance argsort max_distance matrix os order m
            ≡ some m')
          × IsMatching before (length os) m'
    unfolding match_from
    match_from-IsMatching before max_distance matrix os [] m square valid h = (m, refl, h)
    match_from-IsMatching before max_distance matrix os (flat ∷ order) m square valid h =
        let (m', more, step, h') =
          match_pair-IsMatching before max_distance matrix os flat m square valid.0 h in
        let rest = match_from-IsMatching before max_distance matrix os order m' square valid.1 h' in
        continue m' more step h' rest
      where
        continue :
            (m' : Matched P F) (more : Bool)
            → match_pair distance argsort max_distance matrix os flat m ≡ some (m', more)
            → IsMatching before (length os) m'
            → (m'' : Matched P F) × (match_from distance argsort max_distance matrix os order m'
                ≡ some m'')
              × IsMatching before (length os) m''
            → (m'' : Matched P F) × (match_from distance argsort max_distance matrix os
                  (flat ∷ order)
                  m
                ≡ some m'')
              × IsMatching before (length os) m''
        continue m' true step h' (m'', e, h'') = (m'', rw (step, match_from) e, h'')
        continue m' false step h' rest = (m', rw (step, match_from), h')

  length-distance_row :
      {F : Type 0} ⦃f : FloatOps F⦄ (distance : P → P → F) (argsort : List F → List ℕ) (t : Track P)
      (os : List (TrackObservation P))
      → length (distance_row distance argsort t os) ≡ length os
  unfolding distance_row
  length-distance_row distance argsort t [] = refl
  length-distance_row distance argsort t (o ∷ os) =
      ap suc (length-distance_row distance argsort t os)

  length-distances :
      {F : Type 0} ⦃f : FloatOps F⦄ (distance : P → P → F) (argsort : List F → List ℕ)
      (ts : List (Track P)) (os : List (TrackObservation P))
      → length (distances distance argsort ts os) ≡ length ts * length os
  unfolding distances
  length-distances distance argsort [] os = omega arith
  length-distances distance argsort (t ∷ ts) os = omega (
    arith,
    length-append (distance_row distance argsort t os) (distances distance argsort ts os),
    length-distance_row distance argsort t os,
    length-distances distance argsort ts os,
  )

  start-IsMatching :
      {F : Type 0} (ts : List (Track P)) (columns : ℕ)
      → IsMatching {F = F} ts columns
          (record { tracks = ts; matched_tracks = []; matched_detections = [] })
  start-IsMatching ts columns = record {
    size = refl;
    even = marked_count-nil (length ts) 0 ∙ sym (marked_count-nil columns 0);
    fresh = IsFresh-nil ts 0;
    ids = refl;
    types = refl;
  }

-- What the program relies on of `np.argsort`: it returns indices into its argument.
abbrev pub Indexes : {F : Type 0} → (List F → List ℕ) → Type 0
Indexes {F} argsort = (xs : List F) → All (λ i. i < length xs) (argsort xs)

module _ {P F : Type 0} ⦃f : FloatOps F⦄ (distance : P → P → F) (argsort : List F → List ℕ)
    (indexes : Indexes argsort) where
  pub match_existing-IsMatching :
      (s : Tracker P F) (os : List (TrackObservation P))
      → (m : Matched P F) × (match_existing distance argsort s os ≡ some m)
        × IsMatching s.tracks (length os) m
  unfolding match_existing
  match_existing-IsMatching s os = elim (Bool-cases (is_empty os || is_empty s.tracks)) [
    | inl idle ↦ (_, rw idle, start-IsMatching s.tracks (length os))
    | inr busy ↦
        let matrix = distances distance argsort s.tracks os in
        let (m, e, h) =
          match_from-IsMatching distance argsort s.tracks s.max_distance matrix os (argsort matrix)
            _ (length-distances distance argsort s.tracks os) (indexes matrix)
            (start-IsMatching s.tracks (length os)) in
        (m, rw busy e, h)
  ]

  settle-active :
      (s : Tracker P F) (os : List (TrackObservation P)) (m : Matched P F)
      → IsMatching s.tracks (length os) m
      → length (active_tracks (settle distance argsort s os m)) ≡ length os
  unfolding settle prune active_tracks
  settle-active s os m h =
      let added = (unmatched_tracks 0 m.matched_detections s.next_id os).0 in
      let seen = mark_unmatched 0 m.matched_tracks m.tracks in
      omega (
        arith,
        length-active (select (λ t. leb t.frames_since_seen s.max_lost) (seen ++ added)),
        active_count-prune s.max_lost (seen ++ added),
        active_count-append seen added,
        active_count-mark m.tracks 0 m.matched_tracks h.fresh,
        active_count-unmatched os 0 s.next_id m.matched_detections,
        h.even,
        ap (λ n. marked_count 0 n m.matched_tracks) h.size,
      )

  length-normalize : (ds : List (Detection P)) → length (map normalize_detection ds) ≡ length ds
  length-normalize [] = refl
  length-normalize (d ∷ ds) = ap suc (length-normalize ds)

  -- `update` is total, and each detection of the frame ends in exactly one active track, matched or
  -- new: it returns as many active tracks as it was given detections.
  pub update-active :
      (s : Tracker P F) (ds : List (Detection P))
      → (s' : Tracker P F) × (active : List (Track P)) × (update distance argsort s ds
          ≡ some (s', active))
        × (length active ≡ length ds)
        × (active ≡ active_tracks s')
  unfolding update
  update-active s ds =
      let os = map normalize_detection ds in
      let (m, e, h) = match_existing-IsMatching s os in
      let s' = settle distance argsort s os m in
      (s', active_tracks s', rw e, settle-active s os m h ∙ length-normalize ds, refl)
