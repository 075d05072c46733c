-- ===== src/Tracking/Identity.antt =====
-- The identities of tracks through frames: proofs about `SORTTracker` of
-- vaaet-core/src/vaaet/vision/tracking.py.
use vaaet.Prelude.{
  ltb, leb, All, contains, ℕ, ◌+◌, ◌≤◌, ◌<◌, ◌≡◌, ap, ◌∙◌, subst, Bool, true, false, ◌||◌, some,
  List, [], ◌∷◌, ◌++◌, map, arith, nat_key, string_key,
}
use vaaet.Float.{FloatOps}
use vaaet.Tracking.{
  Track, TrackObservation, Detection, Tracker, Matched, normalize_detection, mark_unmatched,
  unmatched_tracks, active_tracks, prune, reset, settle, update,
}
use vaaet.Tracking.Matching.{Indexes, match_existing-IsMatching}
use vaaet.Tracking.Ascending.{
  IsAscending, IsAscending-append, contains-append, IsAscending-contains, contains-rest,
}
use vaaet.Tracking.Selected.{
  ids, ids-mark, ids-append, IsAscending-select, IsAscending-unmatched, select-All, contains-select,
  contains-of_select, select-disjoint, select-front, unmatched-All,
}

-- The tracks of a tracker have distinct identifiers, in order, from 1 and below the next one.
pub record IsTracker {P F : Type 0} (s : Tracker P F) : Type 0 where
  pub ascending : IsAscending 1 (ids s.tracks) s.next_id
  pub not_lost : All (λ t. leb t.frames_since_seen s.max_lost ≡ true) s.tracks

pub reset-IsTracker : {P F : Type 0} (s : Tracker P F) → IsTracker (reset s)
unfolding reset
reset-IsTracker s = record { ascending = omega arith; not_lost = tt }

module _ {P F : Type 0} ⦃f : FloatOps F⦄ (distance : P → P → F) (argsort : List F → List ℕ)
    (indexes : Indexes argsort) where
  merged : Tracker P F → List (TrackObservation P) → Matched P F → List (Track P)
  merged s os m =
      mark_unmatched 0 m.matched_tracks m.tracks
      ++ (unmatched_tracks 0 m.matched_detections s.next_id os).0

  ids-merged :
      (s : Tracker P F) (os : List (TrackObservation P)) (m : Matched P F)
      → ids m.tracks ≡ ids s.tracks
      → ids (merged s os m)
        ≡ ids s.tracks ++ ids (unmatched_tracks 0 m.matched_detections s.next_id os).0
  unfolding merged
  ids-merged s os m same =
      ids-append (mark_unmatched 0 m.matched_tracks m.tracks)
        (unmatched_tracks 0 m.matched_detections s.next_id os).0
      ∙ ap (λ is. is ++ ids (unmatched_tracks 0 m.matched_detections s.next_id os).0)
          (ids-mark m.tracks 0 m.matched_tracks ∙ same)

  merged-IsAscending :
      (s : Tracker P F) (os : List (TrackObservation P)) (m : Matched P F)
      → ids m.tracks ≡ ids s.tracks
      → IsAscending 1 (ids s.tracks) s.next_id
      → IsAscending 1 (ids (merged s os m)) (unmatched_tracks 0 m.matched_detections s.next_id os).1
  merged-IsAscending s os m same asc = rw (ids-merged s os m same) (
      IsAscending-append (ids s.tracks) _ 1 s.next_id _ asc
        (IsAscending-unmatched os 0 s.next_id m.matched_detections))

  next_id-le :
      (os : List (TrackObservation P)) (k next : ℕ) (marks : List ℕ)
      → next ≤ (unmatched_tracks k marks next os).1
  unfolding unmatched_tracks
  next_id-le [] k next marks = omega arith
  next_id-le (o ∷ os) k next marks =
      ground (arith, next_id-le os (k + 1) next marks, next_id-le os (k + 1) (next + 1) marks)

  -- What one `update` does to the identities of a tracker.
  pub record IsUpdated (s s' : Tracker P F) : Type 0 where
    pub valid : IsTracker s'
    pub monotone : s.next_id ≤ s'.next_id
    pub accounted :
        (id : ℕ)
        → contains id (ids s.tracks) ≡ true
        → (contains id (ids s'.tracks) || contains id s'.last_pruned_track_ids) ≡ true
    pub pruned :
        (id : ℕ)
        → contains id s'.last_pruned_track_ids ≡ true
        → (contains id (ids s.tracks) ≡ true) × (contains id (ids s'.tracks) ≡ false)
    pub fresh :
        (id : ℕ)
        → contains id (ids s'.tracks) ≡ true
        → contains id (ids s.tracks) ≡ false
        → (s.next_id ≤ id) × (id < s'.next_id)

  settle-IsUpdated :
      (s : Tracker P F) (os : List (TrackObservation P)) (m : Matched P F)
      → ids m.tracks ≡ ids s.tracks
      → IsTracker s
      → IsUpdated s (settle distance argsort s os m)
  unfolding settle prune
  settle-IsUpdated s os m same h =
      let all_tracks = merged s os m in
      let added = (unmatched_tracks 0 m.matched_detections s.next_id os).0 in
      let keep : Track P → Bool = λ t. leb t.frames_since_seen s.max_lost in
      let lost : Track P → Bool = λ t. ltb s.max_lost t.frames_since_seen in
      record {
        valid = record {
          ascending =
              unfold merged in
              IsAscending-select keep all_tracks 1
                (unmatched_tracks 0 m.matched_detections s.next_id os).1
                (merged-IsAscending s os m same h.ascending);
          not_lost = unfold merged in select-All keep all_tracks;
        };
        monotone = next_id-le os 0 s.next_id m.matched_detections;
        accounted = λ id listed.
            unfold merged in
            contains-select keep (λ t. ltb s.max_lost t.frames_since_seen) all_tracks id
              (λ t. ground arith)
              (rw (ids-merged s os m same) (contains-append (ids s.tracks) (ids added) id listed));
        pruned = λ id reported. (
          unfold merged in
              subst (λ is. contains id is ≡ true) (ids-mark m.tracks 0 m.matched_tracks ∙ same)
                (select-front lost (mark_unmatched 0 m.matched_tracks m.tracks) added id
                  (unmatched-All os 0 s.next_id s.max_lost m.matched_detections) reported),
          unfold merged in
              select-disjoint lost keep all_tracks 1
                (unmatched_tracks 0 m.matched_detections s.next_id os).1 id (λ t. ground arith)
                (merged-IsAscending s os m same h.ascending) reported,
        );
        fresh = λ id listed is_new.
            unfold merged in
            let among : contains id (ids s.tracks ++ ids added) ≡ true =
              subst (λ is. contains id is ≡ true) (ids-merged s os m same)
                (contains-of_select keep all_tracks id listed) in
            IsAscending-contains (ids added) s.next_id
              (unmatched_tracks 0 m.matched_detections s.next_id os).1 id
              (IsAscending-unmatched os 0 s.next_id m.matched_detections)
              (contains-rest (ids s.tracks) (ids added) id among is_new);
      }

  -- Identity through a frame: `update` keeps the identifiers distinct and below the next one, and
  -- leaves no track that is absent for more frames than `max_lost`. A track that was not there has an
  -- identifier from the former next one on, below the new one, which does not fall. The tracks in
  -- `last_pruned_track_ids` are exactly those that the update drops.
  pub update-IsTracker :
      (s : Tracker P F) (ds : List (Detection P))
      → IsTracker s
      → (s' : Tracker P F) × (active : List (Track P)) × (update distance argsort s ds
          ≡ some (s', active))
        × IsUpdated s s'
  unfolding update
  update-IsTracker s ds h =
      let os = map normalize_detection ds in
      let (m, e, matching) = match_existing-IsMatching distance argsort indexes s os in
      let s' = settle distance argsort s os m in
      (s', active_tracks s', rw e, settle-IsUpdated s os m matching.ids h)
