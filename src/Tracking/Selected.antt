-- ===== src/Tracking/Selected.antt =====
-- The identifiers of the tracks that `SORTTracker` of vaaet-core/src/vaaet/vision/tracking.py adds,
-- keeps and prunes.
use vaaet.Prelude.{
  ltb, Bool-cases, select, All, ◌==◌, contains, ℕ, ◌+◌, ◌<◌, ◌≡◌, refl, ap, inl, inr, Bool, true,
  false, ◌&&◌, ◌||◌, List, [], ◌∷◌, ◌++◌, map, arith, nat_key, string_key,
}
use vaaet.Tracking.{Track, TrackObservation, mark_unmatched, unmatched_tracks, new_track}
use vaaet.Tracking.Ascending.{IsAscending, IsAscending-lower, IsAscending-excludes}

module _ {P : Type 0} where
  abbrev pub ids : List (Track P) → List ℕ
  ids ts = map (λ t. t.track_id) ts

  pub ids-mark :
      (ts : List (Track P)) (k : ℕ) (marks : List ℕ) → ids (mark_unmatched k marks ts) ≡ ids ts
  unfolding mark_unmatched
  ids-mark [] k marks = refl
  ids-mark (t ∷ ts) k marks = ground (arith, ids-mark ts (k + 1) marks)

  pub ids-append : (ts us : List (Track P)) → ids (ts ++ us) ≡ ids ts ++ ids us
  ids-append [] us = refl
  ids-append (t ∷ ts) us = ap (λ is. t.track_id ∷ is) (ids-append ts us)

  pub IsAscending-select :
      (p : Track P → Bool) (ts : List (Track P)) (low high : ℕ)
      → IsAscending low (ids ts) high
      → IsAscending low (ids (select p ts)) high
  IsAscending-select p [] low high asc = asc
  IsAscending-select p (t ∷ ts) low high asc = elim (Bool-cases (p t)) [
    | inl kept ↦ rw kept (asc.0, IsAscending-select p ts (t.track_id + 1) high asc.1)
    | inr dropped ↦ rw dropped (
        IsAscending-lower (ids (select p ts)) (t.track_id + 1) low high (omega arith)
          (IsAscending-select p ts (t.track_id + 1) high asc.1))
  ]

  -- New tracks take the identifiers from the next one on.
  pub IsAscending-unmatched :
      (os : List (TrackObservation P)) (k next : ℕ) (marks : List ℕ)
      → IsAscending next
          (ids (unmatched_tracks k marks next os).0)
          (unmatched_tracks k marks next os).1
  unfolding unmatched_tracks new_track
  IsAscending-unmatched [] k next marks = omega arith
  IsAscending-unmatched (o ∷ os) k next marks =
      elim (contains k marks) as (λ b. IsAscending next (ids (branch b).0) (branch b).1) [
        | true ↦ IsAscending-unmatched os (k + 1) next marks
        | false ↦ (omega arith, IsAscending-unmatched os (k + 1) (next + 1) marks)
      ]
    where
      branch : Bool → List (Track P) × ℕ
      branch true = unmatched_tracks (k + 1) marks next os
      branch false = (
        new_track next o ∷ (unmatched_tracks (k + 1) marks (next + 1) os).0,
        (unmatched_tracks (k + 1) marks (next + 1) os).1,
      )

  pub select-All : (p : Track P → Bool) (ts : List (Track P)) → All (λ t. p t ≡ true) (select p ts)
  select-All p [] = tt
  select-All p (t ∷ ts) = elim (Bool-cases (p t)) [
    | inl kept ↦ rw kept (kept, select-All p ts)
    | inr dropped ↦ rw dropped (select-All p ts)
  ]

  -- A track that a selection drops is among those that the opposite selection keeps.
  pub contains-select :
      (p q : Track P → Bool) (ts : List (Track P)) (id : ℕ)
      → ((t : Track P) → (p t || q t) ≡ true)
      → contains id (ids ts) ≡ true
      → (contains id (ids (select p ts)) || contains id (ids (select q ts))) ≡ true
  contains-select p q [] id split h = cc
  contains-select p q (t ∷ ts) id split h = ground (arith, split t, contains-select p q ts id split)

  pub contains-of_select :
      (p : Track P → Bool) (ts : List (Track P)) (id : ℕ)
      → contains id (ids (select p ts)) ≡ true
      → contains id (ids ts) ≡ true
  contains-of_select p [] id h = h
  contains-of_select p (t ∷ ts) id h = ground (arith, contains-of_select p ts id)

  select-excludes :
      (p : Track P → Bool) (ts : List (Track P)) (low high id : ℕ)
      → IsAscending low (ids ts) high
      → id < low
      → contains id (ids (select p ts)) ≡ false
  select-excludes p ts low high id asc below =
      IsAscending-excludes (ids (select p ts)) low high id (IsAscending-select p ts low high asc)
        below

  -- Opposite selections of tracks in order share no identifier.
  pub select-disjoint :
      (p q : Track P → Bool) (ts : List (Track P)) (low high id : ℕ)
      → ((t : Track P) → (p t && q t) ≡ false)
      → IsAscending low (ids ts) high
      → contains id (ids (select p ts)) ≡ true
      → contains id (ids (select q ts)) ≡ false
  select-disjoint p q [] low high id apart asc h = refl
  select-disjoint p q (t ∷ ts) low high id apart asc h =
      let rest = select-disjoint p q ts (t.track_id + 1) high id apart asc.1 in
      elim (Bool-cases (t.track_id == id)) [
        | inl found ↦
            let same : t.track_id ≡ id = ground arith in
            let later_p =
              select-excludes p ts (t.track_id + 1) high id asc.1 (omega (arith, same)) in
            let later_q =
              select-excludes q ts (t.track_id + 1) high id asc.1 (omega (arith, same)) in
            ground (arith, apart t)
        | inr other ↦ ground arith
      ]

  -- A selection that drops a whole second part leaves tracks of the first one only.
  pub select-front :
      (q : Track P → Bool) (ts us : List (Track P)) (id : ℕ)
      → All (λ u. q u ≡ false) us
      → contains id (ids (select q (ts ++ us))) ≡ true
      → contains id (ids ts) ≡ true
  select-front q [] [] id none_of h = h
  select-front q [] (u ∷ us) id none_of h =
      absurd (ground (arith, none_of.0, select-front q [] us id none_of.1))
  select-front q (t ∷ ts) us id none_of h = ground (arith, select-front q ts us id none_of)

  pub unmatched-All :
      (os : List (TrackObservation P)) (k next max_lost : ℕ) (marks : List ℕ)
      → All (λ t. ltb max_lost t.frames_since_seen ≡ false) (unmatched_tracks k marks next os).0
  unfolding unmatched_tracks new_track
  unmatched-All [] k next max_lost marks = tt
  unmatched-All (o ∷ os) k next max_lost marks =
      elim (contains k marks)
        as (λ b. All (λ t. ltb max_lost t.frames_since_seen ≡ false) (branch b).0) [
          | true ↦ unmatched-All os (k + 1) next max_lost marks
          | false ↦ (ground arith, unmatched-All os (k + 1) (next + 1) max_lost marks)
        ]
    where
      branch : Bool → List (Track P) × ℕ
      branch true = unmatched_tracks (k + 1) marks next os
      branch false = (
        new_track next o ∷ (unmatched_tracks (k + 1) marks (next + 1) os).0,
        (unmatched_tracks (k + 1) marks (next + 1) os).1,
      )
