-- ===== src/Tracking/Marks.antt =====
-- Marks on tracks and how many tracks are active: lemmas about `SORTTracker.update` of
-- vaaet-core/src/vaaet/vision/tracking.py.
use vaaet.Prelude.{
  leb, eqb, if◌then◌else◌, Bool-cases, length, get_elem?, select, contains, ℕ, zero, suc, ◌+◌, ◌*◌,
  ◌/◌, ◌%◌, ◌≤◌, ◌<◌, ◌≡◌, refl, sym, ap, subst, inl, inr, true, false, Option, some, List, [], ◌∷◌,
  ◌++◌, map, arith, nat_key, string_key,
}
use vaaet.Tracking.{
  Track, TrackObservation, update_track, new_track, is_active, update_at, mark_unmatched,
  unmatched_tracks,
}

-- How many of the `n` indices from `k` are marked.
pub marked_count : ℕ → ℕ → List ℕ → ℕ
marked_count k zero marks = 0
marked_count k (suc n) marks = (if contains k marks then 1 else 0) + marked_count (k + 1) n marks

pub marked_count-nil : (n k : ℕ) → marked_count k n [] ≡ 0
unfolding marked_count
marked_count-nil zero k = refl
marked_count-nil (suc n) k = omega (arith, marked_count-nil n (k + 1))

-- A new mark below the indices does not count, and one among them counts once.
marked_count-below :
    (n k x : ℕ) (marks : List ℕ) → x < k → marked_count k n (x ∷ marks) ≡ marked_count k n marks
unfolding marked_count
marked_count-below zero k x marks h = refl
marked_count-below (suc n) k x marks h = ground (arith, marked_count-below n (k + 1) x marks)

pub marked_count-cons :
    (n k x : ℕ) (marks : List ℕ)
    → k ≤ x
    → x < k + n
    → contains x marks ≡ false
    → marked_count k n (x ∷ marks) ≡ marked_count k n marks + 1
unfolding marked_count
marked_count-cons zero k x marks low high fresh = absurd (omega arith)
marked_count-cons (suc n) k x marks low high fresh = elim (Bool-cases (eqb k x)) [
  | inl same ↦
      let e : k ≡ x = ground arith in
      let at_k : contains k marks ≡ false = subst (λ i. contains i marks ≡ false) (sym e) fresh in
      rw (same, at_k) (omega (arith, marked_count-below n (k + 1) x marks (omega arith)))
  | inr other ↦
      rw other
        (omega (arith, marked_count-cons n (k + 1) x marks (ground arith) (omega arith) fresh))
]

pub div_in_range : (flat rows columns : ℕ) → flat < rows * columns → flat / columns < rows
div_in_range flat rows columns h = grind arith

pub mod_in_range : (flat rows columns : ℕ) → flat < rows * columns → flat % columns < columns
mod_in_range flat rows columns h = grind arith

pub get_elem?-below :
    {A : Type 0} (xs : List A) (i : ℕ) → i < length xs → (x : A) × (get_elem? xs i ≡ some x)
get_elem?-below [] i h = absurd (omega arith)
get_elem?-below (x ∷ xs) zero h = (x, refl)
get_elem?-below (x ∷ xs) (suc i) h = get_elem?-below xs i (omega arith)

module _ {P : Type 0} where
  -- A marked track has been seen in this frame.
  abbrev pub IsFresh : ℕ → List ℕ → List (Track P) → Type 0
  IsFresh k marks [] = Unit
  IsFresh k marks (t ∷ ts) =
      (contains k marks ≡ true → t.frames_since_seen ≡ 0) × IsFresh (k + 1) marks ts

  pub IsFresh-nil : (ts : List (Track P)) (k : ℕ) → IsFresh k [] ts
  IsFresh-nil [] k = tt
  IsFresh-nil (t ∷ ts) k = ((λ h. cc), IsFresh-nil ts (k + 1))

  IsFresh-below :
      (ts : List (Track P)) (k x : ℕ) (marks : List ℕ)
      → x < k
      → IsFresh k marks ts
      → IsFresh k (x ∷ marks) ts
  IsFresh-below [] k x marks h fresh = tt
  IsFresh-below (t ∷ ts) k x marks h fresh =
      ((λ m. fresh.0 (ground arith)), IsFresh-below ts (k + 1) x marks (omega arith) fresh.1)

  pub IsFresh-update :
      (ts : List (Track P)) (k i x : ℕ) (marks : List ℕ) (g : Track P → Track P)
      → ((t : Track P) → (g t).frames_since_seen ≡ 0)
      → x ≡ k + i
      → IsFresh k marks ts
      → IsFresh k (x ∷ marks) (update_at i g ts)
  unfolding update_at
  IsFresh-update [] k i x marks g seen e fresh = tt
  IsFresh-update (t ∷ ts) k zero x marks g seen e fresh =
      ((λ m. seen t), IsFresh-below ts (k + 1) x marks (omega arith) fresh.1)
  IsFresh-update (t ∷ ts) k (suc i) x marks g seen e fresh = (
    (λ m. fresh.0 (ground arith)),
    IsFresh-update ts (k + 1) i x marks g seen (omega arith) fresh.1,
  )

  pub length-update_at :
      (ts : List (Track P)) (i : ℕ) (g : Track P → Track P) → length (update_at i g ts) ≡ length ts
  unfolding update_at
  length-update_at [] i g = refl
  length-update_at (t ∷ ts) zero g = refl
  length-update_at (t ∷ ts) (suc i) g = omega (arith, length-update_at ts i g)

  -- The tracks that were seen in this frame.
  pub active_count : List (Track P) → ℕ
  active_count [] = 0
  active_count (t ∷ ts) = (if is_active t then 1 else 0) + active_count ts

  pub active_count-append :
      (ts us : List (Track P)) → active_count (ts ++ us) ≡ active_count ts + active_count us
  unfolding active_count
  active_count-append [] us = omega arith
  active_count-append (t ∷ ts) us = omega (arith, active_count-append ts us)

  pub active_count-mark :
      (ts : List (Track P)) (k : ℕ) (marks : List ℕ)
      → IsFresh k marks ts
      → active_count (mark_unmatched k marks ts) ≡ marked_count k (length ts) marks
  unfolding active_count mark_unmatched marked_count
  active_count-mark [] k marks fresh = refl
  active_count-mark (t ∷ ts) k marks fresh =
      let rest = active_count-mark ts (k + 1) marks fresh.1 in let seen = fresh.0 in ground arith

  pub active_count-unmatched :
      (os : List (TrackObservation P)) (k next : ℕ) (marks : List ℕ)
      → active_count (unmatched_tracks k marks next os).0 + marked_count k (length os) marks
        ≡ length os
  unfolding active_count unmatched_tracks marked_count new_track
  active_count-unmatched [] k next marks = refl
  active_count-unmatched (o ∷ os) k next marks = ground (
    arith,
    active_count-unmatched os (k + 1) next marks,
    active_count-unmatched os (k + 1) (next + 1) marks,
  )

  pub active_count-prune :
      (max_lost : ℕ) (ts : List (Track P))
      → active_count (select (λ t. leb t.frames_since_seen max_lost) ts) ≡ active_count ts
  unfolding active_count
  active_count-prune max_lost [] = refl
  active_count-prune max_lost (t ∷ ts) = ground (arith, active_count-prune max_lost ts)

  pub length-active : (ts : List (Track P)) → length (select is_active ts) ≡ active_count ts
  unfolding active_count
  length-active [] = refl
  length-active (t ∷ ts) = ground (arith, length-active ts)

  pub map-update_at :
      {B : Type 0} (h : Track P → B) (g : Track P → Track P)
      → ((t : Track P) → h (g t) ≡ h t)
      → (ts : List (Track P)) (i : ℕ) → map h (update_at i g ts) ≡ map h ts
  unfolding update_at
  map-update_at h g same [] i = refl
  map-update_at h g same (t ∷ ts) zero = ap (λ b. b ∷ map h ts) (same t)
  map-update_at h g same (t ∷ ts) (suc i) = ap (λ bs. h t ∷ bs) (map-update_at h g same ts i)

  pub update_track-seen :
      (centroid : P) (contact : Option P) (t : Track P)
      → ((update_track centroid contact t).frames_since_seen ≡ 0)
        × ((update_track centroid contact t).track_id ≡ t.track_id)
        × ((update_track centroid contact t).vehicle_type ≡ t.vehicle_type)
  unfolding update_track
  update_track-seen centroid contact t = (refl, refl, refl)
