-- ===== src/Telemetry/Minute.antt =====
-- What a minute's accumulator satisfies after any calls.
use vaaet.Prelude.{
  if◌then◌else◌, Bool-cases, length, ok, ◌>>◌, raise_if, contains, ℕ, ◌+◌, ◌≤◌, String, ◌≡◌, refl,
  ap, subst, inl, inr, false, Option, ◌∷◌, arith, nat_key, string_key,
}
use vaaet.Float.{FloatOps, NumPy}
use vaaet.Prelude.Text.{is_blank}
use vaaet.Tracking.{Track, mark_counted}
use vaaet.Telemetry.{
  add_id, discard_id, add_count, total_of, has_count, Accumulator, Observation, observe_motion,
  count_track, observe_track, has_pending_data, clear_minute, rollover_minute, discard_minute,
  MinuteRecord, resolve_continuity, build_record, minute_record,
}
use vaaet.Telemetry.Counts.{
  total-add_count, total-accumulate, empty-HasTypes, add-HasTypes, count-HasTypes,
}
use vaaet.Telemetry.Members.{
  add_id-Within, add_id-IsDistinct, discard_id-IsDistinct, discard_id-Within, length-discard_id,
}
use vaaet.Telemetry.Observed.{
  IsMinute, Knows, add_ratio-Knows, observe_motion-IsMinute, observe_speed-Knows,
}

module _ {F : Type 0} (n : ℕ) where
  counted-IsMinute :
      (i : ℕ) (vehicle_type : String) (a : Accumulator F)
      → contains i a.counted_tracks ≡ false
      → Knows n i a
      → IsMinute n (record a {
        minute_counts = add_count vehicle_type 1 a.minute_counts;
        counted_tracks = add_id i a.counted_tracks;
      })
  unfolding add_id
  counted-IsMinute i vehicle_type a new h =
      let g = h.good in
      let longer : length
            (if contains i a.counted_tracks then a.counted_tracks else i ∷ a.counted_tracks)
          ≡ length a.counted_tracks + 1 =
        ground arith in
      record {
        types = add-HasTypes vehicle_type 1 a.minute_counts g.types;
        total = omega (arith, g.total, longer, total-add_count vehicle_type 1 a.minute_counts);
        distinct = add_id-IsDistinct i a.counted_tracks g.distinct;
        counted = add_id-Within i _ _ h.known g.counted;
        near_zero = g.near_zero;
        stationary = g.stationary;
        rejected = g.rejected;
        recovered = g.recovered;
        reliable = g.reliable;
        sampled = g.sampled;
      }

  count_track-IsMinute :
      {P : Type 0} (t : Track P) (a : Accumulator F)
      → Knows n t.track_id a
      → IsMinute n (count_track t a).0
  unfolding count_track mark_counted
  count_track-IsMinute t a h = elim (Bool-cases (contains t.track_id a.counted_tracks)) [
    | inl old ↦ let same : a ≡ (count_track t a).0 = ground arith in subst (IsMinute n) same h.good
    | inr new ↦ elim (Bool-cases t.counted) [
      | inl marked ↦
          let same : a ≡ (count_track t a).0 = ground arith in subst (IsMinute n) same h.good
      | inr unmarked ↦
          let after : Accumulator F = record a {
            minute_counts = add_count t.vehicle_type 1 a.minute_counts;
            counted_tracks = add_id t.track_id a.counted_tracks;
          } in
          let same : after ≡ (count_track t a).0 = ground arith in
          subst (IsMinute n) same (counted-IsMinute t.track_id t.vehicle_type a new h)
    ]
  ]

  pub observe_track-IsMinute :
      {P : Type 0} (t : Track P) (o : Observation F) (a : Accumulator F)
      → IsMinute n a
      → IsMinute n (observe_track t o a).0
  unfolding observe_track
  observe_track-IsMinute t o a h =
      let (good, known) = observe_motion-IsMinute n t.track_id o a h in
      let moved : Knows n t.track_id (observe_motion t.track_id o a) = record {
        good = good;
        known = known;
      } in
      count_track-IsMinute t _
        (add_ratio-Knows n t.track_id o _ (observe_speed-Knows n t.track_id o _ moved))

module _ {F : Type 0} where
  clear_minute-IsMinute : (a : Accumulator F) → IsMinute 0 (clear_minute a)
  unfolding clear_minute total_of
  clear_minute-IsMinute a = record {
    types = empty-HasTypes;
    total = refl;
    distinct = tt;
    counted = tt;
    near_zero = tt;
    stationary = tt;
    rejected = tt;
    recovered = tt;
    reliable = tt;
    sampled = omega arith;
  }

  -- `counted_tracks.discard(i)`, which the session calls for a track that the tracker pruned.
  abbrev pub forget_counted : ℕ → Accumulator F → Accumulator F
  forget_counted i a = record a { counted_tracks = discard_id i a.counted_tracks }

  -- What that forgets of the tracks that the minute counted.
  abbrev pub forgets : ℕ → Accumulator F → ℕ
  forgets i a = if contains i a.counted_tracks then 1 else 0

  forget_counted-IsMinute :
      (n i : ℕ) (a : Accumulator F) → IsMinute n a → IsMinute (n + forgets i a) (forget_counted i a)
  forget_counted-IsMinute n i a h = record {
    types = h.types;
    total = omega (arith, h.total, length-discard_id i a.counted_tracks h.distinct);
    distinct = discard_id-IsDistinct i a.counted_tracks h.distinct;
    counted = discard_id-Within i a.counted_tracks a.observed_track_ids h.counted;
    near_zero = h.near_zero;
    stationary = h.stationary;
    rejected = h.rejected;
    recovered = h.recovered;
    reliable = h.reliable;
    sampled = h.sampled;
  }

  -- The states of an accumulator, from a new one on, with the number of tracks that its minute
  -- counted and that were pruned since.
  pub data Reaches (P : Type 0) : ℕ → Accumulator F → Type 0 where
    begun : (a : Accumulator F) → Reaches P 0 (clear_minute a)
    observed :
        (t : Track P) (o : Observation F) (n : ℕ) (a : Accumulator F)
        → Reaches P n a
        → Reaches P n (observe_track t o a).0
    pruned :
        (i n : ℕ) (a : Accumulator F)
        → Reaches P n a
        → Reaches P (n + forgets i a) (forget_counted i a)
    rolled : (n : ℕ) (a : Accumulator F) → Reaches P n a → Reaches P 0 (rollover_minute a)
    discarded : (n : ℕ) (a : Accumulator F) → Reaches P n a → Reaches P 0 (discard_minute a)

  -- Whatever tracks an accumulator observes, whatever tracks are pruned and however its minutes end:
  -- the counts of a minute add up to the number of tracks that it counted, those in `counted_tracks`,
  -- each once, and those pruned since; and the tracks counted, at rest, rejected, recovered or
  -- measured are among those observed, the recovered among the rejected.
  pub reached-IsMinute : (P : Type 0) (n : ℕ) (a : Accumulator F) → Reaches P n a → IsMinute n a
  unfolding rollover_minute discard_minute
  reached-IsMinute P n a (begun before) = clear_minute-IsMinute before
  reached-IsMinute P n a (observed t o m before h) =
      observe_track-IsMinute m t o before (reached-IsMinute P m before h)
  reached-IsMinute P n a (pruned i m before h) =
      forget_counted-IsMinute m i before (reached-IsMinute P m before h)
  reached-IsMinute P n a (rolled m before h) = clear_minute-IsMinute _
  reached-IsMinute P n a (discarded m before h) = clear_minute-IsMinute before

  -- The end of a minute moves its counted tracks to the accumulated counts, of which a discarded
  -- minute changes nothing; after either there is nothing pending.
  rollover_minute-conserves :
      (P : Type 0) (n : ℕ) (a : Accumulator F)
      → Reaches P n a
      → (total_of (rollover_minute a).cumulative_counts
          ≡ total_of a.cumulative_counts + (length a.counted_tracks + n))
        × ((discard_minute a).cumulative_counts ≡ a.cumulative_counts)
        × (has_pending_data (rollover_minute a) ≡ false)
        × (has_pending_data (discard_minute a) ≡ false)
  unfolding rollover_minute discard_minute clear_minute has_pending_data has_count
  rollover_minute-conserves P n a h =
      let total = (reached-IsMinute P n a h).total in
      (omega (arith, total, total-accumulate a.minute_counts a.cumulative_counts), refl, refl, refl)

module _ {F : Type 0} ⦃f : FloatOps F⦄ where
  -- A minute's record is refused only for a blank identifier of its segment; otherwise its counts of
  -- the five types fit in its total, which is the number of tracks that the minute counted: those in
  -- `counted_tracks` and those that were pruned since.
  pub build_record-fits :
      (P : Type 0) (np : NumPy F) (ratio sigma : F) (continuity_id : Option String) (n : ℕ)
      (a : Accumulator F)
      → Reaches P n a
      → is_blank (resolve_continuity a.clip_id continuity_id) ≡ false
      → (r : MinuteRecord F) × (build_record np ratio sigma continuity_id a ≡ ok r)
        × (r.total_vehicles ≡ length a.counted_tracks + n)
        × (r.count_car + r.count_truck + r.count_bus + r.count_motorcycle + r.count_bicycle
            ≤ r.total_vehicles)
  unfolding build_record minute_record
  build_record-fits P np ratio sigma continuity_id n a h filled =
      let g = reached-IsMinute P n a h in
      let fits = count-HasTypes a.minute_counts g.types in
      let r = minute_record np ratio sigma (resolve_continuity a.clip_id continuity_id) a in
      let built : build_record np ratio sigma continuity_id a ≡ ok r =
        ap (λ b. raise_if b "continuity_id is required for every telemetry minute." >> ok r)
          filled in
      (r, built, g.total, fits)
