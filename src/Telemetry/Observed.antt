-- ===== src/Telemetry/Observed.antt =====
-- An observation in `MinuteTelemetryAccumulator` of vaaet-core/src/vaaet/vision/telemetry.py keeps the
-- state of a minute well formed.
use vaaet.Prelude.{
  ltb, if◌then◌else◌, Bool-cases, Option-cases, length, length-append, contains, ℕ, ◌+◌, ◌≤◌, ◌≡◌,
  subst, inl, inr, Bool, true, List, [], ◌∷◌, ◌++◌, arith, nat_key, string_key,
}
use vaaet.Telemetry.{
  add_id, total_of, Accumulator, Observation, observe_speed, observe_motion, add_ratio,
}
use vaaet.Telemetry.Counts.{HasTypes}
use vaaet.Telemetry.Members.{
  Within, IsDistinct, contains-add_id, Within-add_id, add_id-Within, if-Within, length-add_id,
}

-- The tracks that a minute counted are `counted_tracks` and those `forgotten` since: the session takes
-- an identifier out of the set when its track is pruned.
module _ {F : Type 0} (forgotten : ℕ) where
  pub record IsMinute (a : Accumulator F) : Type 0 where
    pub types : HasTypes a.minute_counts
    pub total : total_of a.minute_counts ≡ length a.counted_tracks + forgotten
    pub distinct : IsDistinct a.counted_tracks
    pub counted : Within a.counted_tracks a.observed_track_ids
    pub near_zero : Within a.near_zero_track_ids a.observed_track_ids
    pub stationary : Within a.stationary_track_ids a.observed_track_ids
    pub rejected : Within a.rejected_speed_track_ids a.observed_track_ids
    pub recovered : Within a.recovered_track_ids a.rejected_speed_track_ids
    pub reliable : Within a.reliable_speed_track_ids a.observed_track_ids
    pub sampled : length a.reliable_speed_track_ids ≤ length a.minute_speeds

  pub observe_motion-IsMinute :
      (i : ℕ) (o : Observation F) (a : Accumulator F)
      → IsMinute a
      → IsMinute (observe_motion i o a)
        × (contains i (observe_motion i o a).observed_track_ids ≡ true)
  unfolding observe_motion
  observe_motion-IsMinute i o a h =
      let known = contains-add_id i a.observed_track_ids in
      let wider : (ids : List ℕ)
          → Within ids a.observed_track_ids
          → Within ids (add_id i a.observed_track_ids) =
        λ ids w. Within-add_id i ids a.observed_track_ids w in
      (
        record {
          types = h.types;
          total = h.total;
          distinct = h.distinct;
          counted = wider _ h.counted;
          near_zero =
              if-Within o.near_zero_motion _ _ _ (add_id-Within i _ _ known (wider _ h.near_zero))
                (wider _ h.near_zero);
          stationary = wider _ h.stationary;
          rejected = wider _ h.rejected;
          recovered = h.recovered;
          reliable = wider _ h.reliable;
          sampled = h.sampled;
        },
        known,
      )

  stationary-IsMinute :
      (i : ℕ) (a : Accumulator F)
      → contains i a.observed_track_ids ≡ true
      → IsMinute a
      → IsMinute (record a { stationary_track_ids = add_id i a.stationary_track_ids })
  stationary-IsMinute i a known h = record {
    types = h.types;
    total = h.total;
    distinct = h.distinct;
    counted = h.counted;
    near_zero = h.near_zero;
    stationary = add_id-Within i _ _ known h.stationary;
    rejected = h.rejected;
    recovered = h.recovered;
    reliable = h.reliable;
    sampled = h.sampled;
  }

  rejected-IsMinute :
      (i : ℕ) (was_gap : Bool) (a : Accumulator F)
      → contains i a.observed_track_ids ≡ true
      → IsMinute a
      → IsMinute (record a {
        rejected_speed_track_ids = add_id i a.rejected_speed_track_ids;
        recovered_track_ids =
            if was_gap then add_id i a.recovered_track_ids else a.recovered_track_ids;
      })
  rejected-IsMinute i was_gap a known h =
      let wider = Within-add_id i _ a.rejected_speed_track_ids h.recovered in
      record {
        types = h.types;
        total = h.total;
        distinct = h.distinct;
        counted = h.counted;
        near_zero = h.near_zero;
        stationary = h.stationary;
        rejected = add_id-Within i _ _ known h.rejected;
        recovered =
            if-Within was_gap _ _ _
              (add_id-Within i _ _ (contains-add_id i a.rejected_speed_track_ids) wider) wider;
        reliable = h.reliable;
        sampled = h.sampled;
      }

  sampled-IsMinute :
      (i : ℕ) (speed : F) (a : Accumulator F)
      → contains i a.observed_track_ids ≡ true
      → IsMinute a
      → IsMinute (record a {
        minute_speeds = a.minute_speeds ++ speed ∷ [];
        reliable_speed_track_ids = add_id i a.reliable_speed_track_ids;
      })
  sampled-IsMinute i speed a known h = record {
    types = h.types;
    total = h.total;
    distinct = h.distinct;
    counted = h.counted;
    near_zero = h.near_zero;
    stationary = h.stationary;
    rejected = h.rejected;
    recovered = h.recovered;
    reliable = add_id-Within i _ _ known h.reliable;
    sampled = omega (
      arith,
      h.sampled,
      length-add_id i a.reliable_speed_track_ids,
      length-append a.minute_speeds (speed ∷ []),
    );
  }

  pub record Knows (i : ℕ) (a : Accumulator F) : Type 0 where
    pub good : IsMinute a
    pub known : contains i a.observed_track_ids ≡ true

  pub observe_speed-Knows :
      (i : ℕ) (o : Observation F) (a : Accumulator F) → Knows i a → Knows i (observe_speed i o a)
  unfolding observe_speed
  observe_speed-Knows i o a h = elim (Bool-cases o.stationary_confirmed) [
    | inl still ↦
        let after : Accumulator F = record a {
          stationary_track_ids = add_id i a.stationary_track_ids;
        } in
        let same : after ≡ observe_speed i o a = ground arith in
        subst (Knows i) same
          (record { good = stationary-IsMinute i a h.known h.good; known = h.known })
    | inr moving ↦ elim (Bool-cases o.reliable) [
      | inr unreliable ↦
          let after : Accumulator F = record a {
            rejected_speed_track_ids = add_id i a.rejected_speed_track_ids;
            recovered_track_ids =
                if ltb 0 o.recovered_gap
                then add_id i a.recovered_track_ids
                else a.recovered_track_ids;
          } in
          let same : after ≡ observe_speed i o a = ground arith in
          subst (Knows i) same (record {
            good = rejected-IsMinute i (ltb 0 o.recovered_gap) a h.known h.good;
            known = h.known;
          })
      | inl sure ↦ elim (Option-cases o.smoothed_speed) [
        | inl missing ↦ let same : a ≡ observe_speed i o a = ground arith in subst (Knows i) same h
        | inr (speed, given) ↦
            let after : Accumulator F = record a {
              minute_speeds = a.minute_speeds ++ speed ∷ [];
              reliable_speed_track_ids = add_id i a.reliable_speed_track_ids;
            } in
            let same : after ≡ observe_speed i o a = ground arith in
            subst (Knows i) same
              (record { good = sampled-IsMinute i speed a h.known h.good; known = h.known })
      ]
    ]
  ]

  pub add_ratio-Knows :
      (i : ℕ) (o : Observation F) (a : Accumulator F) → Knows i a → Knows i (add_ratio o a)
  unfolding add_ratio
  add_ratio-Knows i o a h =
      let g = h.good in
      record {
        good = record {
          types = g.types;
          total = g.total;
          distinct = g.distinct;
          counted = g.counted;
          near_zero = g.near_zero;
          stationary = g.stationary;
          rejected = g.rejected;
          recovered = g.recovered;
          reliable = g.reliable;
          sampled = g.sampled;
        };
        known = h.known;
      }
