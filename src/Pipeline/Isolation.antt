-- ===== src/Pipeline/Isolation.antt =====
-- A minute that is skipped observes nothing: the filters of vaaet-core/src/vaaet/vision/pipeline.py.
use vaaet.Prelude.{
  ok, ℕ, ◌≡◌, refl, sym, ap, ◌∙◌, subst, Bool, true, false, Option, none, some, List, [], ◌∷◌,
  bind-eq-ok, ok-injective, checked-ok,
}
use vaaet.Float.{FloatOps}
use vaaet.Pipeline.{Externals, Config, Filters, Session}
use vaaet.Pipeline.Frame.{
  perceive, track, adopt_tracks, measure_motion, measure_tracks, observe_candidate, candidate_speed,
}
use vaaet.Pipeline.Packets.{Perception, forget_tracks, forget_track, FramePacket}
use vaaet.Pipeline.Run.{filter_frame}
use vaaet.Telemetry.{Accumulator, clear_minute, discard_id, discard_minute, rollover_minute}

-- Nothing of a minute is kept yet.
abbrev pub IsClear : {F : Type 0} → Accumulator F → Type 0
IsClear a = clear_minute a ≡ a

pub discard-IsClear : {F : Type 0} (a : Accumulator F) → IsClear (discard_minute a)
unfolding discard_minute clear_minute
discard-IsClear a = refl

pub rollover-IsClear : {F : Type 0} (a : Accumulator F) → IsClear (rollover_minute a)
unfolding rollover_minute clear_minute
rollover-IsClear a = refl

module _ {Gray F : Type 0} ⦃f : FloatOps F⦄ where
  forget_track-IsClear :
      (i : ℕ) (s : Filters Gray F) → IsClear s.accumulator → IsClear (forget_track i s).accumulator
  unfolding forget_track clear_minute discard_id
  forget_track-IsClear i s h =
      let counted : [] ≡ s.accumulator.counted_tracks =
        ap (λ (a : Accumulator F). a.counted_tracks) h in
      h
      ∙ ap (λ c. record (s.accumulator) { counted_tracks = c })
          (sym counted ∙ ap (discard_id i) counted)

  forget_tracks-IsClear :
      (ids : List ℕ) (s : Filters Gray F)
      → IsClear s.accumulator
      → IsClear (forget_tracks ids s).accumulator
  unfolding forget_tracks
  forget_tracks-IsClear [] s h = h
  forget_tracks-IsClear (i ∷ ids) s h =
      forget_tracks-IsClear ids (forget_track i s) (forget_track-IsClear i s h)

module _ {Frame Gray F T : Type 0} ⦃f : FloatOps F⦄ (ext : Externals Frame Gray F T)
    (cfg : Config F) where
  -- A minute that is skipped observes nothing.
  observe-skipped :
      (calibration : _) (skip : Bool) (p : Perception F) (t : _) (speed : Option F)
      (s : Filters Gray F)
      → skip ≡ true
      → (observe_candidate ext cfg calibration skip p t speed s).0.accumulator ≡ s.accumulator
  unfolding observe_candidate
  observe-skipped calibration true p t speed s h = refl
  observe-skipped calibration false p t speed s h = cc

  measure_tracks-skipped :
      (calibration : _) (skip : Bool) (p : Perception F) (ts : _) (s s' : Filters Gray F)
      (annotations : _)
      → skip ≡ true
      → measure_tracks ext cfg calibration skip p ts s ≡ ok (s', annotations)
      → s'.accumulator ≡ s.accumulator
  unfolding measure_tracks
  measure_tracks-skipped calibration skip p [] s s' annotations h done =
      ap (λ x. x.0.accumulator) (sym (ok-injective _ _ done))
  measure_tracks-skipped calibration skip p (t ∷ ts) s s' annotations h done =
      let (speed, _, done') = bind-eq-ok (candidate_speed ext cfg calibration p t) _ done in
      let after = (observe_candidate ext cfg calibration skip p t speed s).0 in
      let (rest, later, ended) =
        bind-eq-ok (measure_tracks ext cfg calibration skip p ts after) _ done' in
      ap (λ x. x.0.accumulator) (sym (ok-injective _ _ ended))
      ∙ measure_tracks-skipped calibration skip p ts after rest.0 rest.1 h later
      ∙ observe-skipped calibration skip p t speed s h

  perceive-accumulator :
      (p : FramePacket Frame F T) (s s' : Filters Gray F) (perception : Perception F)
      → perceive ext cfg p s ≡ ok (s', perception)
      → s'.accumulator ≡ s.accumulator
  unfolding perceive
  perceive-accumulator p s s' perception h =
      let (detections, _, h') = bind-eq-ok (ext.detect p.frame) _ h in
      let (_, same) = checked-ok _ _ _ h' in ap (λ x. x.0.accumulator) (sym same)

  adopt_tracks-accumulator :
      (s s' : Filters Gray F) (found : _) (tracks : _)
      → adopt_tracks ext cfg s found ≡ ok (s', tracks)
      → s'.accumulator ≡ s.accumulator
  unfolding adopt_tracks
  adopt_tracks-accumulator s s' none tracks h = cc
  adopt_tracks-accumulator s s' (some (tracker, active)) tracks h =
      let (_, same) = checked-ok _ _ _ h in ap (λ x. x.0.accumulator) (sym same)

  track-accumulator :
      (p : Perception F) (s s' : Filters Gray F) (tracks : _)
      → track ext cfg p s ≡ ok (s', tracks)
      → s'.accumulator ≡ s.accumulator
  unfolding track
  track-accumulator p s s' tracks h = adopt_tracks-accumulator s s' _ tracks h

  pub filter_frame-skipped :
      (p : FramePacket Frame F T) (s : Session Gray F T) (filters : Filters Gray F) (frame : Frame)
      → filter_frame ext cfg p s ≡ ok (filters, frame)
      → s.skip_current_minute ≡ true
      → IsClear s.filters.accumulator
      → IsClear filters.accumulator
  unfolding filter_frame measure_motion
  filter_frame-skipped p s filters frame h skipped clear =
      let (perceived, perceiving, h1) = bind-eq-ok (perceive ext cfg p s.filters) _ h in
      let (tracked, tracking, h2) = bind-eq-ok (track ext cfg perceived.1 perceived.0) _ h1 in
      let (measured, measuring, h3) =
        bind-eq-ok
          (measure_motion ext cfg s.active_calibration s.skip_current_minute perceived.1 tracked.1
            tracked.0)
          _ h2 in
      let forgotten = forget_tracks tracked.0.tracker.last_pruned_track_ids tracked.0 in
      let (looped, looping, h4) =
        bind-eq-ok
          (measure_tracks ext cfg s.active_calibration s.skip_current_minute perceived.1 tracked.1
            forgotten)
          _ measuring in
      let (_, out) = checked-ok _ _ _ h4 in
      let before : tracked.0.accumulator ≡ s.filters.accumulator =
        track-accumulator perceived.1 perceived.0 tracked.0 tracked.1 tracking
        ∙ perceive-accumulator p s.filters perceived.0 perceived.1 perceiving in
      let still = subst IsClear (sym before) clear in
      let start = forget_tracks-IsClear tracked.0.tracker.last_pruned_track_ids tracked.0 still in
      let same =
        measure_tracks-skipped s.active_calibration s.skip_current_minute perceived.1 tracked.1
          forgotten looped.0 looped.1 skipped looping in
      let last : measured.0 ≡ filters = ap (λ x. x.0) (ok-injective _ _ h3) in
      subst (λ (x : Filters Gray F). IsClear x.accumulator) (ap (λ x. x.0) out ∙ last)
        (subst IsClear (sym same) start)
