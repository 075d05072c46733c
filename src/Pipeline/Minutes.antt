-- ===== src/Pipeline/Minutes.antt =====
-- vaaet-core/src/vaaet/vision/pipeline.py: `_complete_minute`, the end of a minute of frames.
use vaaet.Prelude.{
  ltb, if◌then◌else◌, is_some, length, Result, ok, err, ◌>>=◌, ℕ, zero, suc, ◌+◌, String, false,
  not, Option, none, some, List, [], ◌∷◌, ◌++◌,
}
use vaaet.Float.{FloatOps}
use vaaet.Pipeline.{
  VideoError, Prediction, TimedRecord, ClassificationRecord, Externals, Config, Progress, Session,
  value_error,
}
use vaaet.Pipeline.Views.{continuity_id, update_last}
use vaaet.Telemetry.{Accumulator, build_record, discard_minute, rollover_minute}

unfoldable pub prediction_record :
    {F T : Type 0} → Prediction F → TimedRecord F T → ClassificationRecord F T
prediction_record p r = record {
  clip_id = r.telemetry.clip_id;
  continuity_id = r.telemetry.continuity_id;
  record_time = r.record_time;
  traffic_state = p.state;
  state_label = p.label;
  confidence = p.confidence;
  evidence = p.evidence;
  incident_candidate = p.incident_candidate;
}

unfoldable pub mark_discarded : {F : Type 0} → Progress F → Progress F
mark_discarded p = record p {
  discarded_minutes = p.discarded_minutes + 1;
  discard_reason = some "transition_crossed_minute";
}

-- The entry at an index, changed.
unfoldable pub update_entry : {A : Type 0} → ℕ → (A → A) → List A → List A
update_entry i g [] = []
update_entry zero g (x ∷ xs) = g x ∷ xs
update_entry (suc i) g (x ∷ xs) = x ∷ update_entry i g xs

unfoldable pub charge_discard : {F : Type 0} → Option ℕ → List (Progress F) → List (Progress F)
charge_discard none view_progress = view_progress
charge_discard (some i) view_progress = update_entry i mark_discarded view_progress

unfoldable pub lift_value : {A : Type 0} → Result String A → Result VideoError A
lift_value (ok x) = ok x
lift_value (err e) = err (value_error e)

module _ {Gray F T : Type 0} where
  unfoldable pub with_accumulator :
      (Accumulator F → Accumulator F) → Session Gray F T → Session Gray F T
  with_accumulator g s = record s {
    filters = record (s.filters) { accumulator = g s.filters.accumulator };
  }

  -- The branch of a minute that a change of view has crossed.
  unfoldable pub drop_minute : Session Gray F T → Session Gray F T
  drop_minute s = record (with_accumulator discard_minute s) {
    skip_current_minute = false;
    discarding_progress = none;
    view_progress = charge_discard s.discarding_progress s.view_progress;
  }

  -- The record is published, before a prediction.
  unfoldable pub publish_record : TimedRecord F T → Session Gray F T → Session Gray F T
  publish_record r s = record s {
    records = s.records ++ r ∷ [];
    view_progress =
        update_last (λ (p : Progress F). record p { valid_minutes = p.valid_minutes + 1 })
          s.view_progress;
  }

  unfoldable pub add_classification :
      TimedRecord F T → Option (Prediction F) → Session Gray F T → Session Gray F T
  add_classification r prediction s = record (with_accumulator rollover_minute s) {
    latest_prediction = prediction;
    classification_records = elim prediction [
      | none ↦ s.classification_records
      | some p ↦ s.classification_records ++ prediction_record p r ∷ []
    ];
  }

module _ {Frame Gray F T : Type 0} ⦃f : FloatOps F⦄ (ext : Externals Frame Gray F T)
    (cfg : Config F) where
  -- `_request_prediction`, of the records with the current one last.
  unfoldable pub request_prediction :
      List (TimedRecord F T) → Result VideoError (Option (Prediction F))
  request_prediction records = elim ext.prediction_provider [
    | none ↦ ok none
    | some provider ↦ provider records
  ]

  unfoldable pub add_context : TimedRecord F T → Session Gray F T → Session Gray F T
  add_context r s = record s {
    prediction_context_records =
        if is_some cfg.view_plan
        then s.prediction_context_records ++ r ∷ []
        else s.prediction_context_records;
  }

  -- `_request_minute_prediction`, once the record is among those of its context.
  unfoldable pub request_minute_prediction :
      Session Gray F T → Result VideoError (Option (Prediction F))
  request_minute_prediction s =
      if not (is_some cfg.view_plan)
      then request_prediction s.records
      else if ltb (length s.prediction_context_records) 2
      then ok none
      else request_prediction s.prediction_context_records

  unfoldable pub complete_minute : T → Session Gray F T → Result VideoError (Session Gray F T)
  complete_minute capture_time s =
      if s.skip_current_minute
      then ok (drop_minute s)
      else (lift_value (
            build_record ext.geometry.np cfg.trim_ratio cfg.outlier_sigma
              (some (continuity_id cfg s.continuity_sequence)) s.filters.accumulator)
          >>= λ telemetry.
              let r : TimedRecord F T = record {
                record_time = capture_time;
                telemetry = telemetry;
              } in
              let published = add_context r (publish_record r s) in
              request_minute_prediction published >>= λ prediction.
              ok (add_classification r prediction published))
