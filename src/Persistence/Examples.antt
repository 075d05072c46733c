-- ===== src/Persistence/Examples.antt =====
-- Runs, receipts and states at concrete values.
use vaaet.Prelude.{
  ok, succeeds, ℕ, ◌≡◌, refl, ◌↔◌, true, false, none, some, List, [], ◌∷◌, map, pos,
}
use vaaet.Persistence.Metadata.{PipelineRunMetadata, collection, is_sha256}
use vaaet.Persistence.Runs.{
  PipelineRunOutcome, PipelineRunHandle, Manifest, is_stable, is_terminal, write_local_manifest,
  local_manifests, Failures, finish_pipeline_run, finalize_pipeline_run_outcome, pipeline_run,
}
use vaaet.Persistence.Metadata
use vaaet.Persistence.Repeats.{repeated, write_local_manifest-terminal}
use vaaet.Persistence.Audit.{
  IsConclusion, finalize_pipeline_run_outcome-IsConclusion, IsRun, pipeline_run-IsRun,
}
use vaaet.Persistence.Receipts.{
  keys, lookup, same_members, operation_entities, PersistenceReceipt, validate_counts, exceeds,
  validate_entities, receipt_checks, persistence_receipt, receipt_algorithm,
}
use vaaet.Persistence.Match.{IsReceipt, persistence_receipt-IsReceipt}
use vaaet.Persistence.States.{IsRead, Sub, read_pipeline_run_audit_states-IsRead}
use vaaet.Persistence.Batches.{
  PipelineRunAuditState, Row, States, runs_of, unique_from, parse_ids, read_row, read_rows,
  read_batch, read_from, read_pipeline_run_audit_states,
}

abbrev inputs : PipelineRunMetadata
inputs = record {
  workflow = collection;
  application_name = "vaaet";
  application_version = "1.2";
  git_commit = none;
  source_kind = none;
  clip_id = some "clip";
  input_rows = none;
  telemetry_schema_version = none;
  feature_schema_version = none;
  model_version = none;
  model_revision = none;
}

abbrev run_handle : PipelineRunHandle
run_handle = record {
  id = 5;
  metadata = inputs;
  output_rows = some 12;
  model_revision = none;
  outcome = none;
}

abbrev no_failures : Failures
no_failures = record { sqlstate = none; disk_error = none }

abbrev full_disk : Failures
full_disk = record { sqlstate = none; disk_error = some "OSError" }

abbrev finished : Manifest
finished = record {
  status = "succeeded";
  started_at = 100;
  completed_at = some 160;
  output_rows = some 12;
  error_category = none;
  model_revision = none;
  metadata = inputs;
}

abbrev other_end : Manifest
other_end = record finished { metadata = record inputs { input_rows = some (pos 3) } }

-- A write of the same end with another count of input rows is refused.
write_local_manifest-terminal_example :
    ((write_local_manifest none other_end (some finished)).0 ≡ some finished)
    × ((succeeds (write_local_manifest none other_end (some finished)).1 ≡ true)
        ↔ (repeated other_end finished ≡ finished))
unfolding is_terminal
write_local_manifest-terminal_example = write_local_manifest-terminal none other_end finished refl

other_end-refused : succeeds (write_local_manifest none other_end (some finished)).1 ≡ false
unfolding write_local_manifest is_terminal is_stable Metadata.same_metadata
other_end-refused = refl

finalize_pipeline_run_outcome-IsConclusion_example :
    (o : PipelineRunOutcome) × ((finalize_pipeline_run_outcome local_manifests full_disk run_handle
        true 100 160 none none).1.outcome
      ≡ some o)
    × IsConclusion run_handle true false o
unfolding finish_pipeline_run is_terminal write_local_manifest
finalize_pipeline_run_outcome-IsConclusion_example =
    finalize_pipeline_run_outcome-IsConclusion local_manifests full_disk run_handle true 100 160
      none none

pipeline_run-IsRun_example : IsRun (some "ValueError") (
    pipeline_run local_manifests no_failures full_disk run_handle 100 160
      (λ h. h)
      (some "ValueError")
      none)
pipeline_run-IsRun_example =
    pipeline_run-IsRun no_failures full_disk run_handle 100 160 (λ h. h) (some "ValueError")

abbrev receipt : PersistenceReceipt
receipt = record {
  pipeline_run_id = 5;
  operation = "classified-telemetry";
  fingerprint_algorithm = receipt_algorithm;
  content_fingerprint = "0123456789abcdef0123456789abcdef0123456789abcdef0123456789abcdef";
  processed_counts = ("telemetry_features", pos 4) ∷ ("traffic_predictions", pos 4) ∷ [];
  inserted_counts = ("traffic_predictions", pos 2) ∷ ("telemetry_features", pos 4) ∷ [];
  telemetry_schema_version = some "v1";
  feature_schema_version = none;
  model_revision = none;
  confirmed_at = none;
  database_user = none;
}

persistence_receipt-IsReceipt_example : IsReceipt receipt
unfolding persistence_receipt receipt_checks operation_entities is_sha256 validate_counts keys
    same_members validate_entities exceeds lookup
persistence_receipt-IsReceipt_example = persistence_receipt-IsReceipt receipt refl

abbrev run_state : ℕ → PipelineRunAuditState
run_state i = record {
  pipeline_run_id = i;
  workflow = "collection";
  application_name = "vaaet";
  application_version = "1.2";
  database_user = "writer";
  status = "succeeded";
  source_kind = none;
  clip_id = none;
  input_rows = none;
  output_rows = none;
  telemetry_schema_version = none;
  feature_schema_version = none;
  model_version = none;
  model_revision = none;
  receipt = none;
  reconciles_run_id = none;
}

abbrev state_of : ℕ → Row
state_of i = (i, ok (run_state i))

unfoldable answer : List ℕ → List Row
answer ids = map state_of ids

abbrev states : States
states = (9, run_state 9) ∷ (7, run_state 7) ∷ []

read_pipeline_run_audit_states-IsRead_example :
    IsRead (7 ∷ 9 ∷ 7 ∷ []) states × Sub (7 ∷ 9 ∷ 7 ∷ []) (runs_of states)
unfolding parse_ids read_pipeline_run_audit_states unique_from read_from read_batch read_rows
    read_row answer
read_pipeline_run_audit_states-IsRead_example =
    read_pipeline_run_audit_states-IsRead answer (7 ∷ 9 ∷ 7 ∷ []) (some 7 ∷ some 9 ∷ some 7 ∷ [])
      states refl refl
