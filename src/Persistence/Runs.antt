-- ===== src/Persistence/Runs.antt =====
-- vaaet-persistence/src/vaaet_persistence/pipeline_runs.py. PostgreSQL and the disk are what they
-- raise; the manifest of a run has a file of its own, which is missing or holds one manifest.
use vaaet.Prelude.{
  if◌then◌else◌, is_some, ok, err, ◌==◌, option_eq, ℕ, String, Bool, true, false, not, ◌&&◌, ◌||◌,
  Option, none, some, ℤ, pos, negsuc, nat_key, string_key,
}
use vaaet.Prelude.Text.{codes}
use vaaet.Persistence.Metadata.{
  PipelineRunMetadata, same_metadata, RunError, value_error, runtime_error, persistence_conflict,
  database_operation, raised, Outcome, is_sha256,
}

pub record PipelineRunOutcome : Type 0 where
  pub run_id : ℕ
  pub work_succeeded : Bool
  pub audit_complete : Bool
  pub output_rows : Option ℕ
  pub model_revision : Option String
  pub audit_error_category : Option RunError
  pub reconciliation_run_id : Option ℕ

pub record PipelineRunHandle : Type 0 where
  pub id : ℕ
  pub metadata : PipelineRunMetadata
  pub output_rows : Option ℕ
  pub model_revision : Option String
  pub outcome : Option PipelineRunOutcome

-- `set_output_rows` of an int that is not a bool.
unfoldable pub set_output_rows : ℤ → PipelineRunHandle → PipelineRunHandle × Outcome
set_output_rows (pos rows) h = (record h { output_rows = some rows }, ok tt)
set_output_rows (negsuc _) h = (h, err value_error)

unfoldable pub set_model_revision : String → PipelineRunHandle → PipelineRunHandle × Outcome
set_model_revision revision h =
    if not (is_sha256 (codes revision))
    then (h, err value_error)
    else (record h { model_revision = some revision }, ok tt)

unfoldable pub set_outcome :
    (work_succeeded audit_complete : Bool) → Option RunError → PipelineRunHandle → PipelineRunHandle
set_outcome work_succeeded audit_complete category h = record h {
  outcome = some (record {
    run_id = h.id;
    work_succeeded = work_succeeded;
    audit_complete = audit_complete;
    output_rows = h.output_rows;
    model_revision = h.model_revision;
    audit_error_category = category;
    reconciliation_run_id = none;
  });
}

-- The payload of a manifest; its file belongs to the run's identifier.
pub record Manifest : Type 0 where
  pub status : String
  pub started_at : ℕ
  pub completed_at : Option ℕ
  pub output_rows : Option ℕ
  pub error_category : Option String
  pub model_revision : Option String
  pub metadata : PipelineRunMetadata

-- Equality of two payloads of one run without `completed_at`.
unfoldable pub is_stable : Manifest → Manifest → Bool
is_stable m n =
    m.status == n.status
    && m.started_at == n.started_at
    && option_eq m.output_rows n.output_rows
    && option_eq m.error_category n.error_category
    && option_eq m.model_revision n.model_revision
    && same_metadata m.metadata n.metadata

unfoldable pub is_terminal : String → Bool
is_terminal status = status == "succeeded" || status == "failed"

unfoldable pub local_payload : PipelineRunHandle → String → ℕ → ℕ → Option String → Manifest
local_payload h status started_at now category = record {
  status = status;
  started_at = started_at;
  completed_at = if status == "running" then none else some now;
  output_rows = h.output_rows;
  error_category = category;
  model_revision = h.model_revision;
  metadata = h.metadata;
}

abbrev pub replace_manifest : Option String → Manifest → Option Manifest → Option Manifest × Outcome
replace_manifest none payload disk = (some payload, ok tt)
replace_manifest (some e) payload disk = (disk, err (raised e))

unfoldable pub write_local_manifest :
    (disk_error : Option String) → Manifest → Option Manifest → Option Manifest × Outcome
write_local_manifest disk_error payload none = replace_manifest disk_error payload none
write_local_manifest disk_error payload (some existing) =
    if is_terminal existing.status
    then if is_stable payload existing
      then (some existing, ok tt)
      else (some existing, err runtime_error)
    else replace_manifest disk_error payload (some existing)

-- Where a run is registered: PostgreSQL goes before the local manifests.
pub data Backend : Type 0 where
  postgres : Backend
  local_manifests : Backend
  unavailable : Backend

-- What the statement or the file of a step meets: the SQLSTATE of a failure, or what the disk raised.
pub record Failures : Type 0 where
  pub sqlstate : Option String
  pub disk_error : Option String

abbrev pub raise_pipeline_database_error : String → Outcome
raise_pipeline_database_error sqlstate =
    if sqlstate == "23505" then err persistence_conflict else err (database_operation sqlstate)

abbrev pub on_database : Option String → Outcome
on_database none = ok tt
on_database (some sqlstate) = raise_pipeline_database_error sqlstate

unfoldable pub start_pipeline_run :
    Backend → Failures → PipelineRunHandle → ℕ → Option Manifest → Option Manifest × Outcome
start_pipeline_run postgres failures h started_at disk = (disk, on_database failures.sqlstate)
start_pipeline_run unavailable failures h started_at disk = (disk, err value_error)
start_pipeline_run local_manifests failures h started_at disk =
    write_local_manifest failures.disk_error (local_payload h "running" started_at started_at none)
      disk

unfoldable pub finish_pipeline_run :
    Backend
    → Failures
    → PipelineRunHandle
    → String
    → ℕ
    → ℕ
    → Option String
    → Option Manifest
    → Option Manifest × Outcome
finish_pipeline_run backend failures h status started_at now error_category disk =
    if not (is_terminal status)
    then (disk, err value_error)
    else let category = if status == "succeeded" then none else error_category in
      elim backend [
        | postgres ↦ (disk, on_database failures.sqlstate)
        | unavailable ↦ (disk, err value_error)
        | local_manifests ↦
            write_local_manifest failures.disk_error
              (local_payload h status started_at now category) disk
      ]

-- The conclusion where the audit ended, or raised.
unfoldable pub conclude : PipelineRunHandle → Bool → Outcome → PipelineRunHandle
conclude h work_succeeded (ok _) = set_outcome work_succeeded true none h
conclude h work_succeeded (err e) = set_outcome work_succeeded false (some e) h

unfoldable pub finalize_pipeline_run_outcome :
    Backend
    → Failures
    → PipelineRunHandle
    → (work_succeeded : Bool) → ℕ
    → ℕ
    → Option String
    → Option Manifest
    → Option Manifest × PipelineRunHandle
finalize_pipeline_run_outcome backend failures h work_succeeded started_at now error_category disk =
    let finished =
      finish_pipeline_run backend failures h (if work_succeeded then "succeeded" else "failed")
        started_at now error_category disk in
    (finished.0, conclude h work_succeeded finished.1)

pub record Run : Type 0 where
  pub disk : Option Manifest
  pub body_ran : Bool
  pub outcome : Option PipelineRunOutcome
  pub result : Outcome

abbrev pub result_of : Option String → Outcome
result_of none = ok tt
result_of (some e) = err (raised e)

-- A run that was started, after its body.
unfoldable pub run_body :
    Backend → Failures → PipelineRunHandle → ℕ → ℕ → (body : Option String) → Option Manifest → Run
run_body backend at_end h started_at now body disk =
    let closed =
      finalize_pipeline_run_outcome backend at_end h (not (is_some body)) started_at now body
        disk in
    record { disk = closed.0; body_ran = true; outcome = closed.1.outcome; result = result_of body }

-- `pipeline_run` around a body that changes the handle and raises or returns.
unfoldable pub pipeline_run :
    Backend
    → (at_start at_end : Failures) → PipelineRunHandle
    → ℕ
    → ℕ
    → (set : PipelineRunHandle → PipelineRunHandle) (body : Option String) → Option Manifest
    → Run
pipeline_run backend at_start at_end h started_at now set body disk =
    let opened = start_pipeline_run backend at_start h started_at disk in
    elim (opened.1) [
      | err e ↦ record { disk = opened.0; body_ran = false; outcome = none; result = err e }
      | ok _ ↦ run_body backend at_end (set h) started_at now body opened.0
    ]
