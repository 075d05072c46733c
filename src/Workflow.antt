-- ===== src/Workflow.antt =====
-- vaaet-ml/src/vaaet_ml/workflow_state.py. A run of a method gives the object after it and whether
-- it raised; identifiers and instants are values that the caller passes.
pub mod Execution
pub mod Attempt
pub mod History
pub mod Stage
mod Examples
use vaaet.Prelude.{
  leb, eqb, if◌then◌else◌, length, is_empty, all, Result, ok, err, ◌>>◌, raise_if, ◌==◌, ℕ, String,
  Bool, true, false, not, ◌&&◌, ◌||◌, List, [], nat_key, string_key,
}
use vaaet.Prelude.Text.{codes}

-- "[0-9a-f]{64}"
unfoldable pub is_sha256 : List ℕ → Bool
is_sha256 cs = all (λ c. (leb 48 c && leb c 57) || (leb 97 c && leb c 102)) cs && eqb (length cs) 64

pub data WorkflowStageStatus : Type 0 where
  not_requested : WorkflowStageStatus
  pending : WorkflowStageStatus
  running : WorkflowStageStatus
  succeeded : WorkflowStageStatus
  failed : WorkflowStageStatus

pub data InferenceExecutionStatus : Type 0 where
  classifying : InferenceExecutionStatus
  ready : InferenceExecutionStatus
  insufficient_context : InferenceExecutionStatus
  stopped : InferenceExecutionStatus

pub data WorkflowError : Type 0 where
  runtime_error : WorkflowError
  value_error : WorkflowError
  stale_execution : WorkflowError
  -- what the parity check, the disk or the body of a stage raised
  raised : String → WorkflowError

abbrev pub is_classifying : InferenceExecutionStatus → Bool
is_classifying classifying = true
is_classifying ready = false
is_classifying insufficient_context = false
is_classifying stopped = false

abbrev pub is_ready : InferenceExecutionStatus → Bool
is_ready classifying = false
is_ready ready = true
is_ready insufficient_context = false
is_ready stopped = false

abbrev pub is_running : WorkflowStageStatus → Bool
is_running not_requested = false
is_running pending = false
is_running running = true
is_running succeeded = false
is_running failed = false

abbrev pub is_succeeded : WorkflowStageStatus → Bool
is_succeeded not_requested = false
is_succeeded pending = false
is_succeeded running = false
is_succeeded succeeded = true
is_succeeded failed = false

abbrev pub Outcome : Type 0
Outcome = Result WorkflowError (Unit {0})

-- `InferenceExecutionState`; a row of the classified frame has the type R.
pub record InferenceExecutionState (R : Type 0) : Type 0 where
  pub pipeline_run_id : ℕ
  pub model_revision : String
  pub attempt_id : ℕ
  pub classified : List R
  pub status : InferenceExecutionStatus
  pub persistence_status : WorkflowStageStatus
  pub persistence_audit_complete : Bool

module _ {R : Type 0} where
  abbrev pub started_execution :
      (pipeline_run_id : ℕ) (model_revision : String) (attempt_id : ℕ) → InferenceExecutionState R
  started_execution pipeline_run_id model_revision attempt_id = record {
    pipeline_run_id = pipeline_run_id;
    model_revision = model_revision;
    attempt_id = attempt_id;
    classified = [];
    status = classifying;
    persistence_status = not_requested;
    persistence_audit_complete = false;
  }

  -- `__post_init__`, of a frame that the caller passed; its rows are dropped.
  unfoldable pub start_execution :
      (pipeline_run_id : ℕ) (model_revision : String) (attempt_id : ℕ)
      → List R
      → Result WorkflowError (InferenceExecutionState R)
  start_execution pipeline_run_id model_revision attempt_id frame =
      raise_if (not (is_sha256 (codes model_revision))) value_error
      >> ok (started_execution pipeline_run_id model_revision attempt_id)

  unfoldable pub fail : InferenceExecutionState R → InferenceExecutionState R
  fail s = record s {
    classified = [];
    status = stopped;
    persistence_status = not_requested;
    persistence_audit_complete = false;
  }

  -- `publish_verified_classification`, whose parity check may raise.
  unfoldable pub publish_verified_classification : List R → Outcome → Result WorkflowError (List R)
  publish_verified_classification candidate parity = elim parity [
    | ok _ ↦ ok candidate
    | err e ↦ err e
  ]

  unfoldable pub publish :
      List R → Outcome → InferenceExecutionState R → InferenceExecutionState R × Outcome
  publish candidate parity s =
      if not (is_classifying s.status)
      then (s, err runtime_error)
      else elim (publish_verified_classification candidate parity) [
        | err e ↦ (fail s, err e)
        | ok published ↦ (
          record s {
            classified = published;
            status = if is_empty published then insufficient_context else ready;
          },
          ok tt,
        )
      ]

  unfoldable pub publish_insufficient_context :
      InferenceExecutionState R → InferenceExecutionState R × Outcome
  publish_insufficient_context s =
      if not (is_classifying s.status)
      then (s, err runtime_error)
      else (record s { status = insufficient_context }, ok tt)

  unfoldable pub can_persist : InferenceExecutionState R → Bool
  can_persist s = is_ready s.status && not (is_empty s.classified)

  unfoldable pub begin_persistence : InferenceExecutionState R → InferenceExecutionState R × Outcome
  begin_persistence s =
      if not (can_persist s)
      then (s, err runtime_error)
      else (record s { persistence_status = running; persistence_audit_complete = false }, ok tt)

  unfoldable pub complete_persistence :
      Bool → InferenceExecutionState R → InferenceExecutionState R × Outcome
  complete_persistence audit_complete s =
      if not (is_running s.persistence_status) then (s, err runtime_error) else (
        record s { persistence_status = succeeded; persistence_audit_complete = audit_complete },
        ok tt,
      )

  unfoldable pub fail_persistence : InferenceExecutionState R → InferenceExecutionState R
  fail_persistence s = record s { persistence_status = failed; persistence_audit_complete = false }

  unfoldable pub can_review : (require_persistence : Bool) → InferenceExecutionState R → Bool
  can_review require_persistence s =
      if not (can_persist s)
      then false
      else not require_persistence
        || (is_succeeded s.persistence_status && s.persistence_audit_complete)

  unfoldable pub require_attempt : ℕ → InferenceExecutionState R → Outcome
  require_attempt attempt_id s = raise_if (not (s.attempt_id == attempt_id)) stale_execution
