-- ===== src/Workflow/Examples.antt =====
-- An attempt of inference and one at a stage, at concrete calls.
use vaaet.Prelude.{ok, ℕ, String, ◌≡◌, refl, true, false, none, some, List, [], ◌∷◌}
use vaaet.Workflow.{
  is_sha256, InferenceExecutionState, start_execution, fail, publish_verified_classification,
  publish, can_persist, begin_persistence, complete_persistence, can_review, is_succeeded,
  succeeded, pending, running, failed, WorkflowStageStatus,
}
use vaaet.Workflow.Execution.{
  Call, publishing, beginning, completing, run_call, Reaches, started, called, Published,
  IsExecution, run-IsExecution, can_review-Published,
}
use vaaet.Workflow.Stage.{IsAttempt, local_stage_attempt-IsAttempt}
use vaaet.Workflow.History.{Write, write_all, IsExtension, first_written, write_all-IsExtension}
use vaaet.Workflow.Attempt.{Attempt, is_stage_name, local_stage_attempt, payload}
use vaaet.Prelude.Text.{codes}

-- Newest first: two rows are published, then persisted with a complete audit.
abbrev calls : List (Call ℕ)
calls = completing true ∷ beginning ∷ publishing (10 ∷ 20 ∷ []) (ok tt) ∷ []

abbrev revision : String
revision = "0123456789abcdef0123456789abcdef0123456789abcdef0123456789abcdef"

abbrev begun : InferenceExecutionState ℕ
begun = record {
  pipeline_run_id = 3;
  model_revision = revision;
  attempt_id = 7;
  classified = [];
  status = vaaet.Workflow.classifying;
  persistence_status = vaaet.Workflow.not_requested;
  persistence_audit_complete = false;
}

abbrev persisted : InferenceExecutionState ℕ
persisted = record {
  pipeline_run_id = 3;
  model_revision = revision;
  attempt_id = 7;
  classified = 10 ∷ 20 ∷ [];
  status = vaaet.Workflow.ready;
  persistence_status = succeeded;
  persistence_audit_complete = true;
}

calls-Reaches : Reaches [] calls persisted
unfolding start_execution is_sha256 run_call publish publish_verified_classification can_persist
    begin_persistence complete_persistence
calls-Reaches = called (completing true) _ _ (
    called beginning _ _
      (called (publishing (10 ∷ 20 ∷ []) (ok tt)) [] _ (started 3 revision 7 begun refl)))

run-IsExecution_example : IsExecution calls persisted
run-IsExecution_example = run-IsExecution [] calls persisted calls-Reaches

can_review-Published_example :
    Published (10 ∷ 20 ∷ []) calls × (false ≡ false) × (true ≡ true → true ≡ true)
unfolding can_review can_persist
can_review-Published_example = can_review-Published true [] calls persisted calls-Reaches refl

abbrev classified : Attempt
classified = local_stage_attempt "classification" none none none (some 3) (some "OSError")

local_stage_attempt-IsAttempt_example :
    IsAttempt
      (is_stage_name (codes "classification"))
      none
      none
      none
      (some 3)
      (some "OSError")
      classified
local_stage_attempt-IsAttempt_example =
    local_stage_attempt-IsAttempt "classification" none none none (some 3) (some "OSError")

abbrev writing : WorkflowStageStatus → Write
writing status = record {
  status = status;
  output_rows = none;
  error_category = none;
  disk_error = none;
}

-- Of these writes the disk takes the first and the third.
write_all-IsExtension_example : IsExtension (payload pending none none ∷ []) (
    write_all
      (writing running ∷ writing pending ∷ writing failed ∷ writing running ∷ [])
      (payload pending none none ∷ []))
unfolding payload
write_all-IsExtension_example =
    write_all-IsExtension
      (writing running ∷ writing pending ∷ writing failed ∷ writing running ∷ [])
      (payload pending none none ∷ []) (first_written _ refl)
