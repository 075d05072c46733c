-- ===== src/Workflow/Attempt.antt =====
-- vaaet-ml/src/vaaet_ml/workflow_state.py: the manifest that a stage leaves on disk. An attempt has
-- a file of its own; the manifests written to it are listed, the newest first.
use vaaet.Prelude.{
  leb, eqb, if◌then◌else◌, length, all, ok, err, succeeds, ℕ, String, Bool, true, false, not, ◌&&◌,
  ◌||◌, Option, none, some, List, [], ◌∷◌, ℤ, pos, negsuc,
}
use vaaet.Prelude.Text.{codes}
use vaaet.Workflow.{
  WorkflowStageStatus, not_requested, pending, running, succeeded, failed, WorkflowError,
  runtime_error, value_error, raised, Outcome,
}

-- The part of the payload that changes over an attempt.
pub record Manifest : Type 0 where
  pub status : WorkflowStageStatus
  pub is_completed : Bool
  pub output_rows : Option ℕ
  pub error_category : Option String

-- `LocalStageAttempt`: what its user may change, and what the manager sets.
pub record LocalStageAttempt : Type 0 where
  pub output_rows : Option ℕ
  pub audit_complete : Bool

abbrev pub Disk : Type 0
Disk = List Manifest

-- `set_output_rows` of an int that is not a bool.
unfoldable pub set_output_rows : ℤ → LocalStageAttempt → LocalStageAttempt × Outcome
set_output_rows (pos rows) handle = (record handle { output_rows = some rows }, ok tt)
set_output_rows (negsuc _) handle = (handle, err value_error)

unfoldable pub is_unfinished : WorkflowStageStatus → Bool
is_unfinished not_requested = false
is_unfinished pending = true
is_unfinished running = true
is_unfinished succeeded = false
is_unfinished failed = false

-- `previous in allowed_previous`
unfoldable pub may_follow : WorkflowStageStatus → WorkflowStageStatus → Bool
may_follow running pending = true
may_follow succeeded running = true
may_follow failed running = true
may_follow running not_requested = false
may_follow running running = false
may_follow running succeeded = false
may_follow running failed = false
may_follow succeeded not_requested = false
may_follow succeeded pending = false
may_follow succeeded succeeded = false
may_follow succeeded failed = false
may_follow failed not_requested = false
may_follow failed pending = false
may_follow failed succeeded = false
may_follow failed failed = false
may_follow not_requested _ = false
may_follow pending _ = false

unfoldable pub may_write : WorkflowStageStatus → Disk → Bool
may_write status [] = true
may_write status (previous ∷ _) = may_follow status previous.status

unfoldable pub payload : WorkflowStageStatus → Option ℕ → Option String → Manifest
payload status rows error_category = record {
  status = status;
  is_completed = not (is_unfinished status);
  output_rows = rows;
  error_category = error_category;
}

-- `_write_stage_manifest`, where the disk may refuse the new file.
unfoldable pub write_stage_manifest :
    WorkflowStageStatus
    → Option ℕ
    → Option String
    → (disk_error : Option String) → Disk
    → Disk × Outcome
write_stage_manifest status rows error_category disk_error disk =
    if not (may_write status disk) then (disk, err runtime_error) else elim disk_error [
      | some e ↦ (disk, err (raised e))
      | none ↦ (payload status rows error_category ∷ disk, ok tt)
    ]

pub record Attempt : Type 0 where
  pub disk : Disk
  pub body_ran : Bool
  pub audit_complete : Bool
  pub outcome : Outcome

-- The end of an attempt whose body gave its rows and returned, or raised.
unfoldable pub finish_attempt : Option ℕ → Option String → Disk → (body : Option String) → Attempt
finish_attempt rows disk_error disk body =
    let status : WorkflowStageStatus = elim body [ none ↦ succeeded | some _ ↦ failed ] in
    let written = write_stage_manifest status rows body disk_error disk in
    record {
      disk = written.0;
      body_ran = true;
      audit_complete = succeeds written.1;
      outcome = elim body [ none ↦ ok tt | some e ↦ err (raised e) ];
    }

abbrev pub aborted : Disk → WorkflowError → Attempt
aborted disk e = record { disk = disk; body_ran = false; audit_complete = false; outcome = err e }

-- `local_stage_attempt` behind the check of its name, whose three writes the disk may refuse,
-- around a body that leaves the rows it set and raises or returns.
unfoldable pub attempt_if_valid :
    (is_valid : Bool) (at_pending at_running at_end : Option String)
    → Option ℕ
    → (body : Option String) → Attempt
attempt_if_valid is_valid at_pending at_running at_end rows body =
    if not is_valid
    then aborted [] value_error
    else let first = write_stage_manifest pending none none at_pending [] in
      elim (first.1) [
        | err e ↦ aborted first.0 e
        | ok _ ↦
            let second = write_stage_manifest running none none at_running first.0 in
            elim (second.1) [
              | err e ↦ aborted second.0 e
              | ok _ ↦ finish_attempt rows at_end second.0 body
            ]
      ]

-- "[a-z][a-z0-9-]{0,63}"
unfoldable pub is_stage_name : List ℕ → Bool
is_stage_name [] = false
is_stage_name (c ∷ cs) =
    (leb 97 c && leb c 122)
    && all (λ d. (leb 97 d && leb d 122) || (leb 48 d && leb d 57) || eqb d 45) cs
    && leb (length cs) 63

unfoldable pub local_stage_attempt :
    (stage : String) (at_pending at_running at_end : Option String)
    → Option ℕ
    → (body : Option String) → Attempt
local_stage_attempt stage at_pending at_running at_end rows body =
    attempt_if_valid (is_stage_name (codes stage)) at_pending at_running at_end rows body

unfoldable pub record_stage_not_requested : (stage : String) → Option String → Disk × Outcome
record_stage_not_requested stage disk_error =
    if not (is_stage_name (codes stage))
    then ([], err value_error)
    else write_stage_manifest not_requested (some 0) none disk_error []
